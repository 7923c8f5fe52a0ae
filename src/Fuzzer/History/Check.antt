-- ===== src/Fuzzer/History/Check.antt =====
-- The checks of runner/src/bin/fuzzer/history.rs: `check_call` and its callees.
use madkv.Prelude.{
  ℕ, Bool, true, false, ◌&&◌, ◌||◌, not, List, [], ◌∷◌, Option, none, some, if◌then◌else◌,
}
use madkv.Text.{Text, text_eq, text_lt, text_le}
use madkv.Runner.Resp.{KvResp, put, swap, get, scan, delete, stop}
use madkv.HashMap
use madkv.HashMap.{HashMap}
use madkv.Fuzzer.History.Spans.{QueuedSpan, KeySpans, search_key}

-- `span.value.is_some() == *found`
unfoldable pub found_matches : Bool → Option Text → Bool
found_matches found none = not found
found_matches found (some v) = found

-- `span.value.as_ref() == value`
unfoldable pub value_matches : Option Text → Option Text → Bool
value_matches none none = true
value_matches none (some v) = false
value_matches (some w) none = false
value_matches (some w) (some v) = text_eq v w

unfoldable pub check_put : KeySpans → ℕ → ℕ → Bool → Bool
check_put key_spans ts_call ts_resp found =
    search_key (found_matches found) ts_call ts_resp key_spans

unfoldable pub check_swap : KeySpans → ℕ → ℕ → Option Text → Bool
check_swap key_spans ts_call ts_resp old_value =
    search_key (value_matches old_value) ts_call ts_resp key_spans

unfoldable pub check_get : KeySpans → ℕ → ℕ → Option Text → Bool
check_get key_spans ts_call ts_resp value =
    search_key (value_matches value) ts_call ts_resp key_spans

unfoldable pub check_delete : KeySpans → ℕ → ℕ → Bool → Bool
check_delete key_spans ts_call ts_resp found =
    search_key (found_matches found) ts_call ts_resp key_spans

-- The first loop of `check_scan`: the map of the entries, or `none` at the first entry that is
-- out of range or has a key again.
unfoldable pub collect_entries :
    Text → Text → List (Text × Text) → HashMap Text → Option (HashMap Text)
collect_entries key_start key_end [] entries_map = some entries_map
collect_entries key_start key_end ((key, value) ∷ entries) entries_map =
    let rest = collect_entries key_start key_end entries (HashMap.insert entries_map key value) in
    if text_lt key key_start || text_lt key_end key
    then none
    else if HashMap.contains_key entries_map key
    then none
    else rest

-- The second loop of `check_scan`, over every key of the history.
unfoldable pub check_range : HashMap KeySpans → ℕ → ℕ → Text → Text → HashMap Text → Bool
check_range [] ts_call ts_resp key_start key_end entries_map = true
check_range ((key, key_spans) ∷ spans) ts_call ts_resp key_start key_end entries_map =
    let rest = check_range spans ts_call ts_resp key_start key_end entries_map in
    if text_le key_start key
      && text_le key key_end
      && not (check_get key_spans ts_call ts_resp (HashMap.get entries_map key))
    then false
    else rest

unfoldable pub check_scan : HashMap KeySpans → ℕ → ℕ → Text → Text → List (Text × Text) → Bool
unfolding collect_entries check_range
check_scan spans ts_call ts_resp key_start key_end entries =
    elim (collect_entries key_start key_end entries []) [
      | none ↦ false
      | some entries_map ↦ check_range spans ts_call ts_resp key_start key_end entries_map
    ]

-- `if let Some(key_spans) = self.spans.get(key) { … } else { false }`
unfoldable pub with_spans : HashMap KeySpans → Text → (KeySpans → Bool) → Bool
with_spans spans key check = elim (HashMap.get spans key) [ none ↦ false | some s ↦ check s ]

unfoldable pub check_resp : HashMap KeySpans → ℕ → ℕ → KvResp → Bool
unfolding with_spans check_put check_swap check_get check_delete
check_resp spans ts_call ts_resp (put key found) =
    with_spans spans key λ s. check_put s ts_call ts_resp found
check_resp spans ts_call ts_resp (swap key old_value) =
    with_spans spans key λ s. check_swap s ts_call ts_resp old_value
check_resp spans ts_call ts_resp (get key value) =
    with_spans spans key λ s. check_get s ts_call ts_resp value
check_resp spans ts_call ts_resp (scan key_start key_end entries) =
    check_scan spans ts_call ts_resp key_start key_end entries
check_resp spans ts_call ts_resp (delete key found) =
    with_spans spans key λ s. check_delete s ts_call ts_resp found
check_resp spans ts_call ts_resp stop = false

unfoldable pub check_call : HashMap KeySpans → QueuedSpan → Bool
unfolding check_resp
check_call spans entry = check_resp spans entry.ts_call entry.ts_resp entry.resp
