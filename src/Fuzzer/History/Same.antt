-- ===== src/Fuzzer/History/Same.antt =====
-- When two histories give the same verdict on every response with a given time span: their keys
-- agree, and so do all searches of their clients' deques.
use madkv.Prelude.{
  ℕ, ◌≡◌, refl, Bool, false, List, [], ◌∷◌, Option, none, some, if◌then◌else◌, Bool-cases,
  Option-cases, inl, inr,
}
use madkv.Text.{Text, text_eq}
use madkv.Runner.Resp.{KvResp, put, swap, get, scan, delete, stop}
use madkv.HashMap
use madkv.HashMap.{HashMap}
use madkv.Fuzzer.History.Spans.{ClientSpans, KeySpans, QueuedSpan, search_client, search_key}
use madkv.Fuzzer.History.Check.{
  check_get, check_range, check_scan, collect_entries, check_resp, check_call,
}

module _ (ts_call ts_resp : ℕ) where
  abbrev pub SameClient : ClientSpans → ClientSpans → Type 0
  SameClient l l' =
      (matches : Option Text → Bool)
      → search_client matches ts_call ts_resp l ≡ search_client matches ts_call ts_resp l'

  abbrev pub SameKey : KeySpans → KeySpans → Type 0
  SameKey [] [] = Unit
  SameKey [] (l' ∷ ks') = ⊥
  SameKey (l ∷ ks) [] = ⊥
  SameKey (l ∷ ks) (l' ∷ ks') = SameClient l l' × SameKey ks ks'

  abbrev pub SameSpans : HashMap KeySpans → HashMap KeySpans → Type 0
  SameSpans [] [] = Unit
  SameSpans [] (e ∷ b) = ⊥
  SameSpans (e ∷ a) [] = ⊥
  SameSpans ((k, s) ∷ a) ((j, t) ∷ b) = (k ≡ j) × SameKey s t × SameSpans a b

  abbrev pub SameFound : Option KeySpans → Option KeySpans → Type 0
  SameFound none none = Unit
  SameFound none (some t) = ⊥
  SameFound (some s) none = ⊥
  SameFound (some s) (some t) = SameKey s t

  search_key-SameKey :
      (matches : Option Text → Bool) (s t : KeySpans)
      → SameKey s t
      → search_key matches ts_call ts_resp s ≡ search_key matches ts_call ts_resp t
  unfolding search_key
  search_key-SameKey matches [] [] h = refl
  search_key-SameKey matches [] (l' ∷ t) h = absurd h
  search_key-SameKey matches (l ∷ s) [] h = absurd h
  search_key-SameKey matches (l ∷ s) (l' ∷ t) h =
      rw (h.0 matches, search_key-SameKey matches s t h.1)

  pub get-SameFound :
      (a b : HashMap KeySpans) (key : Text)
      → SameSpans a b
      → SameFound (HashMap.get a key) (HashMap.get b key)
  unfolding HashMap.get
  get-SameFound [] [] key h = tt
  get-SameFound [] (e ∷ b) key h = absurd h
  get-SameFound (e ∷ a) [] key h = absurd h
  get-SameFound ((k, s) ∷ a) ((j, t) ∷ b) key h = elim (Bool-cases (text_eq k key)) [
    | inl e ↦ rw (← h.0, e, if◌then◌else◌) h.1
    | inr e ↦ rw (← h.0, e, if◌then◌else◌) (get-SameFound a b key h.2)
  ]

  pub insert-SameSpans :
      (a b : HashMap KeySpans) (key : Text) (s t : KeySpans)
      → SameKey s t
      → SameSpans a b
      → SameSpans (HashMap.insert a key s) (HashMap.insert b key t)
  unfolding HashMap.insert
  insert-SameSpans [] [] key s t same h = (refl, same, tt)
  insert-SameSpans [] (e ∷ b) key s t same h = absurd h
  insert-SameSpans (e ∷ a) [] key s t same h = absurd h
  insert-SameSpans ((k, s') ∷ a) ((j, t') ∷ b) key s t same h = elim (Bool-cases (text_eq k key)) [
    | inl e ↦ rw (← h.0, e, if◌then◌else◌) (refl, same, h.2)
    | inr e ↦ rw (← h.0, e, if◌then◌else◌) (refl, h.1, insert-SameSpans a b key s t same h.2)
  ]

  check_range-SameSpans :
      (a b : HashMap KeySpans) (key_start key_end : Text) (entries_map : HashMap Text)
      → SameSpans a b
      → check_range a ts_call ts_resp key_start key_end entries_map
        ≡ check_range b ts_call ts_resp key_start key_end entries_map
  unfolding check_range check_get
  check_range-SameSpans [] [] key_start key_end entries_map h = refl
  check_range-SameSpans [] (e ∷ b) key_start key_end entries_map h = absurd h
  check_range-SameSpans (e ∷ a) [] key_start key_end entries_map h = absurd h
  check_range-SameSpans ((k, s) ∷ a) ((j, t) ∷ b) key_start key_end entries_map h = rw (
    h.0,
    search_key-SameKey _ s t h.1,
    check_range-SameSpans a b key_start key_end entries_map h.2,
  )

  with_spans-SameFound :
      (matches : Option Text → Bool) (f g : Option KeySpans)
      → SameFound f g
      → (elim f [ none ↦ false | some s ↦ search_key matches ts_call ts_resp s ])
        ≡ (elim g [ none ↦ false | some s ↦ search_key matches ts_call ts_resp s ])
  with_spans-SameFound matches none none h = refl
  with_spans-SameFound matches none (some t) h = absurd h
  with_spans-SameFound matches (some s) none h = absurd h
  with_spans-SameFound matches (some s) (some t) h = search_key-SameKey matches s t h

  check_scan-SameSpans :
      (a b : HashMap KeySpans) (key_start key_end : Text) (entries : List (Text × Text))
      → SameSpans a b
      → check_scan a ts_call ts_resp key_start key_end entries
        ≡ check_scan b ts_call ts_resp key_start key_end entries
  unfolding check_scan
  check_scan-SameSpans a b key_start key_end entries h =
      elim (Option-cases (collect_entries key_start key_end entries [])) [
        | inl e ↦ rw (e, check_scan)
        | inr (m, e) ↦ rw (e, check_scan) (check_range-SameSpans a b key_start key_end m h)
      ]

  check_resp-SameSpans :
      (a b : HashMap KeySpans) (resp : KvResp)
      → SameSpans a b
      → check_resp a ts_call ts_resp resp ≡ check_resp b ts_call ts_resp resp
  unfolding check_resp
  check_resp-SameSpans a b (put key found) h = with_spans-SameFound _ _ _ (get-SameFound a b key h)
  check_resp-SameSpans a b (swap key old_value) h =
      with_spans-SameFound _ _ _ (get-SameFound a b key h)
  check_resp-SameSpans a b (get key value) h = with_spans-SameFound _ _ _ (get-SameFound a b key h)
  check_resp-SameSpans a b (scan key_start key_end entries) h =
      check_scan-SameSpans a b key_start key_end entries h
  check_resp-SameSpans a b (delete key found) h =
      with_spans-SameFound _ _ _ (get-SameFound a b key h)
  check_resp-SameSpans a b stop h = refl

-- Histories that are the same at the time span of an entry give the same verdict on it.
pub check_call-SameSpans :
    (a b : HashMap KeySpans) (entry : QueuedSpan)
    → SameSpans entry.ts_call entry.ts_resp a b
    → check_call a entry ≡ check_call b entry
unfolding check_call
check_call-SameSpans a b entry h = check_resp-SameSpans entry.ts_call entry.ts_resp a b entry.resp h
