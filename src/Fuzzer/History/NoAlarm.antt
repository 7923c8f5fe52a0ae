-- ===== src/Fuzzer/History/NoAlarm.antt =====
-- The checker fails no response of a linearizable service.
use madkv.Prelude.{
  ℕ, ◌<◌, ◌≡◌, refl, sym, subst, List, [], ◌∷◌, ◌++◌, inl, inr, Option, none, some, Bool, true,
  false, All, All-map, replicate, is_some, if◌then◌else◌, Bool-cases, Option-cases,
}
use madkv.Prelude.Any.{Any, split_at}
use madkv.Prelude.Results.{done, fail, spin, panic}
use madkv.Text.{Text}
use madkv.Runner.Resp.{KvResp, put, swap, get, scan, delete, stop}
use madkv.HashMap
use madkv.HashMap.{HashMap, Each, get-Each}
use madkv.HashMap.Distinct.{AreDistinct, insert-AreDistinct, get-AreDistinct}
use madkv.Fuzzer.History.Spans.{QueuedSpan, KeySpans, History}
use madkv.Fuzzer.History.Check.{
  found_matches, value_matches, check_put, check_get, check_scan, check_resp, check_call,
  with_spans,
}
use madkv.Fuzzer.History.Update.{apply_update, new, add_key, add_keys, add_pools}
use madkv.Fuzzer.History.Search.{Seen, search_key_iff, value_matches_iff}
use madkv.Fuzzer.History.Scan.{PassesGet, check_scan_iff}
use madkv.Fuzzer.History.Whole.{Updated, Ack, run, AreSynchronous}
use madkv.Fuzzer.History.Decides.{entries}
use madkv.Fuzzer.History.Complete.{entry_of, complete}
use madkv.Fuzzer.History.Online.{Judged, KnownKey}
use madkv.Fuzzer.History.Offline.{first_spans, new-Each, run-offline}
use madkv.Fuzzer.History.Pushed.{pushed, get-complete, get-complete-none, complete-AreDistinct}
use madkv.Fuzzer.History.Sequential.{
  Store, no_keys, Answers, IsLegal, IsLegal-split, Linearization, effects,
}
use madkv.Fuzzer.History.Linearizable.{seen_value}

found_matches_of :
    (found : Bool) (o : Option Text) → is_some o ≡ found → found_matches found o ≡ true
unfolding found_matches
found_matches_of true none h = cc
found_matches_of false none h = refl
found_matches_of true (some v) h = refl
found_matches_of false (some v) h = cc

-- A key that the history knows, of a call that has one key.
abbrev pub KnownResp : HashMap KeySpans → KvResp → Type 0
KnownResp spans (put key found) = (ks : KeySpans) × (HashMap.get spans key ≡ some ks)
KnownResp spans (swap key old_value) = (ks : KeySpans) × (HashMap.get spans key ≡ some ks)
KnownResp spans (get key value) = (ks : KeySpans) × (HashMap.get spans key ≡ some ks)
KnownResp spans (scan key_start key_end entries) = Unit
KnownResp spans (delete key found) = (ks : KeySpans) × (HashMap.get spans key ≡ some ks)
KnownResp spans stop = Unit

add_key-AreDistinct :
    (n : ℕ) (spans : HashMap KeySpans) (key : Text)
    → AreDistinct spans
    → AreDistinct (add_key n spans key)
unfolding add_key
add_key-AreDistinct n spans key h = elim (Bool-cases (HashMap.contains_key spans key)) [
  | inl e ↦ rw (e, if◌then◌else◌) h
  | inr e ↦ rw (e, if◌then◌else◌) (insert-AreDistinct spans key _ h)
]

add_keys-AreDistinct :
    (n : ℕ) (spans : HashMap KeySpans) (keys : List Text)
    → AreDistinct spans
    → AreDistinct (add_keys n spans keys)
unfolding add_keys
add_keys-AreDistinct n spans [] h = h
add_keys-AreDistinct n spans (key ∷ keys) h =
    add_keys-AreDistinct n (add_key n spans key) keys (add_key-AreDistinct n spans key h)

add_pools-AreDistinct :
    (n : ℕ) (spans : HashMap KeySpans) (keys : List (List Text))
    → AreDistinct spans
    → AreDistinct (add_pools n spans keys)
unfolding add_pools
add_pools-AreDistinct n spans [] h = h
add_pools-AreDistinct n spans (pool ∷ keys) h =
    add_pools-AreDistinct n (add_keys n spans pool) keys (add_keys-AreDistinct n spans pool h)

new-AreDistinct : (n : ℕ) (keys : List (List Text)) → AreDistinct (new n keys).spans
unfolding new
new-AreDistinct n keys = add_pools-AreDistinct n [] keys tt

module _ (n : ℕ) (clients : 0 < n) (keys : List (List Text)) (acks seq : List Ack)
    (lin : Linearization acks seq) (sync : AreSynchronous (replicate n 0) acks)
    (spans : All (λ a. a.ts_call < a.ts_resp) acks) where
  abbrev whole : HashMap KeySpans
  whole = complete (new n keys).spans acks

  -- The complete history of a known key.
  get-whole :
      (key : Text) (ks : KeySpans)
      → HashMap.get (new n keys).spans key ≡ some ks
      → HashMap.get whole key ≡ some (pushed (first_spans n) key acks)
  get-whole key ks g =
      subst (λ k. HashMap.get whole key ≡ some (pushed k key acks))
        (get-Each (λ k. k ≡ first_spans n) (new n keys).spans key ks g
          (new-Each n (λ k. k ≡ first_spans n) refl keys))
        (get-complete (new n keys).spans key ks acks g)

  whole-pushed :
      (key : Text) (kt : KeySpans)
      → HashMap.get whole key ≡ some kt
      → pushed (first_spans n) key acks ≡ kt
  whole-pushed key kt g = elim (Option-cases (HashMap.get (new n keys).spans key)) [
    | inl e ↦ cc (get-complete-none (new n keys).spans key acks e)
    | inr (ks, e) ↦ cc (get-whole key ks e)
  ]

  module _ (e : Ack) (pre post : List Ack) (parts : seq ≡ pre ++ (e ∷ post))
      (is_span : e.ts_call < e.ts_resp) where
    abbrev m : Store
    m = effects no_keys pre

    answers : Answers m e.resp
    answers = (IsLegal-split no_keys pre (e ∷ post) (subst (IsLegal no_keys) parts lin.legal)).0

    abbrev seen :
        (matches : Option Text → Bool) (key : Text)
        → matches (m key) ≡ true
        → Any (Seen matches e.ts_call e.ts_resp) (pushed (first_spans n) key acks)
    seen matches key h =
        seen_value n clients acks seq lin sync spans e pre post parts is_span matches key h

    found_seen :
        (key : Text) (found : Bool)
        → is_some (m key) ≡ found
        → check_put (pushed (first_spans n) key acks) e.ts_call e.ts_resp found ≡ true
    unfolding check_put
    found_seen key found h =
        (search_key_iff (found_matches found) e.ts_call e.ts_resp _).1
          (seen (found_matches found) key (found_matches_of found (m key) h))

    value_seen :
        (key : Text) (value : Option Text)
        → m key ≡ value
        → check_get (pushed (first_spans n) key acks) e.ts_call e.ts_resp value ≡ true
    unfolding check_get
    value_seen key value h =
        (search_key_iff (value_matches value) e.ts_call e.ts_resp _).1
          (seen (value_matches value) key ((value_matches_iff value (m key)).1 h))

    scan_seen :
        (key_start key_end : Text) (entries : List (Text × Text))
        → Answers m (scan key_start key_end entries)
        → check_scan whole e.ts_call e.ts_resp key_start key_end entries ≡ true
    scan_seen key_start key_end entries (inside, fresh, same) =
        (check_scan_iff key_start key_end e.ts_call e.ts_resp whole entries).1 (
          inside,
          fresh,
          All-map passes_get whole
              (get-AreDistinct whole (complete-AreDistinct _ acks (new-AreDistinct n keys))),
        )
      where
        passes_get :
            (f : Text × KeySpans)
            → HashMap.get whole f.0 ≡ some f.1
            → PassesGet key_start key_end e.ts_call e.ts_resp entries f
        passes_get (key, kt) found in_it =
            subst (λ kt. check_get kt e.ts_call e.ts_resp (HashMap.get entries key) ≡ true)
              (whole-pushed key kt found)
              (value_seen key (HashMap.get entries key) (sym (same key in_it)))

    passes :
        (resp : KvResp)
        → KnownResp (new n keys).spans resp
        → Answers m resp
        → check_resp whole e.ts_call e.ts_resp resp ≡ true
    unfolding check_resp with_spans
    passes (put key found) (ks, g) h = rw (get-whole key ks g, with_spans) (found_seen key found h)
    passes (swap key old_value) (ks, g) h =
        rw (get-whole key ks g, with_spans) (value_seen key old_value h)
    passes (get key value) (ks, g) h = rw (get-whole key ks g, with_spans) (value_seen key value h)
    passes (scan key_start key_end entries) k h = scan_seen key_start key_end entries h
    passes (delete key found) (ks, g) h =
        rw (get-whole key ks g, with_spans) (found_seen key found h)
    passes stop k h = absurd h

  check_call-entry :
      (a : Ack)
      → a.ts_call < a.ts_resp
      → Any (λ b. b ≡ a) seq
      → KnownResp (new n keys).spans a.resp
      → check_call whole (entry_of a) ≡ true
  unfolding check_call
  check_call-entry a is_span h k =
      let (pre, post, parts) = split_at seq a h in
      passes a pre post parts is_span a.resp k (answers a pre post parts is_span)

  entries_pass :
      (bs : List Ack)
      → All (λ a. a.ts_call < a.ts_resp) bs
      → All (λ a. Any (λ b. b ≡ a) seq) bs
      → All (λ a. KnownResp (new n keys).spans a.resp) bs
      → All (λ e. check_call whole e ≡ true) (entries bs)
  entries_pass [] h k l = tt
  entries_pass (a ∷ bs) h k l = (check_call-entry a h.0 k.0 l.0, entries_pass bs h.1 k.1 l.1)

none_failed :
    (spans : HashMap KeySpans) (resp : KvResp) (es : List QueuedSpan)
    → All (λ e. check_call spans e ≡ true) es
    → Any (λ e. (e.resp ≡ resp) × (check_call spans e ≡ false)) es
    → ⊥
none_failed spans resp [] h k = k
none_failed spans resp (e ∷ es) h (inl k) = cc (h.0)
none_failed spans resp (e ∷ es) h (inr k) = none_failed spans resp es h.1 k

Judged-passes :
    (spans : HashMap KeySpans) (es : List QueuedSpan) (r : Updated)
    → Judged spans es r
    → All (λ e. check_call spans e ≡ true) es
    → (h : History) × (r ≡ done (none, h))
Judged-passes spans es (done (none, h)) j k = (h, refl)
Judged-passes spans es (done (some none, h)) j k = absurd j
Judged-passes spans es (done (some (some resp), h)) j k = absurd (none_failed spans resp es k j)
Judged-passes spans es (fail e) j k = absurd j
Judged-passes spans es spin j k = absurd j
Judged-passes spans es panic j k = absurd j

-- No false alarm: if the calls of at least one synchronous client, each over after it began and of
-- known keys, have an order that keeps the order of calls that do not overlap, and in which an
-- atomic map gives their responses, then the checker fails none of them, and does not panic. Scans
-- of that map include their end key.
pub run-linearizable :
    (n : ℕ) (keys : List (List Text)) (acks seq : List Ack)
    → 0 < n
    → Linearization acks seq
    → AreSynchronous (replicate n 0) acks
    → All (λ a. a.ts_call < a.ts_resp) acks
    → All (λ a. KnownKey (new n keys).spans a.update_info) acks
    → All (λ a. KnownResp (new n keys).spans a.resp) acks
    → (h : History) × (run apply_update (new n keys) acks ≡ done (none, h))
run-linearizable n keys acks seq clients lin sync spans known_keys known_resps =
    Judged-passes (complete (new n keys).spans acks) (entries acks)
      (run apply_update (new n keys) acks) (run-offline n keys acks sync known_keys)
      (entries_pass n clients keys acks seq lin sync spans acks spans lin.all_of known_resps)
