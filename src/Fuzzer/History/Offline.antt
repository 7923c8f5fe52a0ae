-- ===== src/Fuzzer/History/Offline.antt =====
-- What a run of the trimming checker returns, by the complete history.
use madkv.Prelude.{
  ℕ, ◌≡◌, sym, ap, ◌∙◌, subst, List, [], ◌∷◌, ◌++◌, Option, none, some, All, length, replicate,
  length-replicate, if◌then◌else◌, Bool-cases, inl, inr,
}
use madkv.Prelude.Results.{done, panic}
use madkv.Text.{Text}
use madkv.Runner.Resp.{KvResp}
use madkv.HashMap
use madkv.HashMap.{HashMap, Each, insert-Each}
use madkv.Fuzzer.History.Spans.{QueuedSpan, KeySpans, History}
use madkv.Fuzzer.History.Update.{dummy, apply_update, new, add_key, add_pools, add_keys}
use madkv.Fuzzer.History.Agrees.{AgreesOutcome}
use madkv.Fuzzer.History.Whole.{Updated, Ack, update_whole, run, AreSynchronous}
use madkv.Fuzzer.History.Runs.{run-Agrees, new-Agrees}
use madkv.Fuzzer.History.Complete.{complete}
use madkv.Fuzzer.History.Online.{Judged, KnownKey, Ready}
use madkv.Fuzzer.History.Decides.{run-Judged, entries}

Judged-queue :
    (spans : HashMap KeySpans) (es : List QueuedSpan) (o : Option (Option KvResp)) (h w : History)
    → h.queue ≡ w.queue
    → Judged spans es (done (o, w))
    → Judged spans es (done (o, h))
Judged-queue spans es none h w same (passed, e, all) =
    (passed, e ∙ ap (λ q. passed ++ q) (sym same), all)
Judged-queue spans es (some none) h w same j = j
Judged-queue spans es (some (some r)) h w same j = j

Judged-Agrees :
    (spans : HashMap KeySpans) (es : List QueuedSpan) (x y : Updated)
    → AgreesOutcome x y
    → Judged spans es y
    → Judged spans es x
Judged-Agrees spans es (done (o, h)) (done (o', w)) k j =
    subst (λ r. Judged spans es (done (r, h))) (sym k.0) (Judged-queue spans es o' h w k.1.queue j)
Judged-Agrees spans es panic panic k j = j
Judged-Agrees spans es _ _ k j = absurd k

-- The spans with which a key starts.
abbrev pub first_spans : ℕ → KeySpans
first_spans n = replicate n (dummy ∷ [])

-- What holds of them holds of every key of a new history.
module _ (n : ℕ) (P : KeySpans → Type 0) (first : P (first_spans n)) where
  add_key-Each :
      (spans : HashMap KeySpans) (key : Text) → Each P spans → Each P (add_key n spans key)
  unfolding add_key
  add_key-Each spans key h = elim (Bool-cases (HashMap.contains_key spans key)) [
    | inl e ↦ rw (e, if◌then◌else◌) h
    | inr e ↦ rw (e, if◌then◌else◌) (insert-Each P spans key _ first h)
  ]

  add_keys-Each :
      (spans : HashMap KeySpans) (keys : List Text) → Each P spans → Each P (add_keys n spans keys)
  unfolding add_keys
  add_keys-Each spans [] h = h
  add_keys-Each spans (key ∷ keys) h =
      add_keys-Each (add_key n spans key) keys (add_key-Each spans key h)

  add_pools-Each :
      (spans : HashMap KeySpans) (keys : List (List Text))
      → Each P spans
      → Each P (add_pools n spans keys)
  unfolding add_pools
  add_pools-Each spans [] h = h
  add_pools-Each spans (pool ∷ keys) h =
      add_pools-Each (add_keys n spans pool) keys (add_keys-Each spans pool h)

  pub new-Each : (keys : List (List Text)) → Each P (new n keys).spans
  unfolding new
  new-Each keys = add_pools-Each [] keys tt

module _ (n : ℕ) where
  new-Ready :
      (keys : List (List Text)) (acks : List Ack)
      → AreSynchronous (replicate n 0) acks
      → All (λ a. KnownKey (new n keys).spans a.update_info) acks
      → Ready (new n keys) acks
  unfolding new
  new-Ready keys acks s k = record {
    synchronous = s;
    queued = tt;
    sized =
        subst (λ m. Each (λ ks. length ks ≡ m) (add_pools n [] keys)) (sym (length-replicate n 0))
          (new-Each n (λ ks. length ks ≡ n) (length-replicate n (dummy ∷ [])) keys);
    known = k;
  }

  -- Over acknowledgements of synchronous clients whose updates are of known keys, the checker,
  -- which decides while the history grows and trims it, passes the first responses and leaves the
  -- others queued, or fails a response, each with the verdict that the check gives on the complete
  -- history; it never panics or finds a key unknown.
  pub run-offline :
      (keys : List (List Text)) (acks : List Ack)
      → AreSynchronous (replicate n 0) acks
      → All (λ a. KnownKey (new n keys).spans a.update_info) acks
      → Judged
          (complete (new n keys).spans acks)
          (entries acks)
          (run apply_update (new n keys) acks)
  unfolding new
  run-offline keys acks s k =
      Judged-Agrees _ _ (run apply_update (new n keys) acks) (run update_whole (new n keys) acks)
        (run-Agrees (new n keys) (new n keys) acks (new-Agrees n keys) s)
        (run-Judged (new n keys) acks (new-Ready keys acks s k))
