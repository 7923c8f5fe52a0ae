-- ===== src/Fuzzer/History/Runs.antt =====
-- The trimming checker and the reference checker, from an empty history, over the same
-- acknowledgements.
use madkv.Prelude.{
  ℕ, zero, suc, ◌≤◌, ◌<◌, ◌≡◌, refl, sym, ap, subst, List, [], ◌∷◌, ◌++◌, inl, inr, Option, none,
  some, arith, All, length, get_elem?, replicate, if◌then◌else◌, Bool-cases, Option-cases,
}
use madkv.Prelude.Any.{Any-split}
use madkv.Prelude.Results.{Outcome, done, fail, spin, panic}
use madkv.Text.{Text}
use madkv.Runner.Error.{RunnerError}
use madkv.Runner.Resp.{KvResp}
use madkv.HashMap
use madkv.HashMap.{HashMap}
use madkv.Fuzzer.History.Spans.{QueuedSpan, KeySpans, History, min_or}
use madkv.Fuzzer.History.Update.{
  dummy, apply_update, add_to_queue, queue_len, new, add_key, add_pools, add_keys,
}
use madkv.Fuzzer.History.Trimming.{IsSpan}
use madkv.Fuzzer.History.Minimum.{AtMost, AtMost-trans, min_or-le}
use madkv.Fuzzer.History.Stable.{SameSpans-refl}
use madkv.Fuzzer.History.Whole.{
  Updated, Ack, update_whole, unless_failed, acknowledge, run, maxtr_after, AreSynchronous,
}
use madkv.Fuzzer.History.Agrees.{AreSpans, Live, Agrees, AgreesOutcome, insert-AreSpans}
use madkv.Fuzzer.History.Refinement.{update-Agrees, maxtr-apply_update}

-- A response that was called at or after the least last update does not make more calls live.
Live-queued :
    (queue : List QueuedSpan) (maxtr : List ℕ) (e : QueuedSpan) (tc : ℕ)
    → min_or 0 maxtr ≤ e.ts_call
    → Live (queue ++ e ∷ []) maxtr tc
    → Live queue maxtr tc
Live-queued queue maxtr e tc h (inl k) = inl k
Live-queued queue maxtr e tc h (inr k) = elim (Any-split (λ f. f.ts_call ≤ tc) queue (e ∷ []) k) [
  | inl q ↦ inr q
  | inr (inl q) ↦ inl (omega arith)
  | inr (inr q) ↦ absurd q
]

module _ (h w : History) (v : Agrees h w) (a : Ack) (room : a.cidx < length h.maxtr)
    (is_span : a.ts_call ≤ a.ts_resp) (later : AtMost (get_elem? h.maxtr a.cidx) a.ts_call) where
  entry : QueuedSpan
  entry = record { ts_call = a.ts_call; ts_resp = a.ts_resp; resp = a.resp }

  abbrev h₁ : History
  h₁ = add_to_queue h a.ts_call a.ts_resp a.resp

  abbrev w₁ : History
  w₁ = add_to_queue w a.ts_call a.ts_resp a.resp

  queued-Agrees : Agrees h₁ w₁
  unfolding add_to_queue entry
  queued-Agrees = record {
    queue = ap (λ q. q ++ entry ∷ []) v.queue;
    maxtr = v.maxtr;
    same = λ tc tr live. v.same tc tr (
        Live-queued h.queue h.maxtr entry tc (min_or-le 0 a.cidx a.ts_call h.maxtr room later)
          live);
    spans = v.spans;
  }

  maxtr₁ : h₁.maxtr ≡ h.maxtr
  unfolding add_to_queue
  maxtr₁ = refl

  later₁ : AtMost (get_elem? h₁.maxtr a.cidx) a.ts_resp
  unfolding add_to_queue
  later₁ = AtMost-trans (get_elem? h.maxtr a.cidx) a.ts_call a.ts_resp later is_span

  pub acknowledge-Agrees :
      AgreesOutcome (acknowledge apply_update h a) (acknowledge update_whole w a)
  unfolding acknowledge
  acknowledge-Agrees = elim (Option-cases a.update_info) [
    | inl e ↦ rw (e, acknowledge) (refl, queued-Agrees)
    | inr (u, e) ↦
        rw (e, acknowledge)
          (update-Agrees h₁ w₁ queued-Agrees a.cidx a.ts_call a.ts_resp u.0 u.1 is_span later₁)
  ]

  pub maxtr-acknowledge :
      (h' : History)
      → acknowledge apply_update h a ≡ done (none, h')
      → h'.maxtr ≡ maxtr_after h.maxtr a
  unfolding acknowledge add_to_queue
  maxtr-acknowledge h' e = elim (Option-cases a.update_info) [
    | inl i ↦ ground arith
    | inr (u, i) ↦ ground (arith, maxtr-apply_update h₁ a.cidx a.ts_call a.ts_resp u.0 u.1 h')
  ]

unless_failed-Agrees :
    (x y : Updated) (next next_whole : History → Updated)
    → AgreesOutcome x y
    → ((h w : History) → x ≡ done (none, h) → Agrees h w → AgreesOutcome (next h) (next_whole w))
    → AgreesOutcome (unless_failed x next) (unless_failed y next_whole)
unfolding unless_failed
unless_failed-Agrees (done (none, h)) (done (none, w)) f g k rec = rec h w refl k.1
unless_failed-Agrees (done (some r, h)) (done (some r', w)) f g k rec = k
unless_failed-Agrees (done (none, h)) (done (some r', w)) f g k rec = cc k.0
unless_failed-Agrees (done (some r, h)) (done (none, w)) f g k rec = cc k.0
unless_failed-Agrees panic panic f g k rec = tt
unless_failed-Agrees _ _ f g k rec = absurd k

-- From histories in step, synchronous acknowledgements keep the checkers in step to the end.
pub run-Agrees :
    (h w : History) (acks : List Ack)
    → Agrees h w
    → AreSynchronous h.maxtr acks
    → AgreesOutcome (run apply_update h acks) (run update_whole w acks)
unfolding run
run-Agrees h w [] v s = (refl, v)
run-Agrees h w (a ∷ acks) v s =
    unless_failed-Agrees (acknowledge apply_update h a) (acknowledge update_whole w a) _ _
      (acknowledge-Agrees h w v a s.0 s.1 s.2)
      (λ h' w' e v'.
        run-Agrees h' w' acks v' (
          subst (λ m. AreSynchronous m acks) (sym (maxtr-acknowledge h w v a s.0 s.1 s.2 h' e))
            s.3))

replicate-IsSpan : (n : ℕ) → All (All IsSpan) (replicate n (dummy ∷ []))
replicate-IsSpan zero = tt
replicate-IsSpan (suc n) = ((omega arith, tt), replicate-IsSpan n)

add_key-AreSpans :
    (n : ℕ) (spans : HashMap KeySpans) (key : Text)
    → AreSpans spans
    → AreSpans (add_key n spans key)
unfolding add_key
add_key-AreSpans n spans key h = elim (Bool-cases (HashMap.contains_key spans key)) [
  | inl e ↦ rw (e, if◌then◌else◌) h
  | inr e ↦ rw (e, if◌then◌else◌) (insert-AreSpans spans key _ (replicate-IsSpan n) h)
]

add_keys-AreSpans :
    (n : ℕ) (spans : HashMap KeySpans) (keys : List Text)
    → AreSpans spans
    → AreSpans (add_keys n spans keys)
unfolding add_keys
add_keys-AreSpans n spans [] h = h
add_keys-AreSpans n spans (key ∷ keys) h =
    add_keys-AreSpans n (add_key n spans key) keys (add_key-AreSpans n spans key h)

add_pools-AreSpans :
    (n : ℕ) (spans : HashMap KeySpans) (keys : List (List Text))
    → AreSpans spans
    → AreSpans (add_pools n spans keys)
unfolding add_pools
add_pools-AreSpans n spans [] h = h
add_pools-AreSpans n spans (pool ∷ keys) h =
    add_pools-AreSpans n (add_keys n spans pool) keys (add_keys-AreSpans n spans pool h)

pub new-Agrees : (n : ℕ) (keys : List (List Text)) → Agrees (new n keys) (new n keys)
unfolding new
new-Agrees n keys = record {
  queue = refl;
  maxtr = refl;
  same = λ tc tr live. SameSpans-refl tc tr (add_pools n [] keys);
  spans = add_pools-AreSpans n [] keys tt;
}

-- What a run returns, without the history after it.
abbrev pub result_of : Updated → Outcome RunnerError (Option (Option KvResp) × ℕ)
result_of (done (r, h)) = done (r, queue_len h)
result_of (fail e) = fail e
result_of spin = spin
result_of panic = panic

result_of-Agrees : (x y : Updated) → AgreesOutcome x y → result_of x ≡ result_of y
unfolding queue_len
result_of-Agrees (done (r, h)) (done (r', w)) k =
    ground (arith, k.0, ap (λ (q : List QueuedSpan). length q) k.1.queue)
result_of-Agrees panic panic k = refl
result_of-Agrees _ _ k = absurd k

-- Over the acknowledgements of synchronous clients, the checker that trims its history returns
-- what the checker that keeps every update returns: no failure, the same failed response, or an
-- unknown key, with as many responses left in the queue.
pub run-apply_update-whole :
    (n : ℕ) (keys : List (List Text)) (acks : List Ack)
    → AreSynchronous (replicate n 0) acks
    → result_of (run apply_update (new n keys) acks)
      ≡ result_of (run update_whole (new n keys) acks)
unfolding new
run-apply_update-whole n keys acks s =
    result_of-Agrees _ _ (run-Agrees (new n keys) (new n keys) acks (new-Agrees n keys) s)
