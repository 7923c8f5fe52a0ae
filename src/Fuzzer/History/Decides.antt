-- ===== src/Fuzzer/History/Decides.antt =====
-- Every run of the reference checker over synchronous clients and known keys is judged by the
-- complete history.
use madkv.Prelude.{
  ℕ, ◌≤◌, ◌<◌, ◌≡◌, sym, ◌∙◌, subst, List, [], ◌∷◌, ◌++◌, Option, none, some, arith, All, All-map,
  length, set, length-set, map, append_assoc, append-nil, ltb, if◌then◌else◌, Bool-cases, inl, inr,
}
use madkv.Prelude.Any.{All-append}
use madkv.Prelude.Results.{done}
use madkv.Text.{Text}
use madkv.Runner.Resp.{KvResp}
use madkv.HashMap
use madkv.HashMap.{HashMap, Each, insert-Each, get-Each}
use madkv.Fuzzer.History.Spans.{QueuedSpan, KeySpans, History, min_or}
use madkv.Fuzzer.History.Check.{check_call}
use madkv.Fuzzer.History.Update.{push_span, pop_checkable, add_to_queue}
use madkv.Fuzzer.History.Whole.{
  Updated, Ack, update_whole, unless_failed, acknowledge, run, AreSynchronous,
}
use madkv.Fuzzer.History.Complete.{
  entry_of, span_of, push_ack, push_update, complete, check_call-complete,
}
use madkv.Fuzzer.History.Online.{
  Judged, Judged-Popped, KnownKey, insert-KnownKey, Ready, length-push_span, update_whole_lem,
  pop_checkable-Popped,
}

pop_checkable-All :
    (P : QueuedSpan → Type 0) (spans : HashMap KeySpans) (mc : ℕ) (queue : List QueuedSpan)
    → All P queue
    → All P (pop_checkable spans mc queue).1
unfolding pop_checkable
pop_checkable-All P spans mc [] h = tt
pop_checkable-All P spans mc (e ∷ queue) h = elim (Bool-cases (ltb e.ts_resp mc)) [
  | inr k ↦ rw (k, if◌then◌else◌) h
  | inl k ↦ elim (Bool-cases (check_call spans e)) [
    | inl c ↦ rw (k, if◌then◌else◌, c, if◌then◌else◌) (pop_checkable-All P spans mc queue h.1)
    | inr c ↦ rw (k, if◌then◌else◌, c, if◌then◌else◌) h.1
  ]
]

abbrev pub entries : List Ack → List QueuedSpan
entries acks = map entry_of acks

-- What `acknowledge` does with the update of a call.
abbrev update_with : History → Ack → Option (Text × Option Text) → Updated
update_with h a o = elim o [
  | none ↦ done (none, h)
  | some (key, value) ↦ update_whole h a.cidx a.ts_call a.ts_resp key value
]

abbrev pub maxtr_with : List ℕ → Ack → Option (Text × Option Text) → List ℕ
maxtr_with maxtr a o = elim o [ none ↦ maxtr | some u ↦ set maxtr a.cidx a.ts_resp ]

module _ (h : History) (a : Ack) (acks : List Ack) (room : a.cidx < length h.maxtr)
    (queued : All (λ e. e.ts_call ≤ e.ts_resp) h.queue)
    (sized : Each (λ ks. length ks ≡ length h.maxtr) h.spans)
    (known : All (λ b. KnownKey h.spans b.update_info) acks)
    (rec : (h' : History)
      → Ready h' acks
      → Judged (complete h'.spans acks) (h'.queue ++ entries acks) (run update_whole h' acks)) where
  -- A call without an update.
  judge_read :
      AreSynchronous h.maxtr acks
      → Judged (complete h.spans acks) (h.queue ++ entries acks) (run update_whole h acks)
  judge_read s = rec h (record { synchronous = s; queued = queued; sized = sized; known = known })

  module _ (key : Text) (value : Option Text) (ks : KeySpans)
      (found : HashMap.get h.spans key ≡ some ks)
      (s : AreSynchronous (set h.maxtr a.cidx a.ts_resp) acks) where
    abbrev maxtr' : List ℕ
    maxtr' = set h.maxtr a.cidx a.ts_resp

    abbrev spans' : HashMap KeySpans
    spans' = HashMap.insert h.spans key (push_span ks a.cidx (span_of a value))

    abbrev popped : Option KvResp × List QueuedSpan
    popped = pop_checkable spans' (min_or 0 maxtr') h.queue

    abbrev h' : History
    h' = record { queue = popped.1; spans = spans'; maxtr = maxtr' }

    long : length ks ≡ length h.maxtr
    long = get-Each (λ ks. length ks ≡ length h.maxtr) h.spans key ks found sized

    after : Ready h' acks
    after = record {
      synchronous = s;
      queued =
          pop_checkable-All (λ e. e.ts_call ≤ e.ts_resp) spans' (min_or 0 maxtr') h.queue queued;
      sized =
          subst (λ n. Each (λ ks. length ks ≡ n) spans') (sym (length-set h.maxtr a.cidx a.ts_resp))
            (insert-Each (λ ks. length ks ≡ length h.maxtr) h.spans key _
              (length-push_span ks a.cidx (span_of a value) ∙ long) sized);
      known =
          All-map
            (λ b. insert-KnownKey h.spans key (push_span ks a.cidx (span_of a value)) b.update_info)
            acks known;
    }

    -- An update of a known key.
    judge_update : Judged (complete spans' acks) (h.queue ++ entries acks) (
        unless_failed
          (update_whole h a.cidx a.ts_call a.ts_resp key value)
          (λ h'. run update_whole h' acks))
    judge_update =
        rw
          (update_whole_lem h ks a.cidx a.ts_call a.ts_resp key value found
            (omega (arith, long, room)) room)
          (Judged-Popped (complete spans' acks) h.queue (entries acks) popped.0 popped.1 h'
            (λ h'. run update_whole h' acks)
            (pop_checkable-Popped spans' (complete spans' acks) (min_or 0 maxtr') h.queue (
              All-map (λ e is_span old. check_call-complete e is_span spans' maxtr' acks s old)
                h.queue queued))
            (rec h' after))

  judge :
      (o : Option (Text × Option Text))
      → KnownKey h.spans o
      → AreSynchronous (maxtr_with h.maxtr a o) acks
      → Judged
          (complete (push_update h.spans a o) acks)
          (h.queue ++ entries acks)
          (unless_failed (update_with h a o) (λ h'. run update_whole h' acks))
  unfolding unless_failed
  judge none k s = judge_read s
  judge (some (key, value)) (ks, found) s = rw found (judge_update key value ks found s)

pub run-Judged :
    (h : History) (acks : List Ack)
    → Ready h acks
    → Judged (complete h.spans acks) (h.queue ++ entries acks) (run update_whole h acks)
unfolding run complete acknowledge push_ack add_to_queue
run-Judged h [] r = ([], append-nil h.queue, tt)
run-Judged h (a ∷ acks) r =
    subst (λ q. Judged (complete (push_ack h.spans a) acks) q (run update_whole h (a ∷ acks)))
      (append_assoc h.queue (entry_of a ∷ []) (entries acks))
      (judge (add_to_queue h a.ts_call a.ts_resp a.resp) a acks r.synchronous.0
        (All-append (λ e. e.ts_call ≤ e.ts_resp) h.queue (entry_of a ∷ []) r.queued
          (r.synchronous.1, tt))
        r.sized r.known.1 (λ h'. run-Judged h' acks) a.update_info r.known.0 r.synchronous.3)
