-- ===== src/Fuzzer/History/Whole.antt =====
-- The reference checker, which never trims, and the runs of both over the acknowledgements that
-- `fuzz_test` hands to the checker.
use madkv.Prelude.{
  ℕ, ◌&&◌, List, [], ◌∷◌, Option, none, some, if◌then◌else◌, ltb, length, set, ◌≤◌, ◌<◌, get_elem?,
}
use madkv.Prelude.Results.{Outcome, done, fail, spin, panic}
use madkv.Text.{Text}
use madkv.Runner.Error.{RunnerError}
use madkv.Runner.Resp.{KvResp}
use madkv.HashMap
use madkv.Fuzzer.History.Spans.{UpdateSpan, KeySpans, History, min_or}
use madkv.Fuzzer.History.Minimum.{AtMost}
use madkv.Fuzzer.History.Update.{add_to_queue, push_span, pop_checkable, failed_check}

-- What an update returns, and the history after it.
abbrev pub Updated : Type 0
Updated = Outcome RunnerError (Option (Option KvResp) × History)

-- `update_known` without the trimming.
unfoldable pub whole_known : History → KeySpans → ℕ → Text → UpdateSpan → Updated
whole_known h key_spans cidx key span =
    let maxtr = set h.maxtr cidx span.ts_resp in
    let spans = HashMap.insert h.spans key (push_span key_spans cidx span) in
    let popped = pop_checkable spans (min_or 0 maxtr) h.queue in
    if ltb cidx (length key_spans) && ltb cidx (length h.maxtr)
    then done (failed_check popped.0, record { queue = popped.1; spans = spans; maxtr = maxtr })
    else panic

-- An update that keeps every span.
unfoldable pub update_whole : History → ℕ → ℕ → ℕ → Text → Option Text → Updated
unfolding whole_known
update_whole h cidx ts_call ts_resp key value = elim (HashMap.get h.spans key) [
  | none ↦ done (some none, h)
  | some key_spans ↦
      whole_known h key_spans cidx key
        (record { ts_call = ts_call; ts_resp = ts_resp; value = value })
]

-- What follows an update, if nothing failed.
unfoldable pub unless_failed : Updated → (History → Updated) → Updated
unless_failed (done (none, h)) next = next h
unless_failed (done (some failure, h)) next = done (some failure, h)
unless_failed (fail e) next = fail e
unless_failed spin next = spin
unless_failed panic next = panic

-- A response that `fuzz_test` harvested: the client, the time span, the response, and the update
-- of its call.
pub record Ack : Type 0 where
  pub cidx : ℕ
  pub ts_call : ℕ
  pub ts_resp : ℕ
  pub resp : KvResp
  pub update_info : Option (Text × Option Text)

module _ (update : History → ℕ → ℕ → ℕ → Text → Option Text → Updated) where
  -- `add_to_queue`, and `apply_update` if the call was an update.
  unfoldable pub acknowledge : History → Ack → Updated
  acknowledge h a =
      let queued = add_to_queue h a.ts_call a.ts_resp a.resp in
      elim a.update_info [
        | none ↦ done (none, queued)
        | some (key, value) ↦ update queued a.cidx a.ts_call a.ts_resp key value
      ]

  -- Until the first failure.
  unfoldable pub run : History → List Ack → Updated
  run h [] = done (none, h)
  run h (a ∷ acks) = unless_failed (acknowledge h a) λ h'. run h' acks

-- The last update of each client, after an acknowledgement.
abbrev pub maxtr_after : List ℕ → Ack → List ℕ
maxtr_after maxtr a = elim a.update_info [ none ↦ maxtr | some u ↦ set maxtr a.cidx a.ts_resp ]

-- Synchronous clients: a call is over after it began, and began after its client's last update
-- was over.
abbrev pub AreSynchronous : List ℕ → List Ack → Type 0
AreSynchronous maxtr [] = Unit
AreSynchronous maxtr (a ∷ acks) =
    (a.cidx < length maxtr)
    × (a.ts_call ≤ a.ts_resp)
    × AtMost (get_elem? maxtr a.cidx) a.ts_call
    × AreSynchronous (maxtr_after maxtr a) acks
