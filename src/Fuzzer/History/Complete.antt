-- ===== src/Fuzzer/History/Complete.antt =====
-- The complete history of a run, and the verdicts on it.
use madkv.Prelude.{
  ℕ, ◌≤◌, ◌<◌, ◌≡◌, refl, ◌∙◌, List, [], ◌∷◌, Option, none, some, arith, get_elem?, set,
}
use madkv.Text.{Text}
use madkv.HashMap
use madkv.HashMap.{HashMap}
use madkv.Fuzzer.History.Spans.{UpdateSpan, QueuedSpan, KeySpans, min_or}
use madkv.Fuzzer.History.Check.{check_call}
use madkv.Fuzzer.History.Update.{push_span}
use madkv.Fuzzer.History.Minimum.{AtMost, AtMost-trans, min_or-le, min_or-set}
use madkv.Fuzzer.History.Stable.{check_call-late_update}
use madkv.Fuzzer.History.Whole.{Ack, maxtr_after, AreSynchronous}

-- The response as it is queued.
abbrev pub entry_of : Ack → QueuedSpan
entry_of a = record { ts_call = a.ts_call; ts_resp = a.ts_resp; resp = a.resp }

abbrev pub span_of : Ack → Option Text → UpdateSpan
span_of a value = record { ts_call = a.ts_call; ts_resp = a.ts_resp; value = value }

-- `push_span` for a known key; an unknown one is left out.
abbrev pub push_known :
    HashMap KeySpans → Text → ℕ → UpdateSpan → Option KeySpans → HashMap KeySpans
push_known spans key cidx span none = spans
push_known spans key cidx span (some ks) = HashMap.insert spans key (push_span ks cidx span)

-- The spans with the update of one acknowledgement, if it has one.
abbrev pub push_update : HashMap KeySpans → Ack → Option (Text × Option Text) → HashMap KeySpans
push_update spans a none = spans
push_update spans a (some (key, value)) =
    push_known spans key a.cidx (span_of a value) (HashMap.get spans key)

unfoldable pub push_ack : HashMap KeySpans → Ack → HashMap KeySpans
push_ack spans a = push_update spans a a.update_info

-- The spans with all updates.
unfoldable pub complete : HashMap KeySpans → List Ack → HashMap KeySpans
complete spans [] = spans
complete spans (a ∷ acks) = complete (push_ack spans a) acks

module _ (e : QueuedSpan) (is_span : e.ts_call ≤ e.ts_resp) where
  check_call-push_known :
      (spans : HashMap KeySpans) (key : Text) (cidx : ℕ) (span : UpdateSpan) (o : Option KeySpans)
      → HashMap.get spans key ≡ o
      → e.ts_resp ≤ span.ts_call
      → span.ts_call ≤ span.ts_resp
      → check_call (push_known spans key cidx span o) e ≡ check_call spans e
  check_call-push_known spans key cidx span none g h k = refl
  check_call-push_known spans key cidx span (some ks) g h k =
      check_call-late_update spans key ks cidx span e g h (omega arith)

  check_call-push_update :
      (spans : HashMap KeySpans) (a : Ack) (o : Option (Text × Option Text))
      → e.ts_resp ≤ a.ts_call
      → a.ts_call ≤ a.ts_resp
      → check_call (push_update spans a o) e ≡ check_call spans e
  check_call-push_update spans a none h k = refl
  check_call-push_update spans a (some (key, value)) h k =
      check_call-push_known spans key a.cidx (span_of a value) (HashMap.get spans key) refl h k

  min-maxtr_after :
      (maxtr : List ℕ) (cidx ts_call ts_resp : ℕ) (o : Option (Text × Option Text))
      → AtMost (get_elem? maxtr cidx) ts_call
      → ts_call ≤ ts_resp
      → min_or 0 maxtr ≤ min_or 0 (elim o [ none ↦ maxtr | some u ↦ set maxtr cidx ts_resp ])
  min-maxtr_after maxtr cidx ts_call ts_resp none h k = omega arith
  min-maxtr_after maxtr cidx ts_call ts_resp (some u) h k =
      min_or-set 0 cidx ts_resp maxtr (AtMost-trans (get_elem? maxtr cidx) ts_call ts_resp h k)

  -- What synchronous clients acknowledge later changes no verdict on a response that came before
  -- the last update of each of them.
  pub check_call-complete :
      (spans : HashMap KeySpans) (maxtr : List ℕ) (acks : List Ack)
      → AreSynchronous maxtr acks
      → e.ts_resp < min_or 0 maxtr
      → check_call (complete spans acks) e ≡ check_call spans e
  unfolding complete push_ack
  check_call-complete spans maxtr [] s h = refl
  check_call-complete spans maxtr (a ∷ acks) s h =
      check_call-complete (push_ack spans a) (maxtr_after maxtr a) acks s.3
        (omega (arith, min-maxtr_after maxtr a.cidx a.ts_call a.ts_resp a.update_info s.2 s.1))
      ∙ check_call-push_update spans a a.update_info
          (omega (arith, min_or-le 0 a.cidx a.ts_call maxtr s.0 s.2)) s.1
