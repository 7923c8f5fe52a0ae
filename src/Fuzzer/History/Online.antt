-- ===== src/Fuzzer/History/Online.antt =====
-- The checker, which decides while the history grows, decides as one that has the complete history.
use madkv.Prelude.{
  ℕ, zero, suc, ◌≤◌, ◌<◌, ◌≡◌, refl, sym, ap, ◌∙◌, subst, List, [], ◌∷◌, ◌++◌, inl, inr, Option,
  none, some, All, length, set, Bool-cases, true, false, ltb, if◌then◌else◌, append_assoc, lt→ltb,
  ltb→lt,
}
use madkv.Prelude.Any.{Any, Any-append_left, Any-append_right, All-append}
use madkv.Prelude.Results.{done, fail, spin, panic}
use madkv.Text.{Text, text_eq}
use madkv.Runner.Resp.{KvResp}
use madkv.HashMap
use madkv.HashMap.{HashMap, Each, get-insert, insert-Each, get-Each}
use madkv.Fuzzer.History.Spans.{UpdateSpan, QueuedSpan, KeySpans, History, min_or}
use madkv.Fuzzer.History.Check.{check_call}
use madkv.Fuzzer.History.Update.{push_span, pop_checkable, failed_check}
use madkv.Fuzzer.History.Whole.{
  Updated, Ack, update_whole, whole_known, unless_failed, AreSynchronous,
}

-- What the checker may return for the queued responses `es`, with the complete history `spans`: it
-- has passed the first of them and has the others queued, or it has failed one of them, each with
-- the verdict on the complete history.
abbrev pub Judged : HashMap KeySpans → List QueuedSpan → Updated → Type 0
Judged spans es (done (none, h)) =
    (passed : List QueuedSpan) × (es ≡ passed ++ h.queue)
    × All (λ e. check_call spans e ≡ true) passed
Judged spans es (done (some none, h)) = ⊥
Judged spans es (done (some (some resp), h)) =
    Any (λ e. (e.resp ≡ resp) × (check_call spans e ≡ false)) es
Judged spans es (fail e) = ⊥
Judged spans es spin = ⊥
Judged spans es panic = ⊥

-- The part of the queue that `pop_checkable` passes, or the response that it fails.
abbrev pub Popped : HashMap KeySpans → List QueuedSpan → Option KvResp × List QueuedSpan → Type 0
Popped spans es (none, queue) =
    (passed : List QueuedSpan) × (es ≡ passed ++ queue)
    × All (λ e. check_call spans e ≡ true) passed
Popped spans es (some resp, queue) = Any (λ e. (e.resp ≡ resp) × (check_call spans e ≡ false)) es

Popped-cons :
    (spans : HashMap KeySpans) (e : QueuedSpan) (es : List QueuedSpan) (o : Option KvResp)
    (queue : List QueuedSpan)
    → check_call spans e ≡ true
    → Popped spans es (o, queue)
    → Popped spans (e ∷ es) (o, queue)
Popped-cons spans e es none queue c p = (e ∷ p.0, ap (λ q. e ∷ q) p.1, (c, p.2))
Popped-cons spans e es (some resp) queue c p = inr p

-- `now` decides as `spans` does on what can be popped.
pub pop_checkable-Popped :
    (now spans : HashMap KeySpans) (mc : ℕ) (queue : List QueuedSpan)
    → All (λ e. e.ts_resp < mc → check_call spans e ≡ check_call now e) queue
    → Popped spans queue (pop_checkable now mc queue)
unfolding pop_checkable
pop_checkable-Popped now spans mc [] h = ([], refl, tt)
pop_checkable-Popped now spans mc (e ∷ queue) h = elim (Bool-cases (ltb e.ts_resp mc)) [
  | inr late ↦ rw (late, if◌then◌else◌) ([], refl, tt)
  | inl old ↦
      let same = h.0 (ltb→lt e.ts_resp mc old) in
      elim (Bool-cases (check_call now e)) [
        | inl pass ↦
            rw (old, if◌then◌else◌, pass, if◌then◌else◌)
              (Popped-cons spans e queue _ _ (same ∙ pass)
                (pop_checkable-Popped now spans mc queue h.1))
        | inr no_pass ↦ rw (old, if◌then◌else◌, no_pass, if◌then◌else◌) (inl (refl, same ∙ no_pass))
      ]
]

Judged-append :
    (spans : HashMap KeySpans) (passed es : List QueuedSpan) (r : Updated)
    → All (λ e. check_call spans e ≡ true) passed
    → Judged spans es r
    → Judged spans (passed ++ es) r
Judged-append spans passed es (done (none, h)) k (before, e, j) = (
  passed ++ before,
  ap (λ q. passed ++ q) e ∙ sym (append_assoc passed before h.queue),
  All-append (λ e. check_call spans e ≡ true) passed before k j,
)
Judged-append spans passed es (done (some none, h)) k j = absurd j
Judged-append spans passed es (done (some (some resp), h)) k j =
    Any-append_right (λ e. (e.resp ≡ resp) × (check_call spans e ≡ false)) passed es j
Judged-append spans passed es (fail e) k j = absurd j
Judged-append spans passed es spin k j = absurd j
Judged-append spans passed es panic k j = absurd j

-- After the pops: the responses `later` are queued behind what is left.
pub Judged-Popped :
    (spans : HashMap KeySpans) (es later : List QueuedSpan) (o : Option KvResp)
    (queue : List QueuedSpan) (h : History) (next : History → Updated)
    → Popped spans es (o, queue)
    → Judged spans (queue ++ later) (next h)
    → Judged spans (es ++ later) (unless_failed (done (failed_check o, h)) next)
unfolding unless_failed
Judged-Popped spans es later none queue h next (passed, e, k) j =
    subst (λ q. Judged spans q (next h))
      (sym (ap (λ q. q ++ later) e ∙ append_assoc passed queue later))
      (Judged-append spans passed (queue ++ later) (next h) k j)
Judged-Popped spans es later (some resp) queue h next p j =
    Any-append_left (λ e. (e.resp ≡ resp) × (check_call spans e ≡ false)) es later p

-- A key of the history, where a call has one.
abbrev pub KnownKey : HashMap KeySpans → Option (Text × Option Text) → Type 0
KnownKey spans none = Unit
KnownKey spans (some (key, value)) = (ks : KeySpans) × (HashMap.get spans key ≡ some ks)

pub insert-KnownKey :
    (spans : HashMap KeySpans) (key : Text) (ks : KeySpans) (o : Option (Text × Option Text))
    → KnownKey spans o
    → KnownKey (HashMap.insert spans key ks) o
insert-KnownKey spans key ks none h = tt
insert-KnownKey spans key ks (some (j, value)) (kt, g) = elim (Bool-cases (text_eq key j)) [
  | inl e ↦ (ks, rw (get-insert spans key j ks, e))
  | inr e ↦ (kt, rw (get-insert spans key j ks, e) g)
]

-- A history to which the acknowledgements can be made.
pub record Ready (h : History) (acks : List Ack) : Type 0 where
  pub synchronous : AreSynchronous h.maxtr acks
  pub queued : All (λ e. e.ts_call ≤ e.ts_resp) h.queue
  pub sized : Each (λ ks. length ks ≡ length h.maxtr) h.spans
  pub known : All (λ a. KnownKey h.spans a.update_info) acks

pub length-push_span :
    (ks : KeySpans) (cidx : ℕ) (s : UpdateSpan) → length (push_span ks cidx s) ≡ length ks
unfolding push_span
length-push_span [] cidx s = refl
length-push_span (l ∷ ks) zero s = refl
length-push_span (l ∷ ks) (suc cidx) s = ap suc (length-push_span ks cidx s)

pub update_whole_lem :
    (h : History) (ks : KeySpans) (cidx ts_call ts_resp : ℕ) (key : Text) (value : Option Text)
    → HashMap.get h.spans key ≡ some ks
    → cidx < length ks
    → cidx < length h.maxtr
    → let s : UpdateSpan = record { ts_call = ts_call; ts_resp = ts_resp; value = value } in
      let maxtr = set h.maxtr cidx ts_resp in
      let spans = HashMap.insert h.spans key (push_span ks cidx s) in
      let popped = pop_checkable spans (min_or 0 maxtr) h.queue in
      update_whole h cidx ts_call ts_resp key value
      ≡ done (failed_check popped.0, record { queue = popped.1; spans = spans; maxtr = maxtr })
unfolding update_whole whole_known
update_whole_lem h ks cidx ts_call ts_resp key value g low high =
    rw (update_whole, g, lt→ltb cidx (length ks) low, lt→ltb cidx (length h.maxtr) high) refl
