-- ===== src/Fuzzer/History/Agrees.antt =====
-- When the trimming checker and the reference checker are in step.
use madkv.Prelude.{
  ℕ, ◌≤◌, ◌≡◌, refl, subst, List, [], ◌∷◌, ◌⊎◌, inl, inr, some, arith, All, if◌then◌else◌,
  Bool-cases, ltb,
}
use madkv.Prelude.Any.{Any}
use madkv.Prelude.Results.{done, panic}
use madkv.Text.{Text, text_eq}
use madkv.HashMap
use madkv.HashMap.{HashMap}
use madkv.Fuzzer.History.Spans.{QueuedSpan, KeySpans, History, min_or}
use madkv.Fuzzer.History.Check.{check_call}
use madkv.Fuzzer.History.Update.{pop_checkable}
use madkv.Fuzzer.History.Trimming.{IsSpan}
use madkv.Fuzzer.History.Same.{SameSpans, check_call-SameSpans}
use madkv.Fuzzer.History.Whole.{Updated}

-- Every span of every key.
abbrev pub AreSpans : HashMap KeySpans → Type 0
AreSpans = All (λ e. All (All IsSpan) e.1)

-- A call time that a check may still need: of a queued response, or of one to come.
abbrev pub Live : List QueuedSpan → List ℕ → ℕ → Type 0
Live queue maxtr tc = (min_or 0 maxtr ≤ tc) ⊎ Any (λ e. e.ts_call ≤ tc) queue

abbrev pub SameLive : List QueuedSpan → List ℕ → HashMap KeySpans → HashMap KeySpans → Type 0
SameLive queue maxtr a b = (tc tr : ℕ) → Live queue maxtr tc → SameSpans tc tr a b

-- The two histories differ in their spans only, and not to a check that may still come.
pub record Agrees (h w : History) : Type 0 where
  pub queue : h.queue ≡ w.queue
  pub maxtr : h.maxtr ≡ w.maxtr
  pub same : SameLive h.queue h.maxtr h.spans w.spans
  pub spans : AreSpans h.spans

abbrev pub AgreesOutcome : Updated → Updated → Type 0
AgreesOutcome (done (r, h)) (done (r', w)) = (r ≡ r') × Agrees h w
AgreesOutcome panic panic = Unit
AgreesOutcome _ _ = ⊥

-- Both pop the same responses with the same verdicts.
pub pop_checkable-same :
    (a b : HashMap KeySpans) (mc : ℕ) (queue : List QueuedSpan)
    → All (λ e. SameSpans e.ts_call e.ts_resp a b) queue
    → pop_checkable a mc queue ≡ pop_checkable b mc queue
unfolding pop_checkable
pop_checkable-same a b mc [] h = refl
pop_checkable-same a b mc (e ∷ queue) h =
    rw (check_call-SameSpans a b e h.0, pop_checkable-same a b mc queue h.1)

-- What is left of the queue was in it.
pub Any-pop_checkable :
    (P : QueuedSpan → Type 0) (a : HashMap KeySpans) (mc : ℕ) (queue : List QueuedSpan)
    → Any P (pop_checkable a mc queue).1
    → Any P queue
unfolding pop_checkable
Any-pop_checkable P a mc [] h = h
Any-pop_checkable P a mc (e ∷ queue) h = elim (Bool-cases (ltb e.ts_resp mc)) [
  | inr k ↦ rw (k, if◌then◌else◌) at h
  | inl k ↦ elim (Bool-cases (check_call a e)) [
    | inl c ↦ inr (Any-pop_checkable P a mc queue (rw (k, if◌then◌else◌, c, if◌then◌else◌) at h))
    | inr c ↦ inr (rw (k, if◌then◌else◌, c, if◌then◌else◌) at h)
  ]
]

-- What holds of every entry whose call is at or after that of a queued one holds of the queue.
pub All-of_queued :
    (P : QueuedSpan → Type 0) (queue : List QueuedSpan)
    → ((e : QueuedSpan) → Any (λ f. f.ts_call ≤ e.ts_call) queue → P e)
    → All P queue
All-of_queued P [] k = tt
All-of_queued P (e ∷ queue) k =
    (k e (inl (omega arith)), All-of_queued P queue (λ f h. k f (inr h)))

pub insert-AreSpans :
    (a : HashMap KeySpans) (key : Text) (ks : KeySpans)
    → All (All IsSpan) ks
    → AreSpans a
    → AreSpans (HashMap.insert a key ks)
unfolding HashMap.insert
insert-AreSpans [] key ks ok h = (ok, tt)
insert-AreSpans ((k, s) ∷ a) key ks ok h = elim (Bool-cases (text_eq k key)) [
  | inl e ↦ rw (e, if◌then◌else◌) (ok, h.1)
  | inr e ↦ rw (e, if◌then◌else◌) (h.0, insert-AreSpans a key ks ok h.1)
]

pub get-AreSpans :
    (a : HashMap KeySpans) (key : Text) (ks : KeySpans)
    → HashMap.get a key ≡ some ks
    → AreSpans a
    → All (All IsSpan) ks
unfolding HashMap.get
get-AreSpans [] key ks g h = cc
get-AreSpans ((k, s) ∷ a) key ks g h = elim (Bool-cases (text_eq k key)) [
  | inl e ↦ let same : s ≡ ks = ground arith in subst (All (All IsSpan)) same h.0
  | inr e ↦ get-AreSpans a key ks (rw (e, if◌then◌else◌) at g) h.1
]
