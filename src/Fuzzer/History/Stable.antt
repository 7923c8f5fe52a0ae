-- ===== src/Fuzzer/History/Stable.antt =====
-- A pushed span, and how `push_span` and `trim_key` act on what searches see.
use madkv.Prelude.{
  ℕ, zero, suc, ◌≤◌, ◌≡◌, refl, ap, ◌∙◌, [], ◌∷◌, ◌++◌, ◌⊎◌, inl, inr, arith, All, if◌then◌else◌,
  length, some, subst, Bool-cases,
}
use mathlib.Core.List.{reverse-append}
use madkv.Text.{Text, text_eq}
use madkv.HashMap
use madkv.HashMap.{HashMap}
use madkv.Prelude.Any.{All-append}
use madkv.Fuzzer.History.Spans.{
  UpdateSpan, ClientSpans, KeySpans, search_back, trim_client, trim_key, drop_stale, QueuedSpan,
}
use madkv.Fuzzer.History.Check.{check_call}
use madkv.Fuzzer.History.Update.{push_span}
use madkv.Fuzzer.History.Trimming.{IsSpan, search_client-trim_client}
use madkv.Fuzzer.History.Same.{SameClient, SameKey, SameSpans, check_call-SameSpans}

SameClient-push :
    (tc tr : ℕ) (l l' : ClientSpans) (s : UpdateSpan)
    → SameClient tc tr l l'
    → SameClient tc tr (l ++ s ∷ []) (l' ++ s ∷ [])
unfolding search_back
SameClient-push tc tr l l' s h =
    λ matches. rw (reverse-append l (s ∷ []), reverse-append l' (s ∷ []), h matches)

pub SameKey-push :
    (tc tr : ℕ) (a b : KeySpans) (cidx : ℕ) (s : UpdateSpan)
    → SameKey tc tr a b
    → SameKey tc tr (push_span a cidx s) (push_span b cidx s)
unfolding push_span
SameKey-push tc tr [] [] cidx s h = tt
SameKey-push tc tr [] (l' ∷ b) cidx s h = absurd h
SameKey-push tc tr (l ∷ a) [] cidx s h = absurd h
SameKey-push tc tr (l ∷ a) (l' ∷ b) zero s h = (SameClient-push tc tr l l' s h.0, h.1)
SameKey-push tc tr (l ∷ a) (l' ∷ b) (suc cidx) s h = (h.0, SameKey-push tc tr a b cidx s h.1)

pub SameKey-trim :
    (mc mq tc tr : ℕ) (a b : KeySpans)
    → All (All IsSpan) a
    → (mc ≤ tc) ⊎ (mq ≤ tc)
    → SameKey tc tr a b
    → SameKey tc tr (trim_key mc mq a) b
unfolding trim_key
SameKey-trim mc mq tc tr [] [] ok c h = tt
SameKey-trim mc mq tc tr [] (l' ∷ b) ok c h = absurd h
SameKey-trim mc mq tc tr (l ∷ a) [] ok c h = absurd h
SameKey-trim mc mq tc tr (l ∷ a) (l' ∷ b) ok c h = (
  λ matches. search_client-trim_client matches mc mq tc tr l ok.0 c ∙ h.0 matches,
  SameKey-trim mc mq tc tr a b ok.1 c h.1,
)

pub length-SameKey : (tc tr : ℕ) (a b : KeySpans) → SameKey tc tr a b → length a ≡ length b
length-SameKey tc tr [] [] h = refl
length-SameKey tc tr [] (l' ∷ b) h = absurd h
length-SameKey tc tr (l ∷ a) [] h = absurd h
length-SameKey tc tr (l ∷ a) (l' ∷ b) h = ap suc (length-SameKey tc tr a b h.1)

pub push_span-IsSpan :
    (ks : KeySpans) (cidx : ℕ) (s : UpdateSpan)
    → IsSpan s
    → All (All IsSpan) ks
    → All (All IsSpan) (push_span ks cidx s)
unfolding push_span
push_span-IsSpan [] cidx s h ok = tt
push_span-IsSpan (l ∷ ks) zero s h ok = (All-append IsSpan l (s ∷ []) ok.0 (h, tt), ok.1)
push_span-IsSpan (l ∷ ks) (suc cidx) s h ok = (ok.0, push_span-IsSpan ks cidx s h ok.1)

drop_stale-IsSpan : (k : ℕ) (l : ClientSpans) → All IsSpan l → All IsSpan (drop_stale k l)
unfolding drop_stale
drop_stale-IsSpan k [] h = h
drop_stale-IsSpan k (s ∷ []) h = h
drop_stale-IsSpan k (s ∷ t ∷ l) h = ground (arith, drop_stale-IsSpan k (t ∷ l) h.1)

pub trim_key-IsSpan :
    (mc mq : ℕ) (ks : KeySpans) → All (All IsSpan) ks → All (All IsSpan) (trim_key mc mq ks)
unfolding trim_key trim_client
trim_key-IsSpan mc mq [] ok = tt
trim_key-IsSpan mc mq (l ∷ ks) ok = (drop_stale-IsSpan _ l ok.0, trim_key-IsSpan mc mq ks ok.1)

-- A span that begins no earlier than a response came and ends no earlier than its call is passed
-- over by the search.
SameClient-late :
    (tc tr : ℕ) (l : ClientSpans) (s : UpdateSpan)
    → tr ≤ s.ts_call
    → tc ≤ s.ts_resp
    → SameClient tc tr (l ++ s ∷ []) l
unfolding search_back
SameClient-late tc tr l s h k = λ matches. rw (reverse-append l (s ∷ [])) (ground arith)

SameClient-refl : (tc tr : ℕ) (l : ClientSpans) → SameClient tc tr l l
SameClient-refl tc tr l = λ matches. refl

pub SameKey-refl : (tc tr : ℕ) (ks : KeySpans) → SameKey tc tr ks ks
SameKey-refl tc tr [] = tt
SameKey-refl tc tr (l ∷ ks) = (SameClient-refl tc tr l, SameKey-refl tc tr ks)

pub SameSpans-refl : (tc tr : ℕ) (a : HashMap KeySpans) → SameSpans tc tr a a
SameSpans-refl tc tr [] = tt
SameSpans-refl tc tr ((k, s) ∷ a) = (refl, SameKey-refl tc tr s, SameSpans-refl tc tr a)

SameKey-late :
    (tc tr : ℕ) (ks : KeySpans) (cidx : ℕ) (s : UpdateSpan)
    → tr ≤ s.ts_call
    → tc ≤ s.ts_resp
    → SameKey tc tr (push_span ks cidx s) ks
unfolding push_span
SameKey-late tc tr [] cidx s h k = tt
SameKey-late tc tr (l ∷ ks) zero s h k = (SameClient-late tc tr l s h k, SameKey-refl tc tr ks)
SameKey-late tc tr (l ∷ ks) (suc cidx) s h k =
    (SameClient-refl tc tr l, SameKey-late tc tr ks cidx s h k)

insert-late :
    (tc tr : ℕ) (spans : HashMap KeySpans) (key : Text) (ks : KeySpans) (cidx : ℕ) (s : UpdateSpan)
    → tr ≤ s.ts_call
    → tc ≤ s.ts_resp
    → HashMap.get spans key ≡ some ks
    → SameSpans tc tr (HashMap.insert spans key (push_span ks cidx s)) spans
unfolding HashMap.get HashMap.insert
insert-late tc tr [] key ks cidx s h k g = cc
insert-late tc tr ((j, v) ∷ spans) key ks cidx s h k g = elim (Bool-cases (text_eq j key)) [
  | inl e ↦
      let same : ks ≡ v = ground arith in
      rw (e, if◌then◌else◌)
        (
          refl,
          subst (SameKey tc tr (push_span ks cidx s)) same (SameKey-late tc tr ks cidx s h k),
          SameSpans-refl tc tr spans,
        )
  | inr e ↦
      rw (e, if◌then◌else◌)
        (
          refl,
          SameKey-refl tc tr v,
          insert-late tc tr spans key ks cidx s h k (rw (e, if◌then◌else◌) at g),
        )
]

-- An update of a known key that is called no earlier than a response came, and ends no earlier
-- than that response was called, changes the verdict on no response of that kind: once all
-- updates to come are so late, the verdict is final.
pub check_call-late_update :
    (spans : HashMap KeySpans) (key : Text) (ks : KeySpans) (cidx : ℕ) (s : UpdateSpan)
    (entry : QueuedSpan)
    → HashMap.get spans key ≡ some ks
    → entry.ts_resp ≤ s.ts_call
    → entry.ts_call ≤ s.ts_resp
    → check_call (HashMap.insert spans key (push_span ks cidx s)) entry ≡ check_call spans entry
check_call-late_update spans key ks cidx s entry g h k =
    check_call-SameSpans _ _ entry
      (insert-late entry.ts_call entry.ts_resp spans key ks cidx s h k g)
