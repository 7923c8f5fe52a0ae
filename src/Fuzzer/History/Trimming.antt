-- ===== src/Fuzzer/History/Trimming.antt =====
-- Trimming is invisible: no check of a queued or later response can tell the trimmed history from
-- the whole one.
use madkv.Prelude.{
  ℕ, ◌≤◌, ◌<◌, ◌≡◌, refl, sym, ◌∙◌, Bool, true, false, [], ◌∷◌, ◌++◌, ◌⊎◌, inl, inr, Option, arith,
  ltb, All, Bool-cases, subst, if◌then◌else◌, ◌&&◌,
}
use mathlib.Core.List.{reverse, reverse-cons}
use madkv.Prelude.Any.{Any, Any-of_reverse, Any-reverse, All-reverse}
use madkv.Text.{Text}
use madkv.Fuzzer.History.Spans.{
  UpdateSpan, ClientSpans, KeySpans, search_back, search_client, search_key, find_keep, drop_stale,
  trim_client, trim_key,
}

-- A span ends no earlier than it begins.
abbrev pub IsSpan : UpdateSpan → Type 0
IsSpan s = s.ts_call ≤ s.ts_resp

-- A search for a response called at `ts_call` stops at this span, if it gets there.
abbrev Stops : ℕ → UpdateSpan → Type 0
Stops ts_call s = s.ts_resp < ts_call

-- What lies behind a span at which the search stops does not matter.
search_back-behind :
    (matches : Option Text → Bool) (ts_call ts_resp : ℕ) (l : ClientSpans) (x : UpdateSpan)
    → Any (Stops ts_call) l
    → search_back matches ts_call ts_resp (l ++ x ∷ []) ≡ search_back matches ts_call ts_resp l
unfolding search_back
search_back-behind matches ts_call ts_resp [] x h = absurd h
search_back-behind matches ts_call ts_resp (s ∷ l) x (inl h) = ground arith
search_back-behind matches ts_call ts_resp (s ∷ l) x (inr h) =
    ground (arith, search_back-behind matches ts_call ts_resp l x h)

search_client-behind :
    (matches : Option Text → Bool) (ts_call ts_resp : ℕ) (x : UpdateSpan) (l : ClientSpans)
    → Any (Stops ts_call) l
    → search_client matches ts_call ts_resp (x ∷ l) ≡ search_client matches ts_call ts_resp l
search_client-behind matches ts_call ts_resp x l h =
    rw (reverse-cons x l)
      (search_back-behind matches ts_call ts_resp (reverse l) x (Any-reverse (Stops ts_call) l h))

-- The span that `keep_ts` comes from.
abbrev Keeper : ℕ → ℕ → UpdateSpan → Type 0
Keeper keep_ts ts_call s = (keep_ts ≤ s.ts_resp) × (s.ts_resp < ts_call)

Keeper-Stops :
    (keep_ts ts_call : ℕ) (l : ClientSpans) → Any (Keeper keep_ts ts_call) l → Any (Stops ts_call) l
Keeper-Stops keep_ts ts_call [] h = h
Keeper-Stops keep_ts ts_call (s ∷ l) (inl h) = inl h.1
Keeper-Stops keep_ts ts_call (s ∷ l) (inr h) = inr (Keeper-Stops keep_ts ts_call l h)

search_client-drop_stale :
    (matches : Option Text → Bool) (keep_ts ts_call ts_resp : ℕ) (l : ClientSpans)
    → Any (Keeper keep_ts ts_call) l
    → search_client matches ts_call ts_resp (drop_stale keep_ts l)
      ≡ search_client matches ts_call ts_resp l
unfolding drop_stale
search_client-drop_stale matches keep_ts ts_call ts_resp [] h = refl
search_client-drop_stale matches keep_ts ts_call ts_resp (s ∷ []) h = refl
search_client-drop_stale matches keep_ts ts_call ts_resp (s ∷ t ∷ l) (inl h) = ground arith
search_client-drop_stale matches keep_ts ts_call ts_resp (s ∷ t ∷ l) (inr h) =
    elim (Bool-cases (ltb s.ts_resp keep_ts)) [
      | inl e ↦
          rw (e, if◌then◌else◌)
            (search_client-drop_stale matches keep_ts ts_call ts_resp (t ∷ l) h
              ∙ sym (
                  search_client-behind matches ts_call ts_resp s (t ∷ l)
                    (Keeper-Stops keep_ts ts_call (t ∷ l) h)))
      | inr e ↦ rw (e, if◌then◌else◌)
    ]

module _ (mc mq : ℕ) (s : UpdateSpan) (l : ClientSpans) where
  abbrev passed : Bool
  passed = ltb s.ts_resp mc && ltb s.ts_resp mq

  find_keep-here : passed ≡ true → find_keep mc mq (s ∷ l) ≡ s.ts_call
  unfolding find_keep
  find_keep-here e = ground arith

  find_keep-older : passed ≡ false → find_keep mc mq (s ∷ l) ≡ find_keep mc mq l
  unfolding find_keep
  find_keep-older e = ground arith

-- Nothing is dropped, or a span at which the searches stop is kept.
abbrev Keeps : ℕ → ClientSpans → ℕ → Type 0
Keeps ts_call l keep_ts = (keep_ts ≡ 0) ⊎ Any (Keeper keep_ts ts_call) l

Keeps-older :
    (ts_call keep_ts : ℕ) (s : UpdateSpan) (l : ClientSpans)
    → Keeps ts_call l keep_ts
    → Keeps ts_call (s ∷ l) keep_ts
Keeps-older ts_call keep_ts s l (inl z) = inl z
Keeps-older ts_call keep_ts s l (inr k) = inr (inr k)

find_keep-Keeps :
    (mc mq ts_call : ℕ) (l : ClientSpans)
    → All IsSpan l
    → (mc ≤ ts_call) ⊎ (mq ≤ ts_call)
    → Keeps ts_call l (find_keep mc mq l)
find_keep-Keeps mc mq ts_call [] ok h = inl (unfold find_keep in refl)
find_keep-Keeps mc mq ts_call (s ∷ l) ok h = elim (Bool-cases (passed mc mq s l)) [
  | inl e ↦
      subst (Keeps ts_call (s ∷ l)) (sym (find_keep-here mc mq s l e))
        (inr (inl (ok.0, ground arith)))
  | inr e ↦
      subst (Keeps ts_call (s ∷ l)) (sym (find_keep-older mc mq s l e))
        (Keeps-older ts_call (find_keep mc mq l) s l (find_keep-Keeps mc mq ts_call l ok.1 h))
]

drop_stale-zero : (l : ClientSpans) → drop_stale 0 l ≡ l
unfolding drop_stale
drop_stale-zero [] = refl
drop_stale-zero (s ∷ []) = refl
drop_stale-zero (s ∷ t ∷ l) = ground arith

pub search_client-trim_client :
    (matches : Option Text → Bool) (mc mq ts_call ts_resp : ℕ) (l : ClientSpans)
    → All IsSpan l
    → (mc ≤ ts_call) ⊎ (mq ≤ ts_call)
    → search_client matches ts_call ts_resp (trim_client mc mq l)
      ≡ search_client matches ts_call ts_resp l
unfolding trim_client
search_client-trim_client matches mc mq ts_call ts_resp l ok h =
    elim (find_keep-Keeps mc mq ts_call (reverse l) (All-reverse IsSpan l ok) h) [
      | inl z ↦ rw (z, drop_stale-zero)
      | inr k ↦
          search_client-drop_stale matches (find_keep mc mq (reverse l)) ts_call ts_resp l
            (Any-of_reverse (Keeper (find_keep mc mq (reverse l)) ts_call) l k)
    ]

-- Over spans that end no earlier than they begin, no search for a response that is called at or
-- after one of the two bounds sees the trimming.
pub search_key-trim_key :
    (matches : Option Text → Bool) (mc mq ts_call ts_resp : ℕ) (ks : KeySpans)
    → All (All IsSpan) ks
    → (mc ≤ ts_call) ⊎ (mq ≤ ts_call)
    → search_key matches ts_call ts_resp (trim_key mc mq ks) ≡ search_key matches ts_call ts_resp ks
unfolding search_key trim_key
search_key-trim_key matches mc mq ts_call ts_resp [] ok h = refl
search_key-trim_key matches mc mq ts_call ts_resp (l ∷ ks) ok h = rw (
  search_client-trim_client matches mc mq ts_call ts_resp l ok.0 h,
  search_key-trim_key matches mc mq ts_call ts_resp ks ok.1 h,
)
