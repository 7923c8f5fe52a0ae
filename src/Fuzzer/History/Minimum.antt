-- ===== src/Fuzzer/History/Minimum.antt =====
-- `min_or`: the least element of a list of timestamps.
use madkv.Prelude.{
  ℕ, zero, suc, ◌≤◌, ◌<◌, List, [], ◌∷◌, map, Option, none, some, arith, All, set, get_elem?,
  length, inl, inr,
}
use madkv.Prelude.Any.{Any}
use madkv.Fuzzer.History.Spans.{QueuedSpan, min_or}

-- The bound that an element, if there is one, obeys.
abbrev pub AtMost : Option ℕ → ℕ → Type 0
AtMost none t = Unit
AtMost (some x) t = x ≤ t

pub AtMost-trans : (o : Option ℕ) (t u : ℕ) → AtMost o t → t ≤ u → AtMost o u
AtMost-trans none t u h k = tt
AtMost-trans (some x) t u h k = omega arith

-- The minimum is at most every element.
pub min_or-le : (d i t : ℕ) (m : List ℕ) → i < length m → AtMost (get_elem? m i) t → min_or d m ≤ t
unfolding min_or
min_or-le d i t [] h k = absurd (omega arith)
min_or-le d zero t (x ∷ []) h k = k
min_or-le d zero t (x ∷ y ∷ m) h k = omega arith
min_or-le d (suc i) t (x ∷ []) h k = absurd (omega arith)
min_or-le d (suc i) t (x ∷ y ∷ m) h k = omega (arith, min_or-le d i t (y ∷ m) (omega arith) k)

le-min_or : (d n : ℕ) (x : ℕ) (m : List ℕ) → All (λ y. n ≤ y) (x ∷ m) → n ≤ min_or d (x ∷ m)
unfolding min_or
le-min_or d n x [] h = h.0
le-min_or d n x (y ∷ m) h = omega (arith, le-min_or d n y m h.1, h.0)

All-min_or : (d n : ℕ) (m : List ℕ) → n ≤ min_or d m → All (λ y. n ≤ y) m
unfolding min_or
All-min_or d n [] h = tt
All-min_or d n (x ∷ []) h = (h, tt)
All-min_or d n (x ∷ y ∷ m) h = (omega arith, All-min_or d n (y ∷ m) (omega arith))

set-All :
    (n i v : ℕ) (m : List ℕ)
    → All (λ y. n ≤ y) m
    → AtMost (get_elem? m i) v
    → All (λ y. n ≤ y) (set m i v)
set-All n i v [] h k = tt
set-All n zero v (x ∷ m) h k = (omega (arith, h.0), h.1)
set-All n (suc i) v (x ∷ m) h k = (h.0, set-All n i v m h.1 k)

-- Raising an element does not lower the minimum.
pub min_or-set :
    (d i v : ℕ) (m : List ℕ) → AtMost (get_elem? m i) v → min_or d m ≤ min_or d (set m i v)
min_or-set d i v [] k = omega arith
min_or-set d zero v (x ∷ m) k =
    le-min_or d (min_or d (x ∷ m)) v m
      (set-All _ zero v (x ∷ m) (All-min_or d _ (x ∷ m) (omega arith)) k)
min_or-set d (suc i) v (x ∷ m) k =
    le-min_or d (min_or d (x ∷ m)) x (set m i v)
      (set-All _ (suc i) v (x ∷ m) (All-min_or d _ (x ∷ m) (omega arith)) k)

-- No queued call is before the least of them.
pub min_or-queue :
    (d tc : ℕ) (q : List QueuedSpan)
    → Any (λ e. e.ts_call ≤ tc) q
    → min_or d (map (λ e. e.ts_call) q) ≤ tc
unfolding min_or
min_or-queue d tc [] h = absurd h
min_or-queue d tc (e ∷ []) (inl h) = h
min_or-queue d tc (e ∷ []) (inr h) = absurd h
min_or-queue d tc (e ∷ f ∷ q) (inl h) = omega arith
min_or-queue d tc (e ∷ f ∷ q) (inr h) = omega (arith, min_or-queue d tc (f ∷ q) h)
