-- ===== src/Prelude/Any.antt =====
-- A predicate that holds of some element, and `All` and `Any` on appended and reversed lists.
use mathlib.Core.Path.{◌≡◌, sym, subst, ap}
use mathlib.Core.Logic.{◌⊎◌, inl, inr}
use mathlib.Core.List.{List, [], ◌∷◌, ◌++◌, reverse, reverse-cons}
use madkv.Prelude.Lists.{All}

abbrev pub Any {ℓ} : {A : Type ℓ} → (A → Type 0) → List A → Type 0
Any P [] = ⊥
Any P (x ∷ xs) = P x ⊎ Any P xs

module _ {A : Type 0} (P : A → Type 0) where
  pub All-append : (xs ys : List A) → All P xs → All P ys → All P (xs ++ ys)
  All-append [] ys h k = k
  All-append (x ∷ xs) ys h k = (h.0, All-append xs ys h.1 k)

  pub All-reverse : (xs : List A) → All P xs → All P (reverse xs)
  All-reverse [] h = h
  All-reverse (x ∷ xs) h =
      subst (All P) (sym (reverse-cons x xs))
        (All-append (reverse xs) (x ∷ []) (All-reverse xs h.1) (h.0, tt))

  pub Any-split : (xs ys : List A) → Any P (xs ++ ys) → Any P xs ⊎ Any P ys
  Any-split [] ys h = inr h
  Any-split (x ∷ xs) ys (inl p) = inl (inl p)
  Any-split (x ∷ xs) ys (inr h) = elim (Any-split xs ys h) [ inl q ↦ inl (inr q) | inr q ↦ inr q ]

  pub Any-append_left : (xs ys : List A) → Any P xs → Any P (xs ++ ys)
  Any-append_left [] ys h = absurd h
  Any-append_left (x ∷ xs) ys (inl p) = inl p
  Any-append_left (x ∷ xs) ys (inr h) = inr (Any-append_left xs ys h)

  pub Any-append_right : (xs ys : List A) → Any P ys → Any P (xs ++ ys)
  Any-append_right [] ys h = h
  Any-append_right (x ∷ xs) ys h = inr (Any-append_right xs ys h)

  pub Any-reverse : (xs : List A) → Any P xs → Any P (reverse xs)
  Any-reverse [] h = h
  Any-reverse (x ∷ xs) (inl p) =
      subst (Any P) (sym (reverse-cons x xs)) (Any-append_right (reverse xs) (x ∷ []) (inl p))
  Any-reverse (x ∷ xs) (inr h) =
      subst (Any P) (sym (reverse-cons x xs))
        (Any-append_left (reverse xs) (x ∷ []) (Any-reverse xs h))

  pub Any-of_reverse : (xs : List A) → Any P (reverse xs) → Any P xs
  Any-of_reverse [] h = h
  Any-of_reverse (x ∷ xs) h =
      elim (Any-split (reverse xs) (x ∷ []) (subst (Any P) (reverse-cons x xs) h)) [
        | inl q ↦ inr (Any-of_reverse xs q)
        | inr (inl p) ↦ inl p
        | inr (inr e) ↦ absurd e
      ]

  pub All-left : (xs ys : List A) → All P (xs ++ ys) → All P xs
  All-left [] ys h = tt
  All-left (x ∷ xs) ys h = (h.0, All-left xs ys h.1)

  pub All-right : (xs ys : List A) → All P (xs ++ ys) → All P ys
  All-right [] ys h = h
  All-right (x ∷ xs) ys h = All-right xs ys h.1

  -- What holds of every element holds of one of them.
  pub All-at : (xs : List A) (a : A) → All P xs → Any (λ x. x ≡ a) xs → P a
  All-at [] a h k = absurd k
  All-at (x ∷ xs) a h (inl e) = subst P e h.0
  All-at (x ∷ xs) a h (inr k) = All-at xs a h.1 k

-- The elements before and after one of them.
pub split_at :
    {A : Type 0} (xs : List A) (a : A)
    → Any (λ x. x ≡ a) xs
    → (before after : List A) × (xs ≡ before ++ (a ∷ after))
split_at [] a h = absurd h
split_at (x ∷ xs) a (inl e) = ([], xs, ap (λ y. y ∷ xs) e)
split_at (x ∷ xs) a (inr h) =
    let (before, after, e) = split_at xs a h in (x ∷ before, after, ap (λ l. x ∷ l) e)
