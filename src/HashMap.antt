-- ===== src/HashMap.antt =====
-- What the sources use of `std::collections::HashMap<String, V>`, as an association list. Rust
-- leaves the order of iteration open; the fuzz tester combines what it visits by conjunction, and
-- the bencher merges key by key.
pub mod Distinct
use madkv.Prelude.{
  ◌≡◌, refl, Bool, true, false, List, [], ◌∷◌, Option, none, some, arith, if◌then◌else◌,
  Option-cases, Bool-cases, inl, inr, All, subst,
}
use madkv.Text.{Text, text_eq}
use madkv.Text.Eq.{text_eq_iff}

abbrev pub HashMap {ℓ} : Type ℓ → Type ℓ
HashMap V = List (Text × V)

module _ {ℓ} {V : Type ℓ} where
  -- `map.get(&key)`
  unfoldable pub get : HashMap V → Text → Option V
  get [] key = none
  get ((k, v) ∷ m) key = if text_eq k key then some v else get m key

  -- `map.contains_key(&key)`
  unfoldable pub contains_key : HashMap V → Text → Bool
  contains_key [] key = false
  contains_key ((k, v) ∷ m) key = if text_eq k key then true else contains_key m key

  -- the map after `map.insert(key, value)`, or after a write through `map.get_mut(&key)`
  unfoldable pub insert : HashMap V → Text → V → HashMap V
  insert [] key value = (key, value) ∷ []
  insert ((k, v) ∷ m) key value =
      if text_eq k key then (k, value) ∷ m else (k, v) ∷ insert m key value

  pub get-insert :
      (m : HashMap V) (key j : Text) (value : V)
      → get (insert m key value) j ≡ (if text_eq key j then some value else get m j)
  unfolding get insert
  get-insert [] key j value = refl
  get-insert ((k, v) ∷ m) key j value =
      ground
        (arith, text_eq_iff k key, text_eq_iff k j, text_eq_iff key j, get-insert m key j value)

  -- the map after `map.entry(key).or_insert(value)`
  unfoldable pub or_insert : HashMap V → Text → V → HashMap V
  unfolding get insert
  or_insert m key value = elim (get m key) [ none ↦ insert m key value | some v ↦ m ]

  pub get-or_insert :
      (m : HashMap V) (key j : Text) (value : V)
      → get (or_insert m key value) j
        ≡ elim (get m j) [ none ↦ if text_eq key j then some value else none | some v ↦ some v ]
  unfolding or_insert
  get-or_insert m key j value = elim (Option-cases (get m key)) [
    | inl e ↦ rw (or_insert, e) (ground (arith, e, get-insert m key j value, text_eq_iff key j))
    | inr (v, e) ↦ rw (or_insert, e) (ground (arith, e, text_eq_iff key j))
  ]

  -- Every value satisfies `P`.
  abbrev pub Each {κ} : (V → Type κ) → HashMap V → Type κ
  Each P m = All (λ (e : Text × V). P e.1) m

  pub insert-Each {κ} :
      (P : V → Type κ) (m : HashMap V) (key : Text) (value : V)
      → P value
      → Each P m
      → Each P (insert m key value)
  unfolding insert
  insert-Each P [] key value p h = (p, tt)
  insert-Each P ((k, v) ∷ m) key value p h = elim (Bool-cases (text_eq k key)) [
    | inl e ↦ rw (e, if◌then◌else◌) (p, h.1)
    | inr e ↦ rw (e, if◌then◌else◌) (h.0, insert-Each P m key value p h.1)
  ]

  pub get-Each {κ} :
      (P : V → Type κ) (m : HashMap V) (key : Text) (value : V)
      → get m key ≡ some value
      → Each P m
      → P value
  unfolding get
  get-Each P [] key value g h = cc
  get-Each P ((k, v) ∷ m) key value g h = elim (Bool-cases (text_eq k key)) [
    | inl e ↦ subst P (ground arith) h.0
    | inr e ↦ get-Each P m key value (rw (e, if◌then◌else◌) at g) h.1
  ]

  pub get-contains_key :
      (m : HashMap V) (key : Text) → contains_key m key ≡ true → (v : V) × (get m key ≡ some v)
  unfolding get contains_key
  get-contains_key [] key h = cc
  get-contains_key ((k, v) ∷ m) key h = elim (Bool-cases (text_eq k key)) [
    | inl e ↦ (v, rw (e, if◌then◌else◌) refl)
    | inr e ↦ rw (e, if◌then◌else◌) (get-contains_key m key (rw (e, if◌then◌else◌) at h))
  ]
