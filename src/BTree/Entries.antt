-- ===== src/BTree/Entries.antt =====
-- What holds of every entry of a map.
use madkv.Prelude.{◌∷◌, [], none, some, Option, All, Bool-cases, inl, inr, if◌then◌else◌, ◌&&◌}
use madkv.Text.{Text, text_eq, text_lt, text_le}
use madkv.BTree.{BTree, get, insert, remove, range}

module _ {V : Type 0} (P : Text × V → Type 0) where
  pub insert-All :
      (m : BTree V) (key : Text) (value : V) → All P m → P (key, value) → All P (insert m key value)
  unfolding insert
  insert-All [] key value h p = (p, tt)
  insert-All ((k, v) ∷ m) key value h p = elim (Bool-cases (text_eq k key)) [
    | inl e ↦ rw (insert, e, if◌then◌else◌) (p, h.1)
    | inr e ↦ elim (Bool-cases (text_lt key k)) [
      | inl f ↦ rw (insert, e, f, if◌then◌else◌) (p, h)
      | inr f ↦ rw (insert, e, f, if◌then◌else◌) (h.0, insert-All m key value h.1 p)
    ]
  ]

  pub remove-All : (m : BTree V) (key : Text) → All P m → All P (remove m key)
  unfolding remove
  remove-All [] key h = tt
  remove-All ((k, v) ∷ m) key h = elim (Bool-cases (text_eq k key)) [
    | inl e ↦ rw (remove, e, if◌then◌else◌) (remove-All m key h.1)
    | inr e ↦ rw (remove, e, if◌then◌else◌) (h.0, remove-All m key h.1)
  ]

  pub range-All : (m : BTree V) (start end : Text) → All P m → All P (range m start end)
  unfolding range
  range-All [] start end h = tt
  range-All ((k, v) ∷ m) start end h = elim (Bool-cases (text_le start k && text_lt k end)) [
    | inl e ↦ rw (range, e, if◌then◌else◌) (h.0, range-All m start end h.1)
    | inr e ↦ rw (range, e, if◌then◌else◌) (range-All m start end h.1)
  ]

module _ {V : Type 0} (Q : V → Type 0) where
  -- Of a value, if there is one.
  abbrev pub OfSome : Option V → Type 0
  OfSome none = Unit
  OfSome (some v) = Q v

  pub get-OfSome : (m : BTree V) (key : Text) → All (λ e. Q e.1) m → OfSome (get m key)
  unfolding get
  get-OfSome [] key h = tt
  get-OfSome ((k, v) ∷ m) key h = elim (Bool-cases (text_eq k key)) [
    | inl e ↦ rw (get, e, if◌then◌else◌) h.0
    | inr e ↦ rw (get, e, if◌then◌else◌) (get-OfSome m key h.1)
  ]
