-- ===== src/BTree/Sorted.antt =====
-- The entries stay in the order of their keys, each key once.
use madkv.Prelude.{◌≡◌, true, ◌∷◌, [], arith}
use madkv.Text.{Text, text_lt}
use madkv.Text.Eq.{text_eq_iff}
use madkv.Text.Order.{text_lt_trans, text_lt_total}
use madkv.BTree.{BTree, insert, remove, range}

module _ {ℓ} {V : Type ℓ} where
  -- Every key is above a given one.
  abbrev pub Above : Text → BTree V → Type 0
  Above key [] = Unit
  Above key ((k, v) ∷ m) = (text_lt key k ≡ true) × Above key m

  abbrev pub IsSorted : BTree V → Type 0
  IsSorted [] = Unit
  IsSorted ((k, v) ∷ m) = Above k m × IsSorted m

  Above-lower : (j k : Text) (m : BTree V) → text_lt j k ≡ true → Above k m → Above j m
  Above-lower j k [] h a = tt
  Above-lower j k ((i, v) ∷ m) h a = (text_lt_trans j k i h a.0, Above-lower j k m h a.1)

  insert-Above :
      (j : Text) (m : BTree V) (key : Text) (value : V)
      → text_lt j key ≡ true
      → Above j m
      → Above j (insert m key value)
  unfolding insert
  insert-Above j [] key value h a = (h, tt)
  insert-Above j ((k, v) ∷ m) key value h a = ground (arith, insert-Above j m key value)

  pub insert-IsSorted :
      (m : BTree V) (key : Text) (value : V) → IsSorted m → IsSorted (insert m key value)
  unfolding insert
  insert-IsSorted [] key value s = (tt, tt)
  insert-IsSorted ((k, v) ∷ m) key value s = ground (
    arith,
    text_eq_iff k key,
    text_lt_total k key,
    Above-lower key k m,
    insert-Above k m key value,
    insert-IsSorted m key value,
  )

  remove-Above : (j : Text) (m : BTree V) (key : Text) → Above j m → Above j (remove m key)
  unfolding remove
  remove-Above j [] key a = tt
  remove-Above j ((k, v) ∷ m) key a = ground (arith, remove-Above j m key)

  pub remove-IsSorted : (m : BTree V) (key : Text) → IsSorted m → IsSorted (remove m key)
  unfolding remove
  remove-IsSorted [] key s = tt
  remove-IsSorted ((k, v) ∷ m) key s = ground (arith, remove-Above k m key, remove-IsSorted m key)

  range-Above :
      (j : Text) (m : BTree V) (start end : Text) → Above j m → Above j (range m start end)
  unfolding range
  range-Above j [] start end a = tt
  range-Above j ((k, v) ∷ m) start end a = ground (arith, range-Above j m start end)

  pub range-IsSorted : (m : BTree V) (start end : Text) → IsSorted m → IsSorted (range m start end)
  unfolding range
  range-IsSorted [] start end s = tt
  range-IsSorted ((k, v) ∷ m) start end s =
      ground (arith, range-Above k m start end, range-IsSorted m start end)
