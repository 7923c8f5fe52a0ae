-- ===== src/BTree/Laws.antt =====
-- The laws of a map: `get` and `contains_key` after `insert`, `remove`, and of `range`.
use madkv.Prelude.{◌≡◌, refl, ◌&&◌, [], ◌∷◌, none, some, arith, is_some, if◌then◌else◌}
use madkv.Text.{Text, text_eq, text_lt, text_le}
use madkv.Text.Eq.{text_eq_iff}
use madkv.BTree.{BTree, get, contains_key, insert, remove, range}

module _ {ℓ} {V : Type ℓ} where
  pub get-insert :
      (m : BTree V) (key j : Text) (value : V)
      → get (insert m key value) j ≡ (if text_eq key j then some value else get m j)
  unfolding get insert
  get-insert [] key j value = refl
  get-insert ((k, v) ∷ m) key j value =
      ground
        (arith, text_eq_iff k key, text_eq_iff k j, text_eq_iff key j, get-insert m key j value)

  pub get-remove :
      (m : BTree V) (key j : Text)
      → get (remove m key) j ≡ (if text_eq key j then none else get m j)
  unfolding get remove
  get-remove [] key j = ground arith
  get-remove ((k, v) ∷ m) key j =
      ground (arith, text_eq_iff k key, text_eq_iff k j, text_eq_iff key j, get-remove m key j)

  pub contains_key-eq-is_some :
      (m : BTree V) (key : Text) → contains_key m key ≡ is_some (get m key)
  unfolding get contains_key
  contains_key-eq-is_some [] key = refl
  contains_key-eq-is_some ((k, v) ∷ m) key = ground (arith, contains_key-eq-is_some m key)

  pub get-range :
      (m : BTree V) (start end key : Text)
      → get (range m start end) key
        ≡ (if text_le start key && text_lt key end then get m key else none)
  unfolding get range
  get-range [] start end key = ground arith
  get-range ((k, v) ∷ m) start end key =
      ground (arith, text_eq_iff k key, get-range m start end key)
