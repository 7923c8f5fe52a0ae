-- ===== src/BTree.antt =====
-- What the sources use of `std::collections::BTreeMap<String, V>`: a list of entries that `insert`
-- keeps in the order of the keys. `BTree/Laws.antt` has the laws of a map.
pub mod Laws
pub mod Sorted
pub mod Entries
use madkv.Prelude.{Bool, true, false, ◌&&◌, ◌≡◌, List, [], ◌∷◌, Option, none, some, if◌then◌else◌}
use madkv.Text.{Text, text_eq, text_lt, text_le}

abbrev pub BTree {ℓ} : Type ℓ → Type ℓ
BTree V = List (Text × V)

module _ {ℓ} {V : Type ℓ} where
  -- `map.get(&key).cloned()`
  unfoldable pub get : BTree V → Text → Option V
  get [] key = none
  get ((k, v) ∷ m) key = if text_eq k key then some v else get m key

  -- `map.contains_key(&key)`
  unfoldable pub contains_key : BTree V → Text → Bool
  contains_key [] key = false
  contains_key ((k, v) ∷ m) key = if text_eq k key then true else contains_key m key

  -- the map after `map.insert(key, value)`; the call returns `get map key`
  unfoldable pub insert : BTree V → Text → V → BTree V
  insert [] key value = (key, value) ∷ []
  insert ((k, v) ∷ m) key value =
      let rest = insert m key value in
      if text_eq k key
      then (key, value) ∷ m
      else if text_lt key k
      then (key, value) ∷ (k, v) ∷ m
      else (k, v) ∷ rest

  -- the map after `map.remove(&key)`; the call returns `get map key`
  unfoldable pub remove : BTree V → Text → BTree V
  remove [] key = []
  remove ((k, v) ∷ m) key = let rest = remove m key in if text_eq k key then rest else (k, v) ∷ rest

  -- the entries of `map.range(start..end)`, in order; the call panics where `start > end`
  unfoldable pub range : BTree V → Text → Text → BTree V
  range [] start end = []
  range ((k, v) ∷ m) start end =
      let rest = range m start end in
      if text_le start k && text_lt k end then (k, v) ∷ rest else rest
