-- ===== src/BTreeSet.antt =====
-- What the sources use of `std::collections::BTreeSet<String>`: a sorted map to nothing.
use madkv.Prelude.{List, [], ◌∷◌, if◌then◌else◌}
use madkv.Text.{Text, text_le}
use madkv.BTree.{BTree}

abbrev pub BTreeSet : Type 0
BTreeSet = BTree Unit

-- `set.range(start..)`, in order
unfoldable pub range_from : BTreeSet → Text → List Text
range_from [] start = []
range_from ((k, v) ∷ set) start =
    let rest = range_from set start in if text_le start k then k ∷ rest else rest

-- `set.last()`, of a set that has the key `k` and the keys after it
unfoldable pub last_key : Text → BTreeSet → Text
last_key k [] = k
last_key k ((next, v) ∷ set) = last_key next set

-- The keys of a map, as a set.
unfoldable pub key_set {ℓ} : {V : Type ℓ} → BTree V → BTreeSet
key_set [] = []
key_set ((k, v) ∷ m) = (k, tt) ∷ key_set m
