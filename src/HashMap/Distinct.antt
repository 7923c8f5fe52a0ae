-- ===== src/HashMap/Distinct.antt =====
-- Each key of a map that `insert` has built stands in it once.
use madkv.Prelude.{◌≡◌, refl, false, ◌||◌, [], ◌∷◌, some, arith, if◌then◌else◌, All, All-zip}
use madkv.Text.{Text, text_eq}
use madkv.Text.Eq.{text_eq_iff}
use madkv.HashMap.{HashMap, get, contains_key, insert}

module _ {ℓ} {V : Type ℓ} where
  abbrev pub AreDistinct : HashMap V → Type 0
  AreDistinct [] = Unit
  AreDistinct ((k, v) ∷ m) = (contains_key m k ≡ false) × AreDistinct m

  pub contains_key-insert :
      (m : HashMap V) (key k : Text) (value : V)
      → contains_key (insert m key value) k ≡ (text_eq key k || contains_key m k)
  unfolding contains_key insert
  contains_key-insert [] key k value = ground arith
  contains_key-insert ((j, v) ∷ m) key k value = ground (
    arith,
    text_eq_iff j key,
    text_eq_iff j k,
    text_eq_iff key k,
    contains_key-insert m key k value,
  )

  pub insert-AreDistinct :
      (m : HashMap V) (key : Text) (value : V) → AreDistinct m → AreDistinct (insert m key value)
  unfolding insert contains_key
  insert-AreDistinct [] key value h = (refl, tt)
  insert-AreDistinct ((k, v) ∷ m) key value h = ground (
    arith,
    text_eq_iff k key,
    text_eq_iff key k,
    contains_key-insert m key k value,
    insert-AreDistinct m key value h.1,
  )

  apart :
      (m : HashMap V) (k : Text)
      → contains_key m k ≡ false
      → All (λ (e : Text × V). text_eq k e.0 ≡ false) m
  unfolding contains_key
  apart [] k h = tt
  apart ((j, v) ∷ m) k h =
      (ground (arith, text_eq_iff j k, text_eq_iff k j), apart m k (ground arith))

  get_behind :
      (k : Text) (v : V) (m : HashMap V) (e : Text × V)
      → text_eq k e.0 ≡ false
      → get m e.0 ≡ some e.1
      → get ((k, v) ∷ m) e.0 ≡ some e.1
  unfolding get
  get_behind k v m e other found = rw (other, if◌then◌else◌) found

  -- Every entry is found by its key.
  pub get-AreDistinct :
      (m : HashMap V) → AreDistinct m → All (λ (e : Text × V). get m e.0 ≡ some e.1) m
  unfolding get
  get-AreDistinct [] h = tt
  get-AreDistinct ((k, v) ∷ m) h = (
    ground (arith, text_eq_iff k k),
    All-zip (λ (e : Text × V) other found. get_behind k v m e other found) m (apart m k h.0)
        (get-AreDistinct m h.1),
  )
