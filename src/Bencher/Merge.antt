-- ===== src/Bencher/Merge.antt =====
-- What the merge of the drivers' statistics computes.
use madkv.Prelude.{◌+◌, ◌%◌, ◌^◌, ◌≡◌, refl, List, [], ◌∷◌, Option, none, some, arith, All, ◌∙◌, ap}
use madkv.Text.{Text}
use madkv.Text.Eq.{text_eq_iff}
use madkv.HashMap
use madkv.HashMap.{HashMap, or_insert, get-or_insert}
use madkv.Bencher.Stats.{
  Floats, Stats, no_stats, merge_entries, add_entries, merge_map, merge, merge_drivers, merge_avg,
}

-- Two values at one key, of which either may be missing.
abbrev pub combine {ℓ} : {T : Type ℓ} → (T → T → T) → Option T → Option T → Option T
combine merge_fn none o = o
combine merge_fn (some x) none = some x
combine merge_fn (some x) (some y) = some (merge_fn x y)

-- The first value that there is.
abbrev or_else {ℓ} : {T : Type ℓ} → Option T → Option T → Option T
or_else none o = o
or_else (some x) o = some x

module _ {ℓ} {T : Type ℓ} where
  get-merge_entries :
      (merge_fn : T → T → T) (self other : HashMap T) (op : Text)
      → HashMap.get (merge_entries merge_fn self other) op ≡ elim (HashMap.get self op) [
        | none ↦ none
        | some x ↦ combine merge_fn (some x) (HashMap.get other op)
      ]
  unfolding merge_entries HashMap.get
  get-merge_entries merge_fn [] other op = refl
  get-merge_entries merge_fn ((k, x) ∷ self) other op =
      ground (arith, text_eq_iff k op, get-merge_entries merge_fn self other op)

  or_else-or_insert :
      (self other : HashMap T) (k op : Text) (y : T)
      → or_else (HashMap.get (or_insert self k y) op) (HashMap.get other op)
        ≡ or_else (HashMap.get self op) (HashMap.get ((k, y) ∷ other) op)
  unfolding HashMap.get
  or_else-or_insert self other k op y = ground (arith, get-or_insert self k op y)

  get-add_entries :
      (self other : HashMap T) (op : Text)
      → HashMap.get (add_entries self other) op
        ≡ or_else (HashMap.get self op) (HashMap.get other op)
  unfolding add_entries HashMap.get
  get-add_entries self [] op = ground arith
  get-add_entries self ((k, y) ∷ other) op =
      get-add_entries (or_insert self k y) other op ∙ or_else-or_insert self other k op y

  -- Whatever the order in which the maps are visited, the merge of two maps has at a key both
  -- values merged, the one value that there is, or none.
  pub get-merge_map :
      (self other : HashMap T) (merge_fn : T → T → T) (op : Text)
      → HashMap.get (merge_map self other merge_fn) op
        ≡ combine merge_fn (HashMap.get self op) (HashMap.get other op)
  unfolding merge_map
  get-merge_map self other merge_fn op = ground (
    arith,
    get-add_entries (merge_entries merge_fn self other) other op,
    get-merge_entries merge_fn self other op,
  )

module _ (floats : Floats) where
  open floats use {F64}

  -- The values of a map of each statistics, merged one after the other.
  abbrev pub fold_field {ℓ} :
      {T : Type ℓ}
      → (T → T → T)
      → (Stats floats → HashMap T)
      → Text
      → Option T
      → List (Stats floats)
      → Option T
  fold_field merge_fn field op o [] = o
  fold_field merge_fn field op o (other ∷ l) =
      fold_field merge_fn field op (combine merge_fn o (HashMap.get (field other) op)) l

  -- After the merge of drivers that count one client each into statistics that count one client.
  pub record Merged (self : Stats floats) (l : List (Stats floats)) (op : Text) : Type 0 where
    pub merged_one : (merge_drivers floats self l).merged ≡ 1
    pub num_ops_sum :
        HashMap.get (merge_drivers floats self l).num_ops op
        ≡ fold_field
            (λ sc oc. (sc + oc) % 2 ^ 64)
            (λ s. s.num_ops)
            op
            (HashMap.get self.num_ops op)
            l
    pub lat_avg_halves :
        HashMap.get (merge_drivers floats self l).lat_avg op
        ≡ fold_field (merge_avg floats 1 1) (λ s. s.lat_avg) op (HashMap.get self.lat_avg op) l
    pub lat_min_min :
        HashMap.get (merge_drivers floats self l).lat_min op
        ≡ fold_field floats.min (λ s. s.lat_min) op (HashMap.get self.lat_min op) l
    pub lat_max_max :
        HashMap.get (merge_drivers floats self l).lat_max op
        ≡ fold_field floats.max (λ s. s.lat_max) op (HashMap.get self.lat_max op) l

  merge_one :
      (self other : Stats floats)
      → self.merged ≡ 1
      → other.merged ≡ 1
      → merge floats self other ≡ record {
        merged = 1;
        total_ms = floats.max self.total_ms other.total_ms;
        tput_all = floats.add self.tput_all other.tput_all;
        num_ops = merge_map self.num_ops other.num_ops (λ sc oc. (sc + oc) % 2 ^ 64);
        lat_avg = merge_map self.lat_avg other.lat_avg (merge_avg floats 1 1);
        lat_min = merge_map self.lat_min other.lat_min floats.min;
        lat_max = merge_map self.lat_max other.lat_max floats.max;
        lat_p99 = merge_map self.lat_p99 other.lat_p99 floats.max;
      }
  unfolding merge
  merge_one self other h k = rw (h, k) refl

  fold_step {ℓ} :
      {T : Type ℓ} (merge_fn : T → T → T) (field : Stats floats → HashMap T)
      (self other : Stats floats) (l : List (Stats floats)) (op : Text) {o : Option T}
      → field (merge floats self other) ≡ merge_map (field self) (field other) merge_fn
      → o ≡ fold_field merge_fn field op (HashMap.get (field (merge floats self other)) op) l
      → o ≡ fold_field merge_fn field op (HashMap.get (field self) op) (other ∷ l)
  fold_step merge_fn field self other l op same e =
      rw (e, same, get-merge_map (field self) (field other) merge_fn op) refl

  merge_drivers-Merged :
      (self : Stats floats) (l : List (Stats floats)) (op : Text)
      → self.merged ≡ 1
      → All (λ s. s.merged ≡ 1) l
      → Merged self l op
  unfolding merge_drivers
  merge_drivers-Merged self [] op h k = record {
    merged_one = h;
    num_ops_sum = refl;
    lat_avg_halves = refl;
    lat_min_min = refl;
    lat_max_max = refl;
  }
  merge_drivers-Merged self (other ∷ l) op h k =
      let next = merge_one self other h k.0 in
      let r = merge_drivers-Merged (merge floats self other) l op (ap (λ s. s.merged) next) k.1 in
      record {
        merged_one = r.merged_one;
        num_ops_sum =
            fold_step (λ sc oc. (sc + oc) % 2 ^ 64) (λ s. s.num_ops) self other l op
              (ap (λ s. s.num_ops) next) r.num_ops_sum;
        lat_avg_halves =
            fold_step (merge_avg floats 1 1) (λ s. s.lat_avg) self other l op
              (ap (λ s. s.lat_avg) next) r.lat_avg_halves;
        lat_min_min =
            fold_step floats.min (λ s. s.lat_min) self other l op (ap (λ s. s.lat_min) next)
              r.lat_min_min;
        lat_max_max =
            fold_step floats.max (λ s. s.lat_max) self other l op (ap (λ s. s.lat_max) next)
              r.lat_max_max;
      }

  -- The statistics of drivers that count one client each are merged to: the sums of the
  -- operations, the minima of the minima, the maxima of the maxima, and, for the average latency,
  -- the mean of what was merged before and the next client's alone, since the count of merged
  -- clients stays at one.
  pub merge_drivers-running :
      (first : Stats floats) (l : List (Stats floats)) (op : Text)
      → first.merged ≡ 1
      → All (λ s. s.merged ≡ 1) l
      → (merge_drivers floats (no_stats floats) (first ∷ l) ≡ merge_drivers floats first l)
        × Merged first l op
  unfolding merge_drivers merge
  merge_drivers-running first l op h k = (refl, merge_drivers-Merged first l op h k)
