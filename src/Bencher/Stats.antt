-- ===== src/Bencher/Stats.antt =====
-- `Stats` of runner/src/bin/bencher/main.rs, over an interface for `f64`.
use madkv.Prelude.{ℕ, ◌+◌, ◌%◌, ◌^◌, ◌==◌, List, [], ◌∷◌, none, some, if◌then◌else◌}
use madkv.Prelude.Results.{Result}
use madkv.Text.{Text}
use madkv.HashMap
use madkv.HashMap.{HashMap, or_insert}

-- The type `f64`: `usize as f64`, `f64 as usize`, `str::parse`, and the arithmetic.
pub record Floats : Type 1 where
  pub F64 : Type 0
  pub zero : F64
  pub of_usize : ℕ → F64
  pub to_usize : F64 → ℕ
  pub parse : Text → Result Text F64
  pub add : F64 → F64 → F64
  pub mul : F64 → F64 → F64
  pub div : F64 → F64 → F64
  pub min : F64 → F64 → F64
  pub max : F64 → F64 → F64

-- The first loop of `merge_map`, over the entries of the map itself.
unfoldable pub merge_entries {ℓ} : {T : Type ℓ} → (T → T → T) → HashMap T → HashMap T → HashMap T
merge_entries merge_fn [] other = []
merge_entries merge_fn ((op, x) ∷ self) other = elim (HashMap.get other op) [
  | none ↦ (op, x) ∷ merge_entries merge_fn self other
  | some y ↦ (op, merge_fn x y) ∷ merge_entries merge_fn self other
]

-- The second loop, over the entries of the other map.
unfoldable pub add_entries {ℓ} : {T : Type ℓ} → HashMap T → HashMap T → HashMap T
add_entries self [] = self
add_entries self ((op, y) ∷ other) = add_entries (or_insert self op y) other

unfoldable pub merge_map {ℓ} : {T : Type ℓ} → HashMap T → HashMap T → (T → T → T) → HashMap T
unfolding merge_entries add_entries
merge_map self other merge_fn = add_entries (merge_entries merge_fn self other) other

module _ (floats : Floats) where
  open floats use {F64, of_usize, add, mul, div, min, max}

  pub record Stats : Type 0 where
    pub merged : ℕ
    pub total_ms : F64
    pub tput_all : F64
    pub num_ops : HashMap ℕ
    pub lat_avg : HashMap F64
    pub lat_min : HashMap F64
    pub lat_max : HashMap F64
    pub lat_p99 : HashMap F64

  abbrev pub no_stats : Stats
  no_stats = record {
    merged = 0;
    total_ms = floats.zero;
    tput_all = floats.zero;
    num_ops = [];
    lat_avg = [];
    lat_min = [];
    lat_max = [];
    lat_p99 = [];
  }

  -- The merge of two average latencies, with the counts of merged clients.
  unfoldable pub merge_avg : ℕ → ℕ → F64 → F64 → F64
  merge_avg self_merged other_merged sl ol =
      div (add (mul sl (of_usize self_merged)) (mul ol (of_usize other_merged)))
        (of_usize ((self_merged + other_merged) % 2 ^ 64))

  unfoldable pub merge : Stats → Stats → Stats
  unfolding merge_map merge_avg
  merge self other = if self.merged == 0 then other else record {
    merged = self.merged;
    total_ms = max self.total_ms other.total_ms;
    tput_all = add self.tput_all other.tput_all;
    num_ops = merge_map self.num_ops other.num_ops (λ sc oc. (sc + oc) % 2 ^ 64);
    lat_avg = merge_map self.lat_avg other.lat_avg (merge_avg self.merged other.merged);
    lat_min = merge_map self.lat_min other.lat_min min;
    lat_max = merge_map self.lat_max other.lat_max max;
    lat_p99 = merge_map self.lat_p99 other.lat_p99 max;
  }

  -- The merges of `ycsb_bench`, over the statistics of its drivers.
  unfoldable pub merge_drivers : Stats → List Stats → Stats
  unfolding merge
  merge_drivers stats [] = stats
  merge_drivers stats (cli_stats ∷ drivers) = merge_drivers (merge stats cli_stats) drivers
