-- ===== src/Fuzzer/KnownKeys.antt =====
-- The calls of the fuzz tester update keys of the drawing client's pool only.
use madkv.Prelude.{
  ℕ, zero, suc, ◌≡◌, refl, arith, Bool, true, Option, none, some, List, [], ◌∷◌, get_elem?, length,
  All,
}
use madkv.Prelude.Results.{Ensures}
use madkv.Text.{Text}
use madkv.Runner.Call
use madkv.Runner.Call.{update_info}
use madkv.Fuzzer.Outside.{Rng}
use madkv.Fuzzer.Random

-- The key of an update passes a test.
abbrev pub updates_known : (Text → Bool) → Option (Text × Option Text) → Bool
updates_known known none = true
updates_known known (some (key, value)) = known key

abbrev known_or_none : (Text → Bool) → Option Text → Bool
known_or_none known none = true
known_or_none known (some key) = known key

known_elem :
    (known : Text → Bool) (keys : List Text) (i : ℕ)
    → All (λ key. known key ≡ true) keys
    → known_or_none known (get_elem? keys i) ≡ true
known_elem known [] i h = refl
known_elem known (key ∷ keys) zero h = h.0
known_elem known (key ∷ keys) (suc i) h = known_elem known keys i h.1

module _ (rand : Rng) (known : Text → Bool) where
  abbrev Made : Call.KvCall × Random.Stats × rand.State → Type 0
  Made (call, stats, rng) = updates_known known (update_info call) ≡ true

  module _ (keys : List Text) (pool : All (λ key. known key ≡ true) keys) (stats : Random.Stats)
      (cidx : ℕ) (rng : rand.State) where
    drawn : known_or_none known (get_elem? keys (rand.random_range rng (length keys)).0) ≡ true
    drawn = known_elem known keys (rand.random_range rng (length keys)).0 pool

    gen_put-Made : Ensures Made (Random.gen_put rand keys stats cidx rng)
    unfolding Random.gen_put update_info
    gen_put-Made = ground (arith, drawn)

    gen_swap-Made : Ensures Made (Random.gen_swap rand keys stats cidx rng)
    unfolding Random.gen_swap update_info
    gen_swap-Made = ground (arith, drawn)

    gen_get-Made : Ensures Made (Random.gen_get rand keys stats cidx rng)
    unfolding Random.gen_get update_info
    gen_get-Made = ground arith

    gen_scan-Made : Ensures Made (Random.gen_scan rand keys stats cidx rng)
    unfolding Random.gen_scan Random.ordered_scan update_info
    gen_scan-Made = ground arith

    gen_delete-Made : Ensures Made (Random.gen_delete rand keys stats cidx rng)
    unfolding Random.gen_delete update_info
    gen_delete-Made = ground (arith, drawn)

  pub gen_rand_kvcall-known :
      (keys : List Text) (stats : Random.Stats) (cidx : ℕ) (rng : rand.State)
      → All (λ key. known key ≡ true) keys
      → Ensures Made (Random.gen_rand_kvcall rand keys stats cidx rng)
  unfolding Random.gen_rand_kvcall
  gen_rand_kvcall-known keys stats cidx rng pool =
      let rng' = (rand.random_range rng 10).1 in
      ground (
        arith,
        gen_put-Made keys pool stats cidx rng',
        gen_swap-Made keys pool stats cidx rng',
        gen_get-Made keys pool stats cidx rng',
        gen_scan-Made keys pool stats cidx rng',
        gen_delete-Made keys pool stats cidx rng',
      )
