-- ===== src/Fuzzer/Main/Pools.antt =====
-- The pools of keys that the fuzz tester generates.
use madkv.Prelude.{
  ℕ, zero, suc, ◌+◌, ◌-◌, ◌/◌, ◌%◌, ◌^◌, ◌==◌, ==_iff, ◌<◌, ◌≤◌, ◌≡◌, refl, List, [], ◌∷◌, Bool,
  true, false, if◌then◌else◌, Bool-cases, inl, inr, arith, length, length-append, length-replicate,
  replicate, All, ap,
}
use madkv.Text.{Text}
use madkv.Fuzzer.Outside.{Rng}
use madkv.Fuzzer.Random.{gen_rand_string}
use madkv.Fuzzer.Main.{Args, key_len, digits, zero_padded, conflict_key, gen_pool, gen_keys}

length-digits :
    (fuel k n : ℕ) (after : Text)
    → n < 10 ^ suc k
    → length (digits fuel n after) ≤ suc k + length after
unfolding digits
length-digits zero k n after h = omega arith
length-digits (suc fuel) zero n after h =
    let small : n / 10 ≡ 0 = omega arith in
    rw ((==_iff (n / 10) 0).1 small, if◌then◌else◌) (omega arith)
length-digits (suc fuel) (suc k) n after h = elim (Bool-cases (n / 10 == 0)) [
  | inl e ↦ rw (e, if◌then◌else◌) (omega arith)
  | inr e ↦
      rw (e, if◌then◌else◌)
        (omega (arith, length-digits fuel k (n / 10) ((48 + n % 10) ∷ after) (omega arith)))
]

-- Padded to a width that its digits fit in, a number has that width.
length-zero_padded : (n k : ℕ) → n < 10 ^ suc k → length (zero_padded n (suc k)) ≡ suc k
unfolding zero_padded
length-zero_padded n k h = omega (
  arith,
  length-digits 20 k n [] h,
  length-append (replicate (suc k - length (digits 20 n [])) 48) (digits 20 n []),
  length-replicate {A = ℕ} (suc k - length (digits 20 n [])) 48,
)

length-conflict_key : (i : ℕ) → i < 100000 → length (conflict_key i) ≡ key_len
unfolding conflict_key
length-conflict_key i h = omega (arith, length-zero_padded i 4 h)

-- A pool of the right size, with keys of the right length.
abbrev pub IsPool : ℕ → List Text → Type 0
IsPool size pool = (length pool ≡ size) × All (λ key. length key ≡ key_len) pool

module _ (rand : Rng)
    (sample_len : (s : rand.State) (len : ℕ) → length (rand.sample_string s len).0 ≡ len) where
  gen_pool-IsPool :
      (conflict : Bool) (left i : ℕ) (rng : rand.State)
      → i + left ≤ 100000
      → IsPool left (gen_pool rand conflict left i rng).0
  unfolding gen_pool gen_rand_string
  gen_pool-IsPool true zero i rng h = (refl, tt)
  gen_pool-IsPool false zero i rng h = (refl, tt)
  gen_pool-IsPool true (suc left) i rng h =
      let rest = gen_pool-IsPool true left (suc i) rng (omega arith) in
      (ap suc rest.0, (length-conflict_key i (omega arith), rest.1))
  gen_pool-IsPool false (suc left) i rng h =
      let rest =
        gen_pool-IsPool false left (suc i) (rand.sample_string rng key_len).1 (omega arith) in
      (ap suc rest.0, (sample_len rng key_len, rest.1))

  -- If a sampled string has the length that was asked for, and there are less than 100000 keys for
  -- each client, the fuzz tester generates one pool for each client, each of the number of keys
  -- that was asked for, and every key, random or numbered, is of the same length of 8 characters.
  pub gen_keys-pools :
      (args : Args) (left : ℕ) (rng : rand.State)
      → args.num_keys < 100000
      → (length (gen_keys rand args left rng).0 ≡ left)
        × All (IsPool args.num_keys) (gen_keys rand args left rng).0
  unfolding gen_keys
  gen_keys-pools args zero rng h = (refl, tt)
  gen_keys-pools args (suc left) rng h =
      let rng' = (gen_pool rand args.conflict args.num_keys 0 rng).1 in
      let rest = gen_keys-pools args left rng' h in
      (ap suc rest.0, (gen_pool-IsPool args.conflict args.num_keys 0 rng (omega arith), rest.1))
