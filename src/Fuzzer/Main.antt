-- ===== src/Fuzzer/Main.antt =====
-- `main` of runner/src/bin/fuzzer/main.rs, after the arguments were parsed.
pub mod Pools
pub mod Failed
use madkv.Prelude.{
  ℕ, zero, suc, ◌+◌, ◌-◌, ◌/◌, ◌%◌, ◌==◌, ltb, List, [], ◌∷◌, ◌++◌, map, Bool, true, false, ◌||◌,
  Option, none, some, if◌then◌else◌, length, replicate,
}
use madkv.Prelude.Results.{Result, ok, err, and_then, Outcome, done, fail, spin, panic, lift, ◌>>=◌}
use madkv.Text.{Text, codes}
use madkv.Runner.Error.{RunnerError, from_io}
use madkv.Fuzzer.Outside.{Rng, BitVecs, Clients}
use madkv.Fuzzer.Random.{Stats, gen_rand_string}
use madkv.Fuzzer.History.Update.{apply_update}
use madkv.Fuzzer.Driver.{fuzz_test}

abbrev pub key_len : ℕ
key_len = 8

abbrev pub remain_thresh : ℕ
remain_thresh = 1000

pub record Args : Type 0 where
  pub num_clis : ℕ
  pub num_keys : ℕ
  pub num_ops : ℕ
  pub conflict : Bool

-- The decimal digits of a number, in front of others, in at most `fuel` of them.
unfoldable pub digits : ℕ → ℕ → Text → Text
digits zero n after = after
digits (suc fuel) n after =
    let rest = digits fuel (n / 10) ((48 + n % 10) ∷ after) in
    if n / 10 == 0 then (48 + n % 10) ∷ after else rest

-- `{:0w$}` of a `usize`, which has at most 20 digits.
unfoldable pub zero_padded : ℕ → ℕ → Text
unfolding digits
zero_padded n w = let shown = digits 20 n [] in replicate (w - length shown) 48 ++ shown

-- `format!("key{:0w$}", i, w = KEY_LEN - 3)`
unfoldable pub conflict_key : ℕ → Text
unfolding zero_padded
conflict_key i = codes "key" ++ zero_padded i (key_len - 3)

-- `Stats::new`
unfoldable pub new_stats : List (List Text) → Stats
new_stats keys = record {
  cnt_put = 0;
  cnt_swap = 0;
  cnt_get = 0;
  cnt_scan = 0;
  cnt_delete = 0;
  keys_freq = map (λ ks. replicate (length ks) 0) keys;
}

-- How the test ends: with the number of checks that remain, or not passed.
pub data Verdict : Type 0 where
  passed unfair : ℕ → Verdict
  failed : Verdict

unfoldable pub verdict_of : Option ℕ → Verdict
verdict_of none = failed
verdict_of (some remaining) =
    if ltb remaining remain_thresh then passed remaining else unfair remaining

module _ (rand : Rng) where
  open rand use {State}

  -- The keys of one client from number `i` on, `left` of them.
  unfoldable pub gen_pool : Bool → ℕ → ℕ → State → List Text × State
  unfolding conflict_key gen_rand_string
  gen_pool conflict zero i rng = ([], rng)
  gen_pool true (suc left) i rng =
      let (pool, rng') = gen_pool true left (suc i) rng in (conflict_key i ∷ pool, rng')
  gen_pool false (suc left) i rng =
      let (key, rng₁) = gen_rand_string rand rng key_len in
      let (pool, rng₂) = gen_pool false left (suc i) rng₁ in (key ∷ pool, rng₂)

  unfoldable pub gen_keys : Args → ℕ → State → List (List Text) × State
  unfolding gen_pool
  gen_keys args zero rng = ([], rng)
  gen_keys args (suc left) rng =
      let (pool, rng₁) = gen_pool args.conflict args.num_keys 0 rng in
      let (keys, rng₂) = gen_keys args left rng₁ in (pool ∷ keys, rng₂)

  module _ (bits : BitVecs) (clients : Clients) where
    -- `spawn` starts the clients. `draws` and `fuel` are those of `fuzz_test`.
    unfoldable pub main :
        Args → ℕ → ℕ → (ℕ → Result Text clients.World) → State → Outcome RunnerError Verdict
    unfolding gen_keys new_stats verdict_of
    main args draws fuel spawn rng =
        if (args.num_clis == 0)
          || ((args.num_keys == 0)
              || (if ltb args.num_keys 100000 then ltb args.num_ops 1000 else true))
        then panic
        else (do
          let (keys, rng') = gen_keys args args.num_clis rng
          world ← lift (from_io (spawn args.num_clis))
          result ←
              fuzz_test rand bits clients apply_update draws fuel args.num_ops args.num_clis keys
                (new_stats keys) rng' world
          done (verdict_of result))
