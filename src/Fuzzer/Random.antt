-- ===== src/Fuzzer/Random.antt =====
-- runner/src/bin/fuzzer/random.rs: the random choices.
use madkv.Prelude.{
  ℕ, zero, suc, ◌+◌, ◌%◌, ◌^◌, ◌==◌, leb, Bool, true, false, ◌||◌, none, some, List, if◌then◌else◌,
  get_elem?, set, length,
}
use madkv.Prelude.Results.{Outcome, done, spin, panic, ◌>>=◌}
use madkv.Text.{Text, text_lt}
use madkv.Runner.Error.{RunnerError}
use madkv.Runner.Call.{KvCall, put, swap, get, scan, delete}
use madkv.Fuzzer.Outside.{Rng, BitVecs}

-- `x += 1` on `u64` and `usize`, in a release build.
unfoldable pub inc : ℕ → ℕ
inc x = (x + 1) % 2 ^ 64

abbrev pub value_len : ℕ
value_len = 16

-- `Stats` of main.rs
pub record Stats : Type 0 where
  pub cnt_put : ℕ
  pub cnt_swap : ℕ
  pub cnt_get : ℕ
  pub cnt_scan : ℕ
  pub cnt_delete : ℕ
  pub keys_freq : List (List ℕ)

-- Indexing: out of range it panics.
abbrev pub at {ℓ} : {A : Type ℓ} → List A → ℕ → Outcome RunnerError A
at xs i = elim (get_elem? xs i) [ none ↦ panic | some x ↦ done x ]

-- `stats.keys_freq[cidx][kidx] += 1`
unfoldable pub count_key : Stats → ℕ → ℕ → Outcome RunnerError Stats
unfolding inc
count_key stats cidx kidx = do
  freq ← at stats.keys_freq cidx
  n ← at freq kidx
  done (record stats { keys_freq = set stats.keys_freq cidx (set freq kidx (inc n)) })

-- `==` on Booleans
abbrev pub same_bit : Bool → Bool → Bool
same_bit true b = b
same_bit false true = false
same_bit false false = true

module _ (rand : Rng) where
  open rand use {State, random_range, random_bool, sample_string}

  -- `random_range(0..max)` panics on an empty range.
  unfoldable pub gen_rand_index : State → ℕ → Outcome RunnerError (ℕ × State)
  gen_rand_index rng max = if max == 0 then panic else done (random_range rng max)

  unfoldable pub gen_rand_string : State → ℕ → Text × State
  gen_rand_string rng len = sample_string rng len

  module _ (bits : BitVecs) where
    open bits use {BitVec, all, none_set, len}

    unfoldable pub gen_call_vs_wait : State → ℕ → ℕ → BitVec → Bool × State
    gen_call_vs_wait rng ops_called num_ops flying =
        if (ops_called == num_ops) || all flying
        then (false, rng)
        else if none_set flying
        then (true, rng)
        else random_bool rng

    -- The loop of `gen_rand_client`: `spin` if no draw of the fuel has the wanted status.
    unfoldable pub gen_rand_client : ℕ → State → BitVec → Bool → Outcome RunnerError (ℕ × State)
    unfolding gen_rand_index
    gen_rand_client zero rng flying want_flying = spin
    gen_rand_client (suc fuel) rng flying want_flying = do
      (cidx, rng') ← gen_rand_index rng (len flying)
      let again = gen_rand_client fuel rng' flying want_flying
      elim (bits.get flying cidx) [
        | none ↦ panic
        | some b ↦ if same_bit b want_flying then done (cidx, rng') else again
      ]

  -- A key of the pool, counted in the statistics.
  pick_key : List Text → State → Outcome RunnerError (ℕ × Text × State)
  unfolding gen_rand_index
  pick_key keys rng = do
    (kidx, rng') ← gen_rand_index rng (length keys)
    key ← at keys kidx
    done (kidx, key, rng')

  abbrev pub Generated : Type 0
  Generated = Outcome RunnerError (KvCall × Stats × State)

  unfoldable pub gen_put : List Text → Stats → ℕ → State → Generated
  unfolding pick_key count_key gen_rand_string inc
  gen_put keys stats cidx rng = do
    (kidx, key, rng') ← pick_key keys rng
    stats' ← count_key (record stats { cnt_put = inc stats.cnt_put }) cidx kidx
    let made = gen_rand_string rng' value_len
    done (put key made.0, stats', made.1)

  unfoldable pub gen_swap : List Text → Stats → ℕ → State → Generated
  unfolding pick_key count_key gen_rand_string inc
  gen_swap keys stats cidx rng = do
    (kidx, key, rng') ← pick_key keys rng
    stats' ← count_key (record stats { cnt_swap = inc stats.cnt_swap }) cidx kidx
    let made = gen_rand_string rng' value_len
    done (swap key made.0, stats', made.1)

  unfoldable pub gen_get : List Text → Stats → ℕ → State → Generated
  unfolding pick_key count_key inc
  gen_get keys stats cidx rng = do
    (kidx, key, rng') ← pick_key keys rng
    stats' ← count_key (record stats { cnt_get = inc stats.cnt_get }) cidx kidx
    done (get key, stats', rng')

  -- `mem::swap` if the end is before the start
  unfoldable pub ordered_scan : Text → Text → KvCall
  ordered_scan key_start key_end =
      if text_lt key_end key_start then scan key_end key_start else scan key_start key_end

  unfoldable pub gen_scan : List Text → Stats → ℕ → State → Generated
  unfolding gen_rand_index count_key ordered_scan inc
  gen_scan keys stats cidx rng = do
    (ksidx, rng₁) ← gen_rand_index rng (length keys)
    (keidx, rng₂) ← gen_rand_index rng₁ (length keys)
    key_start ← at keys ksidx
    key_end ← at keys keidx
    stats₁ ← count_key (record stats { cnt_scan = inc stats.cnt_scan }) cidx ksidx
    stats₂ ← count_key stats₁ cidx keidx
    done (ordered_scan key_start key_end, stats₂, rng₂)

  unfoldable pub gen_delete : List Text → Stats → ℕ → State → Generated
  unfolding pick_key count_key inc
  gen_delete keys stats cidx rng = do
    (kidx, key, rng') ← pick_key keys rng
    stats' ← count_key (record stats { cnt_delete = inc stats.cnt_delete }) cidx kidx
    done (delete key, stats', rng')

  unfoldable pub gen_rand_kvcall : List Text → Stats → ℕ → State → Generated
  unfolding gen_rand_index gen_put gen_swap gen_get gen_scan gen_delete
  gen_rand_kvcall keys stats cidx rng = do
    (choice, rng') ← gen_rand_index rng 10
    if leb choice 1
        then gen_put keys stats cidx rng'
        else if leb choice 3
        then gen_swap keys stats cidx rng'
        else if leb choice 6
        then gen_get keys stats cidx rng'
        else if leb choice 8
        then gen_scan keys stats cidx rng'
        else if choice == 9
        then gen_delete keys stats cidx rng'
        else panic
