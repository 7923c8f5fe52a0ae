-- ===== src/Fuzzer/Driver/Invariant.antt =====
-- The invariant of the loop of `fuzz_test`: the clocks agree, and every call that is on the fly
-- began after its client's last acknowledged update.
use madkv.Prelude.{
  ℕ, zero, suc, ◌+◌, ◌^◌, ◌<◌, ◌≤◌, ◌≡◌, ◌≢◌, refl, ◌==◌, ==_iff, Bool, true, false, Bool-cases,
  inl, inr, Option, none, some, List, if◌then◌else◌, arith, length, get_elem?,
}
use madkv.Prelude.Results.{Outcome, panic, Ensures, bind-Ensures_any}
use madkv.Runner.Error.{RunnerError}
use madkv.Fuzzer.Outside.{Rng, BitVecs, Clients}
use madkv.Fuzzer.Random.{inc, same_bit, gen_rand_index, gen_rand_client}
use madkv.Fuzzer.History.Minimum.{AtMost}
use madkv.Fuzzer.Driver.{Memo, Loop}

pub inc_lem : (x : ℕ) → x + 1 < 2 ^ 64 → inc x ≡ x + 1
unfolding inc
inc_lem x h = omega arith

-- The memo of a call on the fly, beside its client's last update and the time.
abbrev pub IsMemo : Option Memo → Option ℕ → ℕ → Type 0
IsMemo none last t = ⊥
IsMemo (some (ts_call, info)) last t = AtMost last ts_call × (ts_call ≤ t)

drawn-Ensures :
    {A : Type 0} (P : A → Type 0) (o : Option Bool) (want : Bool)
    (hit again : Outcome RunnerError A)
    → (o ≡ some want → Ensures P hit)
    → Ensures P again
    → Ensures P (elim o [ none ↦ panic | some b ↦ if same_bit b want then hit else again ])
drawn-Ensures P none want hit again h k = tt
drawn-Ensures P (some true) true hit again h k = h refl
drawn-Ensures P (some true) false hit again h k = k
drawn-Ensures P (some false) true hit again h k = k
drawn-Ensures P (some false) false hit again h k = h refl

module _ (rand : Rng) (bits : BitVecs) where
  -- A client that is returned has the wanted status.
  pub gen_rand_client-status :
      (draws : ℕ) (rng : rand.State) (flying : bits.BitVec) (want : Bool)
      → Ensures
          (λ c. bits.get flying c.0 ≡ some want)
          (gen_rand_client rand bits draws rng flying want)
  unfolding gen_rand_client
  gen_rand_client-status zero rng flying want = tt
  gen_rand_client-status (suc draws) rng flying want =
      bind-Ensures_any _ (gen_rand_index rand rng (bits.len flying)) _ λ c.
        drawn-Ensures _ (bits.get flying c.0) want _ _ (λ e. e)
          (gen_rand_client-status draws c.1 flying want)

module _ (rand : Rng) (bits : BitVecs) (clients : Clients) (total : ℕ) where
  abbrev Vars : Type 0
  Vars = Loop rand bits clients

  -- `n` clients, and the last acknowledged update of each.
  pub record Inv (n : ℕ) (last : List ℕ) (s : Vars) : Type 0 where
    pub flags : bits.len s.flying ≡ n
    pub memos : length s.call_memo ≡ n
    pub lasts : length last ≡ n
    pub clock : s.timestamp ≡ s.ops_called + s.ops_waited
    pub calls : s.ops_called ≤ total
    pub waits : s.ops_waited ≤ total
    pub quiet : (c : ℕ) → AtMost (get_elem? last c) s.timestamp
    pub open_call :
        (c : ℕ)
        → bits.get s.flying c ≡ some true
        → IsMemo (get_elem? s.call_memo c) (get_elem? last c) s.timestamp

pub AtMost-le : (o : Option ℕ) (t u : ℕ) → AtMost o t → t ≤ u → AtMost o u
AtMost-le none t u h k = tt
AtMost-le (some x) t u h k = omega arith

pub IsMemo-le :
    (m : Option Memo) (last : Option ℕ) (t u : ℕ) → IsMemo m last t → t ≤ u → IsMemo m last u
IsMemo-le none last t u h k = h
IsMemo-le (some (ts_call, info)) last t u h k = (h.0, omega arith)

-- Of a vector of flags in which one was set.
module _ (bits : BitVecs) (v : bits.BitVec) (i j : ℕ) (room : i < bits.len v) where
  pub get-set_true_ne :
      i ≢ j → bits.get (bits.set v i true) j ≡ some true → bits.get v j ≡ some true
  get-set_true_ne ne h = elim (Bool-cases (i == j)) [
    | inl e ↦ absurd (ne ((==_iff i j).0 e))
    | inr e ↦ (ground (arith, bits.get-set v i j true room))
  ]

  pub get-set_false :
      bits.get (bits.set v i false) j ≡ some true → (i ≢ j) × (bits.get v j ≡ some true)
  get-set_false h = elim (Bool-cases (i == j)) [
    | inl e ↦ absurd (ground (arith, bits.get-set v i j false room))
    | inr e ↦
        (λ same. ground (arith, (==_iff i j).1 same), ground (arith, bits.get-set v i j false room))
  ]
