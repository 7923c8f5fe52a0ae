-- ===== src/Fuzzer/Outside.antt =====
-- What the fuzz tester uses of code that is not in the repository or runs outside the process: the
-- crates `rand` and `bit_vec`, and the client processes. Each is an interface with the documented
-- behaviour that the fuzz tester relies on.
use madkv.Prelude.{ℕ, ◌<◌, ◌≡◌, Bool, Option, some, ◌==◌, if◌then◌else◌}
use madkv.Prelude.Results.{Result}
use madkv.Text.{Text}
use madkv.Runner.Error.{RunnerError}
use madkv.Runner.Call.{KvCall}
use madkv.Runner.Resp.{KvResp}

-- `rand::rng()`: a generator with a state. A range is not empty; an index lies in its range.
pub record Rng : Type 1 where
  pub State : Type 0
  pub random_range : State → ℕ → ℕ × State
  pub random_bool : State → Bool × State
  pub sample_string : State → ℕ → Text × State
  pub random_range-lt : (s : State) (max : ℕ) → 0 < max → (random_range s max).0 < max

-- `bit_vec::BitVec`
pub record BitVecs : Type 1 where
  pub BitVec : Type 0
  pub from_elem : ℕ → Bool → BitVec
  pub len : BitVec → ℕ
  pub all : BitVec → Bool
  pub none_set : BitVec → Bool
  pub get : BitVec → ℕ → Option Bool
  pub set : BitVec → ℕ → Bool → BitVec
  pub len-from_elem : (n : ℕ) (b : Bool) → len (from_elem n b) ≡ n
  pub get-from_elem : (n i : ℕ) (b : Bool) → i < n → get (from_elem n b) i ≡ some b
  pub len-set : (v : BitVec) (i : ℕ) (b : Bool) → len (set v i b) ≡ len v
  pub get-set :
      (v : BitVec) (i j : ℕ) (b : Bool)
      → i < len v
      → get (set v i b) j ≡ (if i == j then some b else get v j)
  pub get-lt : (v : BitVec) (i : ℕ) (b : Bool) → get v i ≡ some b → i < len v

-- The client processes behind `ClientProc`, all of them in one state of the world.
pub record Clients : Type 1 where
  pub World : Type 0
  pub send_call : World → ℕ → KvCall → Result RunnerError World
  pub wait_resp : World → ℕ → Result RunnerError (KvResp × World)
  pub stop : World → ℕ → Result RunnerError World
