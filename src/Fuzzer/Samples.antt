-- ===== src/Fuzzer/Samples.antt =====
-- Concrete calls, a generator, flags and clients, for the tests of the fuzz tester.
use madkv.Prelude.{
  ℕ, zero, suc, ◌%◌, ◌<◌, ◌≡◌, ◌==◌, refl, Bool, true, false, none, some, List, [], ◌∷◌, arith,
  if◌then◌else◌, length, get_elem?, set, replicate, length-set, length-replicate,
}
use madkv.Prelude.Results.{ok}
use madkv.Text.{Text, codes}
use madkv.Runner.Resp.{KvResp}
use madkv.Fuzzer.Outside.{Rng, BitVecs, Clients}
use madkv.Fuzzer.Random.{Stats}
use madkv.Fuzzer.History.Whole.{Ack}

abbrev pub a : Text
a = codes "a"

abbrev pub acks : List Ack
acks =
    record {
      cidx = 0;
      ts_call = 1;
      ts_resp = 3;
      resp = KvResp.put a false;
      update_info = some (a, some (codes "x"));
    }
    ∷ record {
      cidx = 1;
      ts_call = 2;
      ts_resp = 5;
      resp = KvResp.get a (some (codes "x"));
      update_info = none;
    }
    ∷ record {
      cidx = 1;
      ts_call = 6;
      ts_resp = 8;
      resp = KvResp.delete a true;
      update_info = some (a, none);
    }
    ∷ []

pub mod-lt : (s : ℕ) {max : ℕ} → 0 < max → s % max < max
mod-lt s h = grind arith

-- A generator that counts, flags as a list, and clients that find nothing.
abbrev pub counter : Rng
counter = record {
  State = ℕ;
  random_range = λ s max. (s % max, suc s);
  random_bool = λ s. (s % 2 == 0, suc s);
  sample_string = λ s len. (replicate len 97, suc s);
  random_range-lt = λ s max h. mod-lt s h;
}

unfoldable pub every : Bool → List Bool → Bool
every b [] = true
every true (c ∷ v) = if c then every true v else false
every false (c ∷ v) = if c then false else every false v

pub get-replicate : (n i : ℕ) (b : Bool) → i < n → get_elem? (replicate n b) i ≡ some b
get-replicate zero i b h = absurd (omega arith)
get-replicate (suc n) zero b h = refl
get-replicate (suc n) (suc i) b h = get-replicate n i b (omega arith)

pub get_elem?-set :
    (v : List Bool) (i j : ℕ) (b : Bool)
    → i < length v
    → get_elem? (set v i b) j ≡ (if i == j then some b else get_elem? v j)
get_elem?-set [] i j b h = absurd (omega arith)
get_elem?-set (c ∷ v) zero zero b h = refl
get_elem?-set (c ∷ v) zero (suc j) b h = ground arith
get_elem?-set (c ∷ v) (suc i) zero b h = ground arith
get_elem?-set (c ∷ v) (suc i) (suc j) b h = ground (arith, get_elem?-set v i j b (omega arith))

pub get_elem?-lt : (v : List Bool) (i : ℕ) (b : Bool) → get_elem? v i ≡ some b → i < length v
get_elem?-lt [] i b h = cc
get_elem?-lt (c ∷ v) zero b h = omega arith
get_elem?-lt (c ∷ v) (suc i) b h = omega (arith, get_elem?-lt v i b h)

abbrev pub flags : BitVecs
flags = record {
  BitVec = List Bool;
  from_elem = replicate;
  len = length;
  all = every true;
  none_set = every false;
  get = get_elem?;
  set = set;
  len-from_elem = length-replicate;
  get-from_elem = get-replicate;
  len-set = length-set;
  get-set = get_elem?-set;
  get-lt = get_elem?-lt;
}

abbrev pub absent : Clients
absent = record {
  World = ℕ;
  send_call = λ w cidx call. ok (suc w);
  wait_resp = λ w cidx. ok (KvResp.get a none, suc w);
  stop = λ w cidx. ok w;
}

abbrev pub no_stats : Stats
no_stats = record {
  cnt_put = 0;
  cnt_swap = 0;
  cnt_get = 0;
  cnt_scan = 0;
  cnt_delete = 0;
  keys_freq = (0 ∷ []) ∷ [];
}
