-- ===== src/Bencher/Phases.antt =====
-- What a whole benchmark computes from what its drivers return.
use madkv.Prelude.{
  ℕ, zero, suc, ◌≡◌, ◌==◌, refl, List, [], ◌∷◌, Bool, true, false, ◌||◌, some, if◌then◌else◌, arith,
}
use madkv.Prelude.Results.{ok, done, fail, spin, panic, Outcome}
use madkv.Text.{Text, text_eq}
use madkv.BTree.{insert, contains_key}
use madkv.BTree.Laws.{get-insert, contains_key-eq-is_some}
use madkv.BTreeSet.{BTreeSet}
use madkv.Bencher.Stats.{Floats, Stats, no_stats, merge, merge_drivers}
use madkv.Bencher.Bench.{
  is_valid_workload, ycsb_profile, extend, wait, Processes, exec, exec_all, wait_all, ycsb_bench,
  spawn_clients, phase, main,
}

pub contains_key-insert :
    (set : BTreeSet) (key j : Text)
    → contains_key (insert set key tt) j ≡ text_eq key j || contains_key set j
contains_key-insert set key j = ground (
  arith,
  contains_key-eq-is_some (insert set key tt) j,
  contains_key-eq-is_some set j,
  get-insert set key j tt,
)

-- An extended set has the keys of both.
contains_key-extend :
    (set keys : BTreeSet) (j : Text)
    → contains_key (extend set keys) j ≡ contains_key set j || contains_key keys j
unfolding extend contains_key
contains_key-extend set [] j = ground arith
contains_key-extend set ((k, v) ∷ keys) j =
    ground (arith, contains_key-extend (insert set k tt) keys j, contains_key-insert set k j)

abbrev is_done {ℓ κ} : {E : Type ℓ} {A : Type κ} → Outcome E A → Bool
is_done (done a) = true
is_done _ = false

done_of {ℓ κ} :
    {E : Type ℓ} {A : Type κ} (m : Outcome E A) → is_done m ≡ true → (a : A) × (m ≡ done a)
done_of (done a) h = (a, refl)
done_of (fail e) h = cc
done_of spin h = cc
done_of panic h = cc

profile-done : (c : ℕ) → is_valid_workload c ≡ true → is_done (ycsb_profile c) ≡ true
unfolding is_valid_workload ycsb_profile
profile-done c h = ground (arith, h)

-- A workload that `main` accepts has a profile.
pub profile_of : (c : ℕ) → is_valid_workload c ≡ true → (p : Text) × (ycsb_profile c ≡ done p)
profile_of c h = done_of (ycsb_profile c) (profile-done c h)

module _ (floats : Floats) where
  abbrev pub Returned : Type 0
  Returned = Stats floats × BTreeSet

  -- What the drivers from number `i` on return.
  abbrev pub returned : (ℕ → Returned) → ℕ → ℕ → List Returned
  returned ret zero i = []
  returned ret (suc left) i = ret i ∷ returned ret left (suc i)

  abbrev pub stats_of : List Returned → List (Stats floats)
  stats_of [] = []
  stats_of ((stats, keys) ∷ rs) = stats ∷ stats_of rs

  abbrev pub any_has : Text → List Returned → Bool
  any_has j [] = false
  any_has j ((stats, keys) ∷ rs) = contains_key keys j || any_has j rs

  abbrev pub union : BTreeSet → List Returned → BTreeSet
  union ikeys [] = ikeys
  union ikeys ((stats, keys) ∷ rs) = union (extend ikeys keys) rs

  contains_key-union :
      (ikeys : BTreeSet) (rs : List Returned) (j : Text)
      → contains_key (union ikeys rs) j ≡ contains_key ikeys j || any_has j rs
  contains_key-union ikeys [] j = ground arith
  contains_key-union ikeys ((stats, keys) ∷ rs) j =
      ground (arith, contains_key-union (extend ikeys keys) rs j, contains_key-extend ikeys keys j)

  module _ (procs : Processes floats) (workload : ℕ) (valid : is_valid_workload workload ≡ true)
      (load : Bool) (given : BTreeSet) (ret : ℕ → Returned) where
    wait_all-returned :
        (left i : ℕ) (stats : Stats floats) (ikeys : BTreeSet)
        → ((k : ℕ) → wait floats (procs.ended load k given) ≡ ok (some (ret k)))
        → wait_all floats procs workload load given left i stats ikeys
          ≡ ok (
            merge_drivers floats stats (stats_of (returned ret left i)),
            union ikeys (returned ret left i),
          )
    unfolding wait_all merge_drivers
    wait_all-returned zero i stats ikeys returns = refl
    wait_all-returned (suc left) i stats ikeys returns = rw (returns i) (
        wait_all-returned left (suc i) (merge floats stats (ret i).0) (extend ikeys (ret i).1)
          returns)

    pub exec_all-done :
        (left i : ℕ)
        → ((k : ℕ) → procs.spawned load k given ≡ ok tt)
        → exec_all floats procs workload load given left i ≡ done tt
    unfolding exec_all exec
    exec_all-done zero i spawns = refl
    exec_all-done (suc left) i spawns =
        rw ((profile_of workload valid).1, spawns i) (exec_all-done left (suc i) spawns)

    spawn_clients-ok :
        (left i : ℕ)
        → ((k : ℕ) → procs.client load k ≡ ok tt)
        → spawn_clients floats procs workload load left i ≡ ok tt
    unfolding spawn_clients
    spawn_clients-ok zero i clients = refl
    spawn_clients-ok (suc left) i clients = rw (clients i) (spawn_clients-ok left (suc i) clients)

    -- A phase of which every process starts and every driver returns.
    phase-returned :
        (num_clis : ℕ)
        → ((k : ℕ) → procs.client load k ≡ ok tt)
        → ((k : ℕ) → procs.spawned load k given ≡ ok tt)
        → ((k : ℕ) → wait floats (procs.ended load k given) ≡ ok (some (ret k)))
        → phase floats procs workload num_clis load given
          ≡ done (
            merge_drivers floats (no_stats floats) (stats_of (returned ret num_clis 0)),
            union [] (returned ret num_clis 0),
          )
    unfolding ycsb_bench
    phase-returned num_clis clients spawns returns =
        rw
          (
            spawn_clients-ok num_clis 0 clients,
            exec_all-done num_clis 0 spawns,
            wait_all-returned num_clis 0 (no_stats floats) [] returns,
          )
          refl

  -- With at least one client and a valid workload, if every process starts and every driver of
  -- both phases returns its statistics and keys, the benchmark does not panic, its result is the
  -- merge of the load phase's statistics and that of the run phase's, and the run phase is given
  -- exactly the keys that some driver of the load phase has returned.
  pub main-merged :
      (procs : Processes floats) (workload num_clis : ℕ) (loaded ran : ℕ → Returned)
      → (num_clis == 0) ≡ false
      → is_valid_workload workload ≡ true
      → ((load : Bool) (k : ℕ) → procs.client load k ≡ ok tt)
      → ((load : Bool) (k : ℕ) (given : BTreeSet) → procs.spawned load k given ≡ ok tt)
      → ((k : ℕ) → wait floats (procs.ended true k []) ≡ ok (some (loaded k)))
      → ((k : ℕ)
          → wait floats (procs.ended false k (union [] (returned loaded num_clis 0)))
            ≡ ok (some (ran k)))
      → (main floats procs workload num_clis
          ≡ done (
            merge_drivers floats (no_stats floats) (stats_of (returned loaded num_clis 0)),
            merge_drivers floats (no_stats floats) (stats_of (returned ran num_clis 0)),
          ))
        × ((j : Text)
            → contains_key (union [] (returned loaded num_clis 0)) j
              ≡ any_has j (returned loaded num_clis 0))
  unfolding main contains_key
  main-merged procs workload num_clis loaded ran some_clients valid clients spawns loads runs =
      let given = union [] (returned loaded num_clis 0) in
      (
        rw
            (
              some_clients,
              valid,
              if◌then◌else◌,
              phase-returned procs workload valid true [] loaded num_clis (clients true)
                  (λ k. spawns true k []) loads,
              phase-returned procs workload valid false given ran num_clis (clients false)
                  (λ k. spawns false k given) runs,
            )
            refl,
        λ j. contains_key-union [] (returned loaded num_clis 0) j,
      )
