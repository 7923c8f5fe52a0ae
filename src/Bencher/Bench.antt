-- ===== src/Bencher/Bench.antt =====
-- `exec` and `wait` of runner/src/bin/bencher/ycsb.rs, and `ycsb_bench` and `main` of
-- runner/src/bin/bencher/main.rs, over what the client and YCSB processes do.
use madkv.Prelude.{
  ℕ, zero, suc, ◌==◌, [], ◌∷◌, Bool, true, false, ◌||◌, not, Option, none, some, if◌then◌else◌,
}
use madkv.Prelude.Results.{Result, ok, err, and_then, Outcome, done, panic, lift, ◌>>=◌}
use madkv.Text.{Text, codes}
use madkv.BTree.{insert}
use madkv.BTreeSet.{BTreeSet}
use madkv.Runner.Error.{RunnerError, io, chan, join, from_io}
use madkv.Bencher.Stats.{Floats, Stats, no_stats, merge}

-- `VALID_WORKLOADS.contains(&workload)`, the letters from `a` to `f`
unfoldable pub is_valid_workload : ℕ → Bool
is_valid_workload c =
    (c == 97) || ((c == 98) || ((c == 99) || ((c == 100) || ((c == 101) || (c == 102)))))

unfoldable pub ycsb_profile : ℕ → Outcome RunnerError Text
ycsb_profile c =
    if c == 97
    then done (codes "ycsb/workloads/workloada")
    else if c == 98
    then done (codes "ycsb/workloads/workloadb")
    else if c == 99
    then done (codes "ycsb/workloads/workloadc")
    else if c == 100
    then done (codes "ycsb/workloads/workloadd")
    else if c == 101
    then done (codes "ycsb/workloads/workloade")
    else if c == 102
    then done (codes "ycsb/workloads/workloadf")
    else panic

-- `set.extend(keys)`
unfoldable pub extend : BTreeSet → BTreeSet → BTreeSet
extend set [] = set
extend set ((k, v) ∷ keys) = extend (insert set k tt) keys

module _ (floats : Floats) where
  -- What a `YcsbDriver` waits for: the signal of the feeder thread, what the thread returned
  -- (nothing if it panicked), and the kill of the process.
  pub record Ended : Type 0 where
    pub signal : Result Text (Unit {0})
    pub feeder : Option (Option (Stats floats × BTreeSet))
    pub killed : Result Text (Unit {0})

  -- The `?` on a `RecvTimeoutError`.
  abbrev from_recv : Result Text (Unit {0}) → Result RunnerError (Unit {0})
  from_recv (ok u) = ok u
  from_recv (err message) = err (chan message)

  -- The `map_err` and `?` on a join.
  abbrev joined {ℓ} : {A : Type ℓ} → Option A → Result RunnerError A
  joined none = err join
  joined (some a) = ok a

  unfoldable pub wait : Ended → Result RunnerError (Option (Stats floats × BTreeSet))
  wait e =
      and_then (from_recv e.signal)
        λ u. and_then (joined e.feeder) λ feeder_ret. and_then (from_io e.killed) λ u. ok feeder_ret

  -- The processes, by their phase (true for the load phase) and number: if a client process is
  -- spawned, if a YCSB process is, and how its driver ends, with the keys that it was given.
  pub record Processes : Type 0 where
    pub client : Bool → ℕ → Result Text (Unit {0})
    pub spawned : Bool → ℕ → BTreeSet → Result Text (Unit {0})
    pub ended : Bool → ℕ → BTreeSet → Ended

  module _ (procs : Processes) (workload : ℕ) where
    -- `YcsbDriver::exec`, up to the thread that it starts.
    unfoldable pub exec : Bool → ℕ → BTreeSet → Outcome RunnerError (Unit {0})
    unfolding ycsb_profile
    exec load i ikeys = do
      profile ← ycsb_profile workload
      lift (from_io (procs.spawned load i ikeys))

    -- The loop over the clients, of which `left` are left and `i` were before.
    unfoldable pub exec_all : Bool → BTreeSet → ℕ → ℕ → Outcome RunnerError (Unit {0})
    unfolding exec
    exec_all load ikeys zero i = done tt
    exec_all load ikeys (suc left) i = do
      started ← exec load i ikeys
      exec_all load ikeys left (suc i)

    -- The loop over the drivers.
    unfoldable pub wait_all :
        Bool
        → BTreeSet
        → ℕ
        → ℕ
        → Stats floats
        → BTreeSet
        → Result RunnerError (Stats floats × BTreeSet)
    unfolding wait merge extend
    wait_all load given zero i stats ikeys = ok (stats, ikeys)
    wait_all load given (suc left) i stats ikeys = and_then (wait (procs.ended load i given)) λ ret.
        elim ret [
          | none ↦ err (io (codes "a YCSB driver process failed"))
          | some r ↦ wait_all load given left (suc i) (merge floats stats r.0) (extend ikeys r.1)
        ]

    unfoldable pub ycsb_bench : ℕ → Bool → BTreeSet → Outcome RunnerError (Stats floats × BTreeSet)
    unfolding exec_all wait_all
    ycsb_bench num_clis load ikeys = do
      launched ← exec_all load ikeys num_clis 0
      lift (wait_all load ikeys num_clis 0 (no_stats floats) [])

    -- The loop of `main` that spawns the clients of a phase.
    unfoldable pub spawn_clients : Bool → ℕ → ℕ → Result RunnerError (Unit {0})
    spawn_clients load zero i = ok tt
    spawn_clients load (suc left) i =
        and_then (from_io (procs.client load i)) λ u. spawn_clients load left (suc i)

    abbrev pub phase : ℕ → Bool → BTreeSet → Outcome RunnerError (Stats floats × BTreeSet)
    phase num_clis load ikeys =
        lift (spawn_clients load num_clis 0) >>= λ u. ycsb_bench num_clis load ikeys

    -- `main`, to the statistics of its two phases that it prints.
    unfoldable pub main : ℕ → Outcome RunnerError (Stats floats × Stats floats)
    unfolding is_valid_workload spawn_clients ycsb_bench
    main num_clis = if (num_clis == 0) || not (is_valid_workload workload) then panic else (do
      (stats_load, ikeys_load) ← phase num_clis true []
      (stats_run, ikeys_run) ← phase num_clis false ikeys_load
      done (stats_load, stats_run))
