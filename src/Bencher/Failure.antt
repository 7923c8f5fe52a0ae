-- ===== src/Bencher/Failure.antt =====
-- When a phase of the benchmark has a result.
use madkv.Prelude.{
  ℕ, zero, suc, ◌+◌, ◌<◌, ◌≤◌, ◌≡◌, ◌≢◌, ◌⊎◌, refl, subst, Bool, true, some, List, [], ◌∷◌, inl,
  inr, length, ap, Option-cases, arith, ◌==◌, ==_iff, Bool-cases, ◌∙◌,
}
use madkv.Prelude.Results.{ok, err, done, fail}
use madkv.Text.{codes}
use madkv.BTreeSet.{BTreeSet}
use madkv.Runner.Error.{RunnerError, io}
use madkv.Bencher.Stats.{Floats, Stats, no_stats, merge, merge_drivers}
use madkv.Bencher.Bench.{
  is_valid_workload, extend, wait, Processes, exec, exec_all, wait_all, ycsb_bench,
}
use madkv.Bencher.Advances.{Result-cases}
use madkv.Bencher.Phases.{Returned, stats_of, union, profile_of}

module _ (floats : Floats) (procs : Processes floats) (load : Bool) (given : BTreeSet) where
  -- The driver with number `k` was started, and its feeder thread returned `r`.
  abbrev pub Returns : ℕ → Returned floats → Type 0
  Returns k r =
      (procs.spawned load k given ≡ ok tt) × (wait floats (procs.ended load k given) ≡ ok (some r))

  -- What the drivers from number `i` on returned, each of them.
  abbrev pub AllReturn : ℕ → List (Returned floats) → Type 0
  AllReturn i [] = Unit
  AllReturn i (r ∷ rets) = Returns i r × AllReturn (suc i) rets

  module _ (workload : ℕ) where
    -- The drivers from `i` on, of which there are `left`, are started, or one is not.
    Started : ℕ → ℕ → Type 0
    Started left i =
        (((k : ℕ) → i ≤ k → k < i + left → procs.spawned load k given ≡ ok tt)
          × (exec_all floats procs workload load given left i ≡ done tt))
        ⊎ ((d : ℕ) × (e : RunnerError) × (d < i + left)
            × (procs.spawned load d given ≢ ok tt)
            × (exec_all floats procs workload load given left i ≡ fail e))

    first_spawned :
        (left i : ℕ)
        → procs.spawned load i given ≡ ok tt
        → ((k : ℕ) → suc i ≤ k → k < suc i + left → procs.spawned load k given ≡ ok tt)
        → (k : ℕ) → i ≤ k
        → k < i + suc left
        → procs.spawned load k given ≡ ok tt
    first_spawned left i here rest k low high = elim (Bool-cases (i == k)) [
      | inl e ↦ subst (λ k. procs.spawned load k given ≡ ok tt) ((==_iff i k).0 e) here
      | inr e ↦ rest k (ground (arith, ==_iff i k)) (omega arith)
    ]

    exec_all-Started : is_valid_workload workload ≡ true → (left i : ℕ) → Started left i
    unfolding Started exec_all exec
    exec_all-Started valid zero i = inl (λ k low high. absurd (omega arith), refl)
    exec_all-Started valid (suc left) i =
        let (profile, p) = profile_of workload valid in
        elim (Result-cases (procs.spawned load i given)) [
          | inr (m, e) ↦ inr (i, io m, omega arith, λ good. cc, rw (p, e) refl)
          | inl (u, e) ↦ elim (exec_all-Started valid left (suc i)) [
            | inl (spawns, rest) ↦ inl (first_spawned left i e spawns, rw (p, e) rest)
            | inr (d, m, room, bad, rest) ↦ inr (d, m, omega (arith, room), bad, rw (p, e) rest)
          ]
        ]

    -- All drivers from `i` on return, and the loop merges what they do; or one does not.
    Ended : ℕ → ℕ → Stats floats → BTreeSet → Type 0
    Ended left i stats ikeys =
        ((rets : List (Returned floats)) × (length rets ≡ left)
          × AllReturn i rets
          × (wait_all floats procs workload load given left i stats ikeys
              ≡ ok (merge_drivers floats stats (stats_of floats rets), union floats ikeys rets)))
        ⊎ ((d : ℕ) × (e : RunnerError) × (d < i + left)
            × ((r : Returned floats) → ¬ Returns d r)
            × (wait_all floats procs workload load given left i stats ikeys ≡ err e))

    wait_all-Ended :
        (left i : ℕ) (stats : Stats floats) (ikeys : BTreeSet)
        → ((k : ℕ) → i ≤ k → k < i + left → procs.spawned load k given ≡ ok tt)
        → Ended left i stats ikeys
    unfolding Ended wait_all merge_drivers
    wait_all-Ended zero i stats ikeys spawns = inl ([], refl, tt, refl)
    wait_all-Ended (suc left) i stats ikeys spawns =
        elim (Result-cases (wait floats (procs.ended load i given))) [
          | inr (m, e) ↦ inr (i, m, omega arith, λ r good. cc (e, good.1), rw e refl)
          | inl (ret, e) ↦ elim (Option-cases ret) [
            | inl n ↦ inr (
              i,
              io (codes "a YCSB driver process failed"),
              omega arith,
              λ r good. cc (e, n, good.1),
              rw (e, n) refl,
            )
            | inr (r, s) ↦
                elim (wait_all-Ended left (suc i) (merge floats stats r.0) (extend ikeys r.1)
                  (λ k low high. spawns k (omega arith) (omega arith))) [
                    | inl (rets, size, all, rest) ↦ inl (
                      r ∷ rets,
                      ap suc size,
                      ((spawns i (omega arith) (omega arith), e ∙ ap ok s), all),
                      rw (e, s) rest,
                    )
                    | inr (d, m, room, bad, rest) ↦
                        inr (d, m, omega (arith, room), bad, rw (e, s) rest)
                  ]
          ]
        ]

    -- A phase with a valid workload ends in one of two ways. Either every driver was started and
    -- returned, and the result is the merge of all their statistics and the union of all their keys;
    -- or some driver was not started or returned nothing, and the phase fails, whatever the others
    -- return.
    pub ycsb_bench-AllReturn :
        (num_clis : ℕ)
        → is_valid_workload workload ≡ true
        → ((rets : List (Returned floats)) × (length rets ≡ num_clis)
            × AllReturn 0 rets
            × (ycsb_bench floats procs workload num_clis load given
                ≡ done (
                  merge_drivers floats (no_stats floats) (stats_of floats rets),
                  union floats [] rets,
                )))
          ⊎ ((d : ℕ) × (e : RunnerError) × (d < num_clis)
              × ((r : Returned floats) → ¬ Returns d r)
              × (ycsb_bench floats procs workload num_clis load given ≡ fail e))
    unfolding ycsb_bench Started Ended
    ycsb_bench-AllReturn num_clis valid = elim (exec_all-Started valid num_clis 0) [
      | inr (d, e, room, bad, f) ↦ inr (d, e, omega (arith, room), λ r good. bad good.0, rw f refl)
      | inl (spawns, f) ↦ elim (wait_all-Ended num_clis 0 (no_stats floats) [] spawns) [
        | inl (rets, size, all, g) ↦ inl (rets, size, all, rw (f, g) refl)
        | inr (d, e, room, bad, g) ↦ inr (d, e, omega (arith, room), bad, rw (f, g) refl)
      ]
    ]
