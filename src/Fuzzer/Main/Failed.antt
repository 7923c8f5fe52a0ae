-- ===== src/Fuzzer/Main/Failed.antt =====
-- What it means that the fuzz tester's verdict is FAILED.
use madkv.Prelude.{ℕ, ◌==◌, ◌||◌, List, Bool, true, ltb, if◌then◌else◌}
use madkv.Prelude.Results.{Outcome, done, ◌>>=◌}
use madkv.Text.{Text}
use madkv.Runner.Error.{RunnerError}
use madkv.Fuzzer.Outside.{Rng, BitVecs, Clients}
use madkv.Fuzzer.History.Update.{apply_update}
use madkv.Fuzzer.History.Whole.{Ack}
use madkv.Fuzzer.Driver.{Loop, init_loop, total, fuzz_test}
use madkv.Fuzzer.Driver.Traces.{Harvests}
use madkv.Fuzzer.Driver.Alarm.{Excuse}
use madkv.Fuzzer.Main.{Args, Verdict, verdict_of, new_stats, gen_keys}

module _ (rand : Rng) (bits : BitVecs) (clients : Clients) (args : Args) (draws : ℕ)
    (rng : rand.State) where
  -- The keys of the test, and the generator after they were drawn.
  abbrev pub drawn : List (List Text) × rand.State
  drawn = gen_keys rand args args.num_clis rng

  -- From the first variables on, the loop harvests responses that excuse the failure.
  abbrev pub Excused : clients.World → Type 0
  Excused world =
      (acks : List Ack) × (s' : Loop rand bits clients) × (Harvests rand bits clients draws
          (total args.num_ops args.num_clis) drawn.0 s'
          (init_loop rand bits clients args.num_clis (new_stats drawn.0) drawn.1 world) acks
        × Excuse rand bits clients draws (total args.num_ops args.num_clis) args.num_clis drawn.0 s'
            acks)

  abbrev refused : Bool
  refused =
      (args.num_clis == 0)
      || ((args.num_keys == 0)
          || (if ltb args.num_keys 100000 then ltb args.num_ops 1000 else true))

  -- `main` after its assertions.
  abbrev asserted : ℕ → clients.World → Outcome RunnerError Verdict
  asserted fuel world =
      fuzz_test rand bits clients apply_update draws fuel args.num_ops args.num_clis drawn.0
        (new_stats drawn.0) drawn.1 world
      >>= λ result. done (verdict_of result)
