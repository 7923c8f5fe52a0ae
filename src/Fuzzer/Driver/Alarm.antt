-- ===== src/Fuzzer/Driver/Alarm.antt =====
-- What a failed `fuzz_test` tells about the service.
use madkv.Prelude.{ℕ, ◌<◌, ◌≡◌, false, ◌⊎◌, Option, none, some, List, [], ◌∷◌, ◌++◌}
use madkv.Prelude.Any.{Any}
use madkv.Prelude.Results.{done}
use madkv.Text.{Text}
use madkv.Runner.Resp.{KvResp}
use madkv.Fuzzer.Outside.{Rng, BitVecs, Clients}
use madkv.Fuzzer.Random.{Stats}
use madkv.Fuzzer.History.Spans.{History}
use madkv.Fuzzer.History.Update.{apply_update, new}
use madkv.Fuzzer.History.Whole.{Ack, acknowledge, run}
use madkv.Fuzzer.Driver.{Loop, stopped, init_loop}
use madkv.Fuzzer.Driver.Traces.{turn_of}
use madkv.Fuzzer.Driver.Flying.{resp_known, Explanation}

module _ (rand : Rng) (bits : BitVecs) (clients : Clients) where
  module _ (draws total_ops num_clis : ℕ) (keys : List (List Text)) where
    -- The checker passes all of the responses `acks` and the next one, after the variables `s'`,
    -- is STOP.
    abbrev pub Stops : Loop rand bits clients → List Ack → Type 0
    Stops s' acks =
        ((h : History) × (run apply_update (new num_clis keys) acks ≡ done (none, h)))
        × (s'.ops_waited < total_ops)
        × (turn_of rand bits clients draws total_ops keys s' ≡ done stopped)

    -- The checker passes all of the responses `acks` but the last, and fails that one.
    abbrev pub FailsLast : List Ack → Type 0
    FailsLast acks =
        (before : List Ack) × (a : Ack) × (failure : Option KvResp) × (h : History) × (h' : History)
        × (acks ≡ before ++ (a ∷ []))
        × (run apply_update (new num_clis keys) before ≡ done (none, h))
        × (acknowledge apply_update h a ≡ done (some failure, h'))

    -- The next response is STOP; or the checker fails the last of the responses `acks` to have
    -- come when the variables are `s'`, and one is about a key that it does not know, or they
    -- have no explanation.
    abbrev pub Excuse : Loop rand bits clients → List Ack → Type 0
    Excuse s' acks =
        Stops s' acks
        ⊎ (FailsLast acks
            × (Any (λ a. resp_known (new num_clis keys).spans a.resp ≡ false) acks
                ⊎ (¬ Explanation rand bits clients (new num_clis keys).spans s' acks)))

    module _ (stats : Stats) (rng : rand.State) (world : clients.World) where
      abbrev first : Loop rand bits clients
      first = init_loop rand bits clients num_clis stats rng world
