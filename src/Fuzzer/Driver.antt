-- ===== src/Fuzzer/Driver.antt =====
-- `fuzz_test` of runner/src/bin/fuzzer/main.rs.
pub mod Invariant
pub mod Steps
pub mod Turns
pub mod Verdict
pub mod Traces
pub mod Known
pub mod Flying
pub mod Alarm
use madkv.Prelude.{
  ℕ, zero, suc, ◌*◌, ◌/◌, ◌%◌, ◌^◌, ◌==◌, ltb, Bool, true, false, Option, none, some, List, [], ◌∷◌,
  if◌then◌else◌, length, set, replicate,
}
use madkv.Prelude.Results.{Result, ok, err, Outcome, done, fail, spin, panic, lift, ◌>>=◌}
use madkv.Text.{Text}
use madkv.Runner.Error.{RunnerError}
use madkv.Runner.Call.{update_info}
use madkv.Runner.Resp.{KvResp, stop}
use madkv.Fuzzer.Outside.{Rng, BitVecs, Clients}
use madkv.Fuzzer.Random.{Stats, inc, at, gen_call_vs_wait, gen_rand_client, gen_rand_kvcall}
use madkv.Fuzzer.History.Spans.{History}
use madkv.Fuzzer.History.Update.{new, queue_len}
use madkv.Fuzzer.History.Whole.{Updated, Ack, acknowledge}

-- The start timestamp of a call, and its update.
abbrev pub Memo : Type 0
Memo = ℕ × Option (Text × Option Text)

-- `matches!(resp, KvResp::Stop)`
abbrev pub is_stop : KvResp → Bool
is_stop stop = true
is_stop _ = false

-- `total_ops`
unfoldable pub total : ℕ → ℕ → ℕ
total num_ops num_clis = (num_ops * num_clis) % 2 ^ 64

module _ (rand : Rng) (bits : BitVecs) (clients : Clients) where
  open rand use {State}
  open bits use {BitVec}
  open clients use {World, send_call, wait_resp}

  -- The variables of the loop but the history.
  pub record Loop : Type 0 where
    pub flying : BitVec
    pub timestamp : ℕ
    pub call_memo : List Memo
    pub ops_called : ℕ
    pub ops_waited : ℕ
    pub stats : Stats
    pub rng : State
    pub world : World

  -- What an iteration does before it turns to the history: it made a call; or it got a stop
  -- response, which ends the test; or it harvested a response, with the variables as they are
  -- after the iteration if the history has no complaint.
  pub data Turn : Type 0 where
    called : Loop → Turn
    stopped : Turn
    harvested : Ack → Loop → Turn

  -- The first branch of the loop, at the new timestamp. `draws` is the fuel of `gen_rand_client`.
  unfoldable pub make_call : ℕ → List (List Text) → Loop → State → Outcome RunnerError Turn
  make_call draws keys s rng = do
    (cidx, rng₁) ← gen_rand_client rand bits draws rng s.flying false
    cli_keys ← at keys cidx
    (call, stats, rng₂) ← gen_rand_kvcall rand cli_keys s.stats cidx rng₁
    _ ← at s.call_memo cidx
    world ← lift (send_call s.world cidx call)
    done (
        called (record s {
          flying = bits.set s.flying cidx true;
          call_memo = set s.call_memo cidx (s.timestamp, update_info call);
          ops_called = inc s.ops_called;
          stats = stats;
          rng = rng₂;
          world = world;
        }))

  -- `mem::take` of the call's memo, and the variables after the iteration.
  unfoldable pub note_response : Loop → ℕ → KvResp → Outcome RunnerError Turn
  note_response s cidx resp = do
    memo ← at s.call_memo cidx
    done (
        harvested
          (record {
            cidx = cidx;
            ts_call = memo.0;
            ts_resp = s.timestamp;
            resp = resp;
            update_info = memo.1;
          })
          (record s {
            flying = bits.set s.flying cidx false;
            call_memo = set s.call_memo cidx (0, none);
            ops_waited = inc s.ops_waited;
          }))

  -- The second branch, up to the history.
  unfoldable pub harvest : ℕ → Loop → State → Outcome RunnerError Turn
  unfolding note_response
  harvest draws s rng = do
    (cidx, rng₁) ← gen_rand_client rand bits draws rng s.flying true
    (resp, world) ← lift (wait_resp s.world cidx)
    if is_stop resp
        then done stopped
        else note_response (record s { rng = rng₁; world = world }) cidx resp

  unfoldable pub take_turn : ℕ → ℕ → List (List Text) → Loop → Outcome RunnerError Turn
  take_turn draws total_ops keys s =
      let decided = gen_call_vs_wait rand bits s.rng s.ops_called total_ops s.flying in
      let now : Loop = record s { timestamp = inc s.timestamp } in
      if decided.0 then make_call draws keys now decided.1 else harvest draws now decided.1

  -- The way on from a turn: `none` if the loop was left by `break`, with `passed` false. The
  -- progress line divides by `total_ops / 100`.
  unfoldable pub settle :
      (History → ℕ → ℕ → ℕ → Text → Option Text → Updated)
      → ℕ
      → Turn
      → History
      → Outcome RunnerError (Option (Loop × History))
  settle update total_ops (called s) h = done (some (s, h))
  settle update total_ops stopped h = done none
  settle update total_ops (harvested ack s) h = do
    (result, h') ← acknowledge update h ack
    elim result [
      | none ↦ if total_ops / 100 == 0 then panic else done (some (s, h'))
      | some failure ↦ done none
    ]

  -- The `while` loop over `total_ops` responses: the number of queued checks at its end, or `none`.
  unfoldable pub fuzz_loop :
      (History → ℕ → ℕ → ℕ → Text → Option Text → Updated)
      → ℕ
      → ℕ
      → ℕ
      → List (List Text)
      → Loop
      → History
      → Outcome RunnerError (Option (ℕ × Loop))
  fuzz_loop update draws total_ops zero keys s h = spin
  fuzz_loop update draws total_ops (suc fuel) keys s h =
      let next = λ (o : Option (Loop × History)).
        elim o as (λ _. Outcome RunnerError (Option (ℕ × Loop))) [
          | none ↦ done none
          | some (s', h') ↦ fuzz_loop update draws total_ops fuel keys s' h'
        ] in
      let round =
        take_turn draws total_ops keys s >>= (λ t. settle update total_ops t h >>= next) in
      if ltb s.ops_waited total_ops then round else done (some (queue_len h, s))

  -- `client.stop()?` for each client from `cidx` on.
  unfoldable stop_clients : ℕ → ℕ → World → Result RunnerError World
  stop_clients zero cidx world = ok world
  stop_clients (suc left) cidx world = elim (clients.stop world cidx) [
    | err e ↦ err e
    | ok world' ↦ stop_clients left (suc cidx) world'
  ]

  unfoldable pub init_loop : ℕ → Stats → State → World → Loop
  init_loop num_clis stats rng world = record {
    flying = bits.from_elem num_clis false;
    timestamp = 0;
    call_memo = replicate num_clis (0, none);
    ops_called = 0;
    ops_waited = 0;
    stats = stats;
    rng = rng;
    world = world;
  }

  unfoldable finish : ℕ → Option (ℕ × Loop) → Outcome RunnerError (Option ℕ)
  unfolding stop_clients
  finish num_clis none = done none
  finish num_clis (some (remaining, s)) = do
    _ ← lift (stop_clients num_clis 0 s.world)
    done (some remaining)

  -- The number of checks left in the queue, or `none` if the test failed.
  unfoldable pub fuzz_test :
      (History → ℕ → ℕ → ℕ → Text → Option Text → Updated)
      → ℕ
      → ℕ
      → ℕ
      → ℕ
      → List (List Text)
      → Stats
      → State
      → World
      → Outcome RunnerError (Option ℕ)
  unfolding finish
  fuzz_test update draws fuel num_ops num_clis keys stats rng world = do
    ended ←
        fuzz_loop update draws (total num_ops num_clis) fuel keys
          (init_loop num_clis stats rng world) (new num_clis keys)
    finish num_clis ended
