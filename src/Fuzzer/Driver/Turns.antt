-- ===== src/Fuzzer/Driver/Turns.antt =====
-- The two branches of an iteration of `fuzz_test`, on every path that returns.
use madkv.Prelude.{
  ℕ, ◌*◌, ◌^◌, ◌<◌, ◌≡◌, refl, true, false, Bool-cases, Option-cases, inl, inr, some, List,
  if◌then◌else◌, arith, get_elem?,
}
use madkv.Prelude.Results.{lift, Ensures, bind-Ensures, bind-Ensures_any}
use madkv.Text.{Text}
use madkv.Runner.Resp.{KvResp}
use madkv.Fuzzer.Outside.{Rng, BitVecs, Clients}
use madkv.Fuzzer.Random.{at, gen_rand_client, gen_call_vs_wait, gen_rand_kvcall}
use madkv.Fuzzer.Driver.{Turn, make_call, harvest, note_response, take_turn, is_stop}
use madkv.Fuzzer.Driver.Invariant.{gen_rand_client-status, Inv}
use madkv.Fuzzer.Driver.Steps.{Vars, now, TurnOk, called-Ok, harvested-Ok}

pub at-Ensures {ℓ} :
    {A : Type ℓ} (xs : List A) (i : ℕ) → Ensures (λ x. get_elem? xs i ≡ some x) (at xs i)
at-Ensures xs i = elim (Option-cases (get_elem? xs i)) [
  | inl e ↦ rw (e, at) tt
  | inr (x, e) ↦ rw (e, at) refl
]

module _ (rand : Rng) (bits : BitVecs) (clients : Clients) (total n : ℕ)
    (small : 2 * total < 2 ^ 64) (last : List ℕ) (s : Vars rand bits clients total n small)
    (v : Inv rand bits clients total n last s) where
  abbrev Ok : Turn rand bits clients → Type 0
  Ok = TurnOk rand bits clients total n small last s.timestamp

  abbrev s₁ : Vars rand bits clients total n small
  s₁ = now rand bits clients total n small s

  make_call-Ok :
      (draws : ℕ) (keys : List (List Text)) (rng : rand.State)
      → s.ops_called < total
      → Ensures Ok (make_call rand bits clients draws keys s₁ rng)
  unfolding make_call
  make_call-Ok draws keys rng fits =
      bind-Ensures _ Ok (gen_rand_client rand bits draws rng s.flying false) _
        (gen_rand_client-status rand bits draws rng s.flying false)
        λ c status. bind-Ensures_any Ok (at keys c.0) _ λ cli_keys.
          bind-Ensures_any Ok (gen_rand_kvcall rand cli_keys s.stats c.0 c.1) _ λ g.
            bind-Ensures_any Ok (at s.call_memo c.0) _ λ m.
              bind-Ensures_any Ok (lift (clients.send_call s.world c.0 g.0)) _ λ world.
                called-Ok rand bits clients total n small last s v c.0 g.0 fits status g.2 g.1 world

  note_response-Ok :
      (cidx : ℕ) (status : bits.get s.flying cidx ≡ some true) (resp : KvResp) (rng : rand.State)
      (world : clients.World)
      → s.ops_waited < total
      → Ensures Ok
          (note_response rand bits clients (record s₁ { rng = rng; world = world }) cidx resp)
  unfolding note_response
  note_response-Ok cidx status resp rng world fits =
      bind-Ensures _ Ok (at s.call_memo cidx) _ (at-Ensures s.call_memo cidx) λ memo noted.
        harvested-Ok rand bits clients total n small last s v cidx status resp memo noted fits rng
          world

  harvest-Ok :
      (draws : ℕ) (rng : rand.State)
      → s.ops_waited < total
      → Ensures Ok (harvest rand bits clients draws s₁ rng)
  unfolding harvest
  harvest-Ok draws rng fits =
      bind-Ensures _ Ok (gen_rand_client rand bits draws rng s.flying true) _
        (gen_rand_client-status rand bits draws rng s.flying true)
        λ c status. bind-Ensures_any Ok (lift (clients.wait_resp s.world c.0)) _ λ r.
          elim (Bool-cases (is_stop r.0)) [
            | inl e ↦ rw (e, if◌then◌else◌) tt
            | inr e ↦ rw (e, if◌then◌else◌) (note_response-Ok c.0 status r.0 c.1 r.1 fits)
          ]

  room_to_call :
      (rng : rand.State)
      → (gen_call_vs_wait rand bits rng s.ops_called total s.flying).0 ≡ true
      → s.ops_called < total
  unfolding gen_call_vs_wait
  room_to_call rng h = ground (arith, v.calls)

  -- a turn from a state with the invariant
  pub take_turn-Ok :
      (draws : ℕ) (keys : List (List Text))
      → s.ops_waited < total
      → Ensures Ok (take_turn rand bits clients draws total keys s)
  unfolding take_turn
  take_turn-Ok draws keys fits =
      elim (Bool-cases (gen_call_vs_wait rand bits s.rng s.ops_called total s.flying).0) [
        | inl e ↦ rw (e, if◌then◌else◌) (make_call-Ok draws keys _ (room_to_call s.rng e))
        | inr e ↦ rw (e, if◌then◌else◌) (harvest-Ok draws _ fits)
      ]
