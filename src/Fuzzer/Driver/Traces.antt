-- ===== src/Fuzzer/Driver/Traces.antt =====
-- The responses that the loop of `fuzz_test` hands to the checker, and how the loop fails.
use madkv.Prelude.{
  ℕ, zero, suc, ◌/◌, ◌<◌, ◌≡◌, refl, ◌∙◌, ltb, ltb→lt, ◌==◌, Bool-cases, inl, inr, Option, none,
  some, List, [], ◌∷◌, ◌++◌, if◌then◌else◌,
}
use madkv.Prelude.Results.{Outcome, done, fail, spin, panic, ◌>>=◌}
use madkv.Text.{Text}
use madkv.Runner.Error.{RunnerError}
use madkv.Runner.Resp.{KvResp}
use madkv.Fuzzer.Outside.{Rng, BitVecs, Clients}
use madkv.Fuzzer.History.Spans.{History}
use madkv.Fuzzer.History.Update.{apply_update}
use madkv.Fuzzer.History.Whole.{Ack, acknowledge, run, unless_failed}
use madkv.Fuzzer.Driver.{Loop, Turn, called, stopped, harvested, take_turn, settle, fuzz_loop}

-- Inversion of a successful bind.
pub >>=-done {ℓ κ μ} :
    {E : Type ℓ} {A : Type κ} {B : Type μ} (m : Outcome E A) (f : A → Outcome E B) (b : B)
    → (m >>= f) ≡ done b
    → (a : A) × (m ≡ done a) × (f a ≡ done b)
>>=-done (done a) f b h = (a, refl, h)
>>=-done (fail e) f b h = cc
>>=-done spin f b h = cc
>>=-done panic f b h = cc

module _ (rand : Rng) (bits : BitVecs) (clients : Clients) (draws total_ops : ℕ)
    (keys : List (List Text)) where
  abbrev Vars : Type 0
  Vars = Loop rand bits clients

  abbrev pub turn_of : Vars → Outcome RunnerError (Turn rand bits clients)
  turn_of s = take_turn rand bits clients draws total_ops keys s

  -- From some variables to others, by iterations that harvest these responses.
  pub data Harvests (s' : Vars) : Vars → List Ack → Type 0 where
    here : Harvests s' s' []
    call :
        {s t : Vars} {acks : List Ack}
        → s.ops_waited < total_ops
        → turn_of s ≡ done (called t)
        → Harvests s' t acks
        → Harvests s' s acks
    response :
        {s t : Vars} {acks : List Ack} (a : Ack)
        → s.ops_waited < total_ops
        → turn_of s ≡ done (harvested a t)
        → Harvests s' t acks
        → Harvests s' s (a ∷ acks)

  -- Why the loop fails: the checker passes what was harvested, and the next response is STOP; or
  -- it passes all responses but the last, and fails that one.
  pub data Fails (s : Vars) (h : History) : Type 0 where
    stop_response :
        (acks : List Ack) (s' : Vars) (h' : History)
        → Harvests s' s acks
        → run apply_update h acks ≡ done (none, h')
        → s'.ops_waited < total_ops
        → turn_of s' ≡ done stopped
        → Fails s h
    bad_response :
        (before : List Ack) (a : Ack) (s' : Vars) (failure : Option KvResp) (h₁ h' : History)
        → Harvests s' s (before ++ (a ∷ []))
        → run apply_update h before ≡ done (none, h₁)
        → acknowledge apply_update h₁ a ≡ done (some failure, h')
        → Fails s h

  after_call :
      (s t : Vars) (h : History)
      → s.ops_waited < total_ops
      → turn_of s ≡ done (called t)
      → Fails t h
      → Fails s h
  after_call s t h fits e (stop_response acks s' h' r passes more stop) =
      stop_response acks s' h' (call fits e r) passes more stop
  after_call s t h fits e (bad_response before a s' failure h₁ h' r passes bad) =
      bad_response before a s' failure h₁ h' (call fits e r) passes bad

  run-acknowledge :
      (h h' : History) (a : Ack) (acks : List Ack)
      → acknowledge apply_update h a ≡ done (none, h')
      → run apply_update h (a ∷ acks) ≡ run apply_update h' acks
  unfolding run unless_failed
  run-acknowledge h h' a acks e = rw e refl

  after_response :
      (s t : Vars) (h h' : History) (a : Ack)
      → s.ops_waited < total_ops
      → turn_of s ≡ done (harvested a t)
      → acknowledge apply_update h a ≡ done (none, h')
      → Fails t h'
      → Fails s h
  after_response s t h h' a fits e ack (stop_response acks s' h₁ r passes more stop) =
      stop_response (a ∷ acks) s' h₁ (response a fits e r)
        (run-acknowledge h h' a acks ack ∙ passes) more stop
  after_response s t h h' a fits e ack (bad_response before b s' failure h₁ h'' r passes bad) =
      bad_response (a ∷ before) b s' failure h₁ h'' (response a fits e r)
        (run-acknowledge h h' a before ack ∙ passes) bad

  -- What follows a turn, as in the loop.
  abbrev next : ℕ → Option (Vars × History) → Outcome RunnerError (Option (ℕ × Vars))
  next fuel o = elim o as (λ _. Outcome RunnerError (Option (ℕ × Vars))) [
    | none ↦ done none
    | some (s', h') ↦ fuzz_loop rand bits clients apply_update draws total_ops fuel keys s' h'
  ]

  Failing : ℕ → Type 0
  Failing fuel =
      (s : Vars) (h : History)
      → fuzz_loop rand bits clients apply_update draws total_ops fuel keys s h ≡ done none
      → Fails s h

  fails_acknowledged :
      (fuel : ℕ) (s t : Vars) (h : History) (a : Ack) (r : Option (Option KvResp)) (h' : History)
      → Failing fuel
      → s.ops_waited < total_ops
      → turn_of s ≡ done (harvested a t)
      → acknowledge apply_update h a ≡ done (r, h')
      → ((elim r as (λ _. Outcome RunnerError (Option (Vars × History))) [
        | none ↦ if total_ops / 100 == 0 then panic else done (some (t, h'))
        | some failure ↦ done none
      ])
          >>= next fuel)
        ≡ done none
      → Fails s h
  unfolding Failing run unless_failed
  fails_acknowledged fuel s t h a none h' rec fits e ack f =
      elim (Bool-cases (total_ops / 100 == 0)) [
        | inl z ↦ cc (rw (z, if◌then◌else◌) at f)
        | inr z ↦ after_response s t h h' a fits e ack (rec t h' (rw (z, if◌then◌else◌) at f))
      ]
  fails_acknowledged fuel s t h a (some failure) h' rec fits e ack f =
      bad_response [] a t failure h h' (response a fits e here) refl ack

  fails_turn :
      (fuel : ℕ) (s : Vars) (h : History) (t : Turn rand bits clients)
      → Failing fuel
      → s.ops_waited < total_ops
      → turn_of s ≡ done t
      → (settle rand bits clients apply_update total_ops t h >>= next fuel) ≡ done none
      → Fails s h
  unfolding settle Failing run
  fails_turn fuel s h (called t) rec fits e f = after_call s t h fits e (rec t h f)
  fails_turn fuel s h stopped rec fits e f = stop_response [] s h here refl fits e
  fails_turn fuel s h (harvested a t) rec fits e f =
      let (o, settled, f') =
        >>=-done (settle rand bits clients apply_update total_ops (harvested a t) h) (next fuel)
          none f in
      let ((r, h'), ack, g) = >>=-done (acknowledge apply_update h a) _ o settled in
      fails_acknowledged fuel s t h a r h' rec fits e ack (rw g f')

  -- A loop that returns no count has failed for one of the two reasons.
  pub fuzz_loop-Fails :
      (fuel : ℕ) (s : Vars) (h : History)
      → fuzz_loop rand bits clients apply_update draws total_ops fuel keys s h ≡ done none
      → Fails s h
  unfolding fuzz_loop Failing
  fuzz_loop-Fails zero s h f = cc
  fuzz_loop-Fails (suc fuel) s h f = elim (Bool-cases (ltb s.ops_waited total_ops)) [
    | inr e ↦ cc (rw (e, if◌then◌else◌) at f)
    | inl e ↦
        let (t, turn, g) = >>=-done (turn_of s) _ none (rw (e, if◌then◌else◌) at f) in
        fails_turn fuel s h t (fuzz_loop-Fails fuel) (ltb→lt _ _ e) turn g
  ]
