-- ===== src/Fuzzer/Driver/Verdict.antt =====
-- The verdict of `fuzz_test`.
use madkv.Prelude.{
  ℕ, zero, suc, ◌+◌, ◌*◌, ◌/◌, ◌^◌, ◌<◌, ◌≡◌, refl, sym, ap, subst, ltb, true, false, Bool-cases,
  inl, inr, Option, none, some, List, if◌then◌else◌, arith, get_elem?, ◌==◌, replicate, length,
  length-replicate,
}
use madkv.Prelude.Results.{Outcome, done, fail, spin, panic, ◌>>=◌, Ensures}
use madkv.Text.{Text}
use madkv.Runner.Error.{RunnerError}
use madkv.Fuzzer.Outside.{Rng, BitVecs, Clients}
use madkv.Fuzzer.Random.{Stats}
use madkv.Fuzzer.History.Spans.{History, QueuedSpan}
use madkv.Fuzzer.History.Update.{apply_update, new, queue_len}
use madkv.Fuzzer.History.Whole.{Updated, update_whole, acknowledge}
use madkv.Fuzzer.History.Minimum.{AtMost}
use madkv.Fuzzer.History.Agrees.{Agrees, AgreesOutcome}
use madkv.Fuzzer.History.Runs.{acknowledge-Agrees, maxtr-acknowledge, new-Agrees}
use madkv.Fuzzer.Driver.{
  Loop, Turn, called, stopped, harvested, take_turn, settle, fuzz_loop, init_loop, total, fuzz_test,
}
use madkv.Fuzzer.Driver.Invariant.{Inv}
use madkv.Fuzzer.Driver.Steps.{TurnOk}
use madkv.Fuzzer.Driver.Turns.{take_turn-Ok}

bind_congr :
    {A B : Type 0} (Q : A → Type 0) (m : Outcome RunnerError A) (f g : A → Outcome RunnerError B)
    → Ensures Q m
    → ((a : A) → Q a → f a ≡ g a)
    → (m >>= f) ≡ (m >>= g)
bind_congr Q (done a) f g q k = k a q
bind_congr Q (fail e) f g q k = refl
bind_congr Q spin f g q k = refl
bind_congr Q panic f g q k = refl

module _ (rand : Rng) (bits : BitVecs) (clients : Clients) (total_ops n : ℕ)
    (small : 2 * total_ops < 2 ^ 64) where
  abbrev Vars : Type 0
  Vars = Loop rand bits clients

  abbrev Result₂ : Type 0
  Result₂ = Outcome RunnerError (Option (ℕ × Vars))

  abbrev continue : (Vars → History → Result₂) → Option (Vars × History) → Result₂
  continue loop none = done none
  continue loop (some (s, h)) = loop s h

  abbrev Settled : Type 0
  Settled = Outcome RunnerError (Option (Vars × History))

  -- What `settle` makes of the checker's answer.
  abbrev after_ack : Vars → Updated → Settled
  after_ack s x = x >>= λ r. elim r.0 [
    | none ↦ if total_ops / 100 == 0 then panic else done (some (s, r.1))
    | some failure ↦ done none
  ]

  after_ack-congr :
      (s : Vars) (x y : Updated) (loop loop_whole : Vars → History → Result₂)
      → AgreesOutcome x y
      → ((h w : History) → x ≡ done (none, h) → Agrees h w → loop s h ≡ loop_whole s w)
      → (after_ack s x >>= continue loop) ≡ (after_ack s y >>= continue loop_whole)
  after_ack-congr s (done (none, h)) (done (none, w)) f g k rec =
      elim (Bool-cases (total_ops / 100 == 0)) [
        | inl e ↦ rw (e, if◌then◌else◌)
        | inr e ↦ rw (e, if◌then◌else◌) (rec h w refl k.1)
      ]
  after_ack-congr s (done (some r, h)) (done (some r', w)) f g k rec = refl
  after_ack-congr s (done (none, h)) (done (some r', w)) f g k rec = cc k.0
  after_ack-congr s (done (some r, h)) (done (none, w)) f g k rec = cc k.0
  after_ack-congr s panic panic f g k rec = refl
  after_ack-congr s _ _ f g k rec = absurd k

  -- A turn, settled with either checker, is followed by the same.
  settle-congr :
      (t : Turn rand bits clients) (t₀ : ℕ) (h w : History)
      (loop loop_whole : Vars → History → Result₂)
      → Agrees h w
      → TurnOk rand bits clients total_ops n small h.maxtr t₀ t
      → ((s : Vars) (h' w' : History)
          → Agrees h' w'
          → Inv rand bits clients total_ops n h'.maxtr s
          → s.timestamp ≡ suc t₀
          → loop s h' ≡ loop_whole s w')
      → (settle rand bits clients apply_update total_ops t h >>= continue loop)
        ≡ (settle rand bits clients update_whole total_ops t w >>= continue loop_whole)
  unfolding settle
  settle-congr (called s) t₀ h w f g v ok rec = rec s h w v ok.0 ok.1
  settle-congr stopped t₀ h w f g v ok rec = refl
  settle-congr (harvested ack s) t₀ h w f g v ok rec =
      after_ack-congr s (acknowledge apply_update h ack) (acknowledge update_whole w ack) f g
        (acknowledge-Agrees h w v ack ok.0 (omega (arith, ok.1)) ok.2)
        (λ h' w' e v'.
          rec s h' w' v'
            (subst (λ m. Inv rand bits clients total_ops n m s)
              (sym (maxtr-acknowledge h w v ack ok.0 (omega (arith, ok.1)) ok.2 h' e)) ok.3)
            ok.4)

  -- With more rounds left than the clock can still tick, both checkers lead to the same end.
  loop-congr :
      (draws f g : ℕ) (keys : List (List Text)) (s : Vars) (h w : History)
      → Agrees h w
      → Inv rand bits clients total_ops n h.maxtr s
      → 2 * total_ops < f + s.timestamp
      → 2 * total_ops < g + s.timestamp
      → fuzz_loop rand bits clients apply_update draws total_ops f keys s h
        ≡ fuzz_loop rand bits clients update_whole draws total_ops g keys s w
  unfolding fuzz_loop queue_len
  loop-congr draws zero g keys s h w v inv p q =
      absurd (omega (arith, inv.clock, inv.calls, inv.waits))
  loop-congr draws (suc f) zero keys s h w v inv p q =
      absurd (omega (arith, inv.clock, inv.calls, inv.waits))
  loop-congr draws (suc f) (suc g) keys s h w v inv p q =
      elim (Bool-cases (ltb s.ops_waited total_ops)) [
        | inr e ↦
            rw (e, if◌then◌else◌) (ap (λ (q : List QueuedSpan). done (some (length q, s))) v.queue)
        | inl e ↦
            rw (e, if◌then◌else◌)
              (bind_congr _ (take_turn rand bits clients draws total_ops keys s) _ _
                (take_turn-Ok rand bits clients total_ops n small h.maxtr s inv draws keys
                  (ground arith))
                (λ t ok. settle-congr t s.timestamp h w _ _ v ok (λ s' h' w' v' inv' tick.
                  loop-congr draws f g keys s' h' w' v' inv' (omega arith) (omega arith))))
      ]

replicate-AtMost : (n c : ℕ) → AtMost (get_elem? (replicate n 0) c) 0
replicate-AtMost zero c = tt
replicate-AtMost (suc n) zero = omega arith
replicate-AtMost (suc n) (suc c) = replicate-AtMost n c

module _ (rand : Rng) (bits : BitVecs) (clients : Clients) where
  pub init_loop-Inv :
      (total_ops n : ℕ) (keys : List (List Text)) (stats : Stats) (rng : rand.State)
      (world : clients.World)
      → Inv rand bits clients total_ops n
          (new n keys).maxtr
          (init_loop rand bits clients n stats rng world)
  unfolding init_loop new
  init_loop-Inv total_ops n keys stats rng world = record {
    flags = bits.len-from_elem n false;
    memos = length-replicate n _;
    lasts = length-replicate n 0;
    clock = omega arith;
    calls = omega arith;
    waits = omega arith;
    quiet = λ c. replicate-AtMost n c;
    open_call = λ c h. absurd (
        let lt : c < n =
          omega
            (arith, bits.get-lt (bits.from_elem n false) c true h, bits.len-from_elem n false) in
        ground (arith, bits.get-from_elem n c false lt));
  }

  -- With more than twice as many rounds as there are operations, and less than 2^63 operations,
  -- `fuzz_test` ends in the same way (the same number of unchecked responses, failure, error, or
  -- draw of a client without end) as it would with a checker that keeps the whole history, and
  -- with any other number of rounds that is large enough.
  pub fuzz_test-whole :
      (draws f g num_ops num_clis : ℕ) (keys : List (List Text)) (stats : Stats) (rng : rand.State)
      (world : clients.World)
      → 2 * total num_ops num_clis < 2 ^ 64
      → 2 * total num_ops num_clis < f
      → 2 * total num_ops num_clis < g
      → fuzz_test rand bits clients apply_update draws f num_ops num_clis keys stats rng world
        ≡ fuzz_test rand bits clients update_whole draws g num_ops num_clis keys stats rng world
  unfolding fuzz_test
  fuzz_test-whole draws f g num_ops num_clis keys stats rng world small p q = rw (
      loop-congr rand bits clients (total num_ops num_clis) num_clis small draws f g keys
        (init_loop rand bits clients num_clis stats rng world) (new num_clis keys)
        (new num_clis keys) (new-Agrees num_clis keys)
        (init_loop-Inv (total num_ops num_clis) num_clis keys stats rng world)
        (unfold init_loop in omega arith) (unfold init_loop in omega arith))
