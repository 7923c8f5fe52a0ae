-- ===== src/Bencher/Finishes.antt =====
-- The feeder thread of the bencher ends, and what it returns.
use madkv.Prelude.{
  ℕ, zero, suc, ◌<◌, ◌≡◌, refl, false, [], arith, Option, none, some, if◌then◌else◌, inl, inr, ◌⊎◌,
  length, subst, sym, ap, ◌∙◌,
}
use madkv.Prelude.Results.{ok, Outcome, done}
use madkv.Io.{Reader}
use madkv.Io.Split.{lines}
use madkv.Bencher.Inserted.{Inserts, Inserts-cons, nothing-Inserts}
use madkv.BTreeSet.{BTreeSet}
use madkv.Runner.Error.{RunnerError}
use madkv.Bencher.Words.{WordKeys}
use madkv.Bencher.Stats.{Floats, Stats, no_stats}
use madkv.Bencher.Feeder.{Client, Feeder, feed_a_line, feed_loop, feeder_thread, finish_feeder}
use madkv.Bencher.Advances.{Succeeds, Result-cases, Consumes, Advanced, feed_a_line-Advanced}

module _ (floats : Floats) (client : Client) where
  abbrev Finished :
      Feeder floats client → Outcome RunnerError (Option (Feeder floats client)) → Type 0
  Finished f o =
      (o ≡ done none)
      ⊎ ((f' : Feeder floats client) × (o ≡ done (some f'))
          × WordKeys f'.ikeys
          × Inserts (lines f.stdout.pending) f.ikeys f'.ikeys)

  feed_loop-more :
      (fuel : ℕ) (f f' : Feeder floats client)
      → feed_a_line floats client f ≡ ok f'
      → f'.ended ≡ false
      → feed_loop floats client (suc fuel) f ≡ feed_loop floats client fuel f'
  unfolding feed_loop
  feed_loop-more fuel f f' r more =
      rw (feed_loop, r) refl
      ∙ ap (λ ended. if ended then done (some f') else feed_loop floats client fuel f') more

  Finished-cons :
      (f f' : Feeder floats client) (o : Outcome RunnerError (Option (Feeder floats client)))
      → Consumes floats client f f'
      → Finished f' o
      → Finished f o
  Finished-cons f f' o step (inl none_left) = inl none_left
  Finished-cons f f' o (less, going, (line, parts, adds)) (inr (f'', e, w, inserts)) = inr (
    f'',
    e,
    w,
    subst (λ l. Inserts l f.ikeys f''.ikeys) (sym parts)
        (Inserts-cons line (lines f'.stdout.pending) f.ikeys f'.ikeys f''.ikeys adds inserts),
  )

  feed_loop-Finished :
      (fuel : ℕ) (f : Feeder floats client)
      → WordKeys f.ikeys
      → f.ended ≡ false
      → length f.stdout.pending < fuel
      → Finished f (feed_loop floats client fuel f)
  unfolding feed_loop
  feed_loop-Finished zero f w going h = absurd (omega arith)
  feed_loop-Finished (suc fuel) f w going h = elim (Result-cases (feed_a_line floats client f)) [
    | inr (e, r) ↦ inl (rw (feed_loop, r) refl)
    | inl (f', r) ↦
        let (w', advanced) =
          subst (Succeeds (Advanced floats client f)) r (feed_a_line-Advanced floats client f w) in
        elim advanced [
          | inl (ended, over, same) ↦ inr (
            f',
            rw (feed_loop, r, ended, if◌then◌else◌) refl,
            w',
            subst (λ l. Inserts l f.ikeys f'.ikeys) (sym over)
                (subst (Inserts [] f.ikeys) (sym same) (nothing-Inserts f.ikeys)),
          )
          | inr step ↦
              let more : f'.ended ≡ false = step.1 ∙ going in
              subst (Finished f) (sym (feed_loop-more fuel f f' r more)) (
                Finished-cons f f' (feed_loop floats client fuel f') step
                  (feed_loop-Finished fuel f' w' more (omega (arith, step.0, h))))
        ]
  ]

  -- With a round for each character of the driver's output and one more, the feeder thread ends:
  -- without a result, or with statistics that count one client and a set of keys that are words,
  -- among which are just the keys that it was given and those of the lines of the output that say
  -- INSERT, a table, an id and an opening bracket.
  pub feeder_thread-finishes :
      (fuel : ℕ) (stdout : Reader) (world : client.World) (ikeys : BTreeSet)
      → WordKeys ikeys
      → length stdout.pending < fuel
      → (feeder_thread floats client fuel stdout world ikeys ≡ done none)
        ⊎ ((stats : Stats floats) × (ikeys' : BTreeSet) × (feeder_thread floats client fuel stdout
                world ikeys
              ≡ done (some (stats, ikeys')))
            × (stats.merged ≡ 1)
            × WordKeys ikeys'
            × Inserts (lines stdout.pending) ikeys ikeys')
  unfolding feeder_thread finish_feeder
  feeder_thread-finishes fuel stdout world ikeys w h =
      let start : Feeder floats client = record {
        stdout = stdout;
        world = world;
        ikeys = ikeys;
        stats = no_stats floats;
        ended = false;
      } in
      elim (feed_loop-Finished fuel start w refl h) [
        | inl e ↦ inl (rw (feeder_thread, e) refl)
        | inr (f, e, w', inserts) ↦
            inr (
              record f.stats { merged = 1 },
              f.ikeys,
              rw (feeder_thread, e) refl,
              refl,
              w',
              inserts,
            )
      ]
