-- ===== src/Bencher/Advances.antt =====
-- What an iteration of the feeder thread of the bencher does to its input and its keys.
use madkv.Prelude.{
  ◌<◌, ◌≡◌, refl, true, [], Option, none, some, if◌then◌else◌, Bool-cases, inl, inr, ◌⊎◌, length,
  subst, sym, ◌∙◌, ◌∷◌,
}
use madkv.Prelude.Results.{Result, ok, err, and_then}
use madkv.Text.{Text, codes, is_empty, trim, starts_with, contains}
use madkv.Io.{Reader, read_line}
use madkv.Io.Lines.{read_line-shorter}
use madkv.Io.Split.{lines, read_line-lines}
use madkv.Bencher.Inserted.{Inserts, blank-Inserts, line-Inserts}
use madkv.BTreeSet.{BTreeSet}
use madkv.Runner.Error.{RunnerError, from_io}
use madkv.Runner.Call.{KvCall}
use madkv.Bencher.Words.{WordKeys, interpret-words}
use madkv.Bencher.Calls.{interpret_ycsb_call}
use madkv.Bencher.Stats.{Floats}
use madkv.Bencher.Feeder.{Client, Feeder, act_on_line, feed_a_line, record_ycsb_perf}

-- If the code succeeds, its result satisfies `P`.
abbrev pub Succeeds {ℓ κ μ} : {E : Type ℓ} {A : Type κ} → (A → Type μ) → Result E A → Type μ
Succeeds P (ok a) = P a
Succeeds P (err e) = Unit

and_then-Succeeds {ℓ κ μ ν} :
    {E : Type ℓ} {A : Type κ} {B : Type μ} (P : B → Type ν) (m : Result E A) (f : A → Result E B)
    → ((a : A) → m ≡ ok a → Succeeds P (f a))
    → Succeeds P (and_then m f)
and_then-Succeeds P (ok a) f h = h a refl
and_then-Succeeds P (err e) f h = tt

Succeeds-weaken {ℓ κ μ ν} :
    {E : Type ℓ} {A : Type κ} {P : A → Type μ} {Q : A → Type ν} (m : Result E A)
    → ((a : A) → P a → Q a)
    → Succeeds P m
    → Succeeds Q m
Succeeds-weaken (ok a) h p = h a p
Succeeds-weaken (err e) h p = tt

pub Result-cases {ℓ κ} :
    {E : Type ℓ} {A : Type κ} (m : Result E A) → ((a : A) × (m ≡ ok a)) ⊎ ((e : E) × (m ≡ err e))
Result-cases (ok a) = inl (a, refl)
Result-cases (err e) = inr (e, refl)

from_io-Succeeds {κ μ ν} :
    {A : Type κ} {B : Type μ} (P : B → Type ν) (m : Result Text A) (f : A → Result RunnerError B)
    → ((a : A) → m ≡ ok a → Succeeds P (f a))
    → Succeeds P (and_then (from_io m) f)
from_io-Succeeds P (ok a) f h = h a refl
from_io-Succeeds P (err e) f h = tt

module _ (floats : Floats) (client : Client) where
  -- What a line changes of the thread's variables, when it has been read and interpreted.
  abbrev Acted : Feeder floats client → BTreeSet → Feeder floats client → Type 0
  Acted f ikeys f' = (f'.ikeys ≡ ikeys) × (f'.stdout ≡ f.stdout) × (f'.ended ≡ f.ended)

  act_on_line-Acted :
      (line : Text) (f : Feeder floats client) (call : Option KvCall) (ikeys : BTreeSet)
      → Succeeds (Acted f ikeys) (act_on_line floats client line f (call, ikeys))
  unfolding act_on_line
  act_on_line-Acted line f (some call) ikeys =
      and_then-Succeeds _ (client.send_call f.world call) _
        λ sent e. and_then-Succeeds _ (client.wait_resp sent) _ λ r e'. (refl, refl, refl)
  act_on_line-Acted line f none ikeys = elim (Bool-cases (starts_with line (codes "["))) [
    | inl e ↦
        rw (e, if◌then◌else◌)
          (and_then-Succeeds _ (record_ycsb_perf floats line f.stats) _
            λ stats e'. (refl, refl, refl))
    | inr e ↦ elim (Bool-cases (contains line (codes "No such file"))) [
      | inl e' ↦ rw (e, e', if◌then◌else◌) tt
      | inr e' ↦ rw (e, e', if◌then◌else◌) (refl, refl, refl)
    ]
  ]

  -- A line that was not the last.
  abbrev pub Consumes : Feeder floats client → Feeder floats client → Type 0
  Consumes f f' =
      (length f'.stdout.pending < length f.stdout.pending)
      × (f'.ended ≡ f.ended)
      × ((line : Text) × (lines f.stdout.pending ≡ line ∷ lines f'.stdout.pending)
          × Inserts (line ∷ []) f.ikeys f'.ikeys)

  -- What an iteration does: the input is at its end, or has a line less.
  abbrev pub Advanced : Feeder floats client → Feeder floats client → Type 0
  Advanced f f' =
      WordKeys f'.ikeys
      × (((f'.ended ≡ true) × (lines f.stdout.pending ≡ []) × (f'.ikeys ≡ f.ikeys)) ⊎ Consumes f f')

  acted :
      (f read : Feeder floats client) (line : Text) (call : Option KvCall) (ikeys : BTreeSet)
      → WordKeys ikeys
      → Consumes f (record read { ikeys = ikeys })
      → Succeeds (Advanced f) (act_on_line floats client line read (call, ikeys))
  acted f read line call ikeys w (less, going, (first, parts, adds)) =
      Succeeds-weaken (act_on_line floats client line read (call, ikeys))
        (λ f' (same_keys, same_input, same_end). (
          subst WordKeys (sym same_keys) w,
          inr (
            subst (λ (r : Reader). length r.pending < length f.stdout.pending) (sym same_input)
                less,
            same_end ∙ going,
            (
              first,
              subst (λ (r : Reader). lines f.stdout.pending ≡ first ∷ lines r.pending)
                  (sym same_input) parts,
              subst (Inserts (first ∷ []) f.ikeys) (sym same_keys) adds,
            ),
          ),
        ))
        (act_on_line-Acted line read call ikeys)

  pub feed_a_line-Advanced :
      (f : Feeder floats client)
      → WordKeys f.ikeys
      → Succeeds (Advanced f) (feed_a_line floats client f)
  unfolding feed_a_line
  feed_a_line-Advanced f w =
      from_io-Succeeds (Advanced f) (read_line f.stdout []) _ λ (size, stdout, line) e.
        elim (read_line-lines f.stdout size stdout line e) [
          | inl (z, over) ↦ rw (z, if◌then◌else◌) (w, inl (refl, over, refl))
          | inr (z, parts) ↦
              let less = read_line-shorter f.stdout size stdout line e z in
              elim (Bool-cases (is_empty (trim line))) [
                | inl b ↦
                    rw (z, b, if◌then◌else◌)
                      (w, inr (less, refl, (line, parts, blank-Inserts line f.ikeys b)))
                | inr b ↦
                    rw (z, b, if◌then◌else◌)
                      (and_then-Succeeds (Advanced f) (interpret_ycsb_call line f.ikeys) _
                        λ (call, ikeys) i.
                          acted f (record f { stdout = stdout }) line call ikeys
                            (interpret-words line f.ikeys ikeys call w i).1
                            (less, refl, (line, parts, line-Inserts line f.ikeys ikeys call i)))
              ]
        ]
