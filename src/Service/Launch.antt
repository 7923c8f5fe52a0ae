-- ===== src/Service/Launch.antt =====
-- What the launcher launches, by the first character of the node's name.
use madkv.Prelude.{
  ℕ, ◌≡◌, refl, ◌==◌, ==_iff, List, [], ◌∷◌, ◌++◌, true, false, Option, none, some, if◌then◌else◌,
  Bool-cases, inl, inr, arith, Bool, ◌||◌, ◌&&◌, ◌+◌, ◌≤◌, leb,
}
use madkv.Prelude.Results.{Outcome, done, fail, panic}
use madkv.Text.{Text, codes, text_eq, is_empty, starts_with}
use madkv.Runner.Error.{RunnerError, parse}
use madkv.Service.{Args, to_lowercase, is_given, and_also, choose}

-- The letter whose capital is the second character, in either case.
abbrev is_letter : ℕ → ℕ → Bool
is_letter c capital = (c == capital) || (c == capital + 32)

-- The word `none`, of which each letter is in either case.
abbrev pub is_none : Text → Bool
is_none (c ∷ d ∷ e ∷ f ∷ []) =
    is_letter c 78 && (is_letter d 79 && (is_letter e 78 && is_letter f 69))
is_none _ = false

-- The arguments of a kind of node, unless they are turned off; without any the launcher panics.
abbrev pub given : List Text → Outcome RunnerError (Option (List Text))
given [] = panic
given (arg ∷ just_args) = done (if is_none arg then none else some (arg ∷ just_args))

-- By the node's first character.
abbrev pub decided : Text → List Text → List Text → Outcome RunnerError (Option (List Text))
decided [] server manager = fail (parse (codes "invalid 'node_id' argument: "))
decided (c ∷ name) server manager =
    if c == 109
    then given manager
    else if c == 115
    then given server
    else fail (parse (codes "invalid 'node_id' argument: " ++ (c ∷ name)))

abbrev args_of : Text → List Text → List Text → Args
args_of node_id server manager = record {
  node_id = node_id;
  server_just_args = server;
  manager_just_args = manager;
}

not_both : (c : ℕ) → (c == 109) ≡ true → (c == 115) ≡ false
not_both c h = ground (arith, ==_iff c 109, ==_iff c 115)

starts_with-char : (c : ℕ) (name : Text) (d : ℕ) → starts_with (c ∷ name) (d ∷ []) ≡ (c == d)
unfolding starts_with
starts_with-char c [] d = ground arith
starts_with-char c (x ∷ name) d = ground arith

-- A character in lower case is a given one of the small letters.
lower_letter :
    (c capital : ℕ)
    → 65 ≤ capital
    → capital ≤ 90
    → ((if leb 65 c && leb c 90 then c + 32 else c) == (capital + 32)) ≡ is_letter c capital
lower_letter c capital low high = ground arith

&&-false : (b : Bool) → b && false ≡ false
&&-false true = refl
&&-false false = refl

&&-true : (b : Bool) → b && true ≡ b
&&-true true = refl
&&-true false = refl

to_lowercase-none : (s : Text) → text_eq (to_lowercase s) (codes "none") ≡ is_none s
unfolding to_lowercase text_eq
to_lowercase-none [] = refl
to_lowercase-none (c ∷ []) = &&-false _
to_lowercase-none (c ∷ d ∷ []) = rw (&&-false, &&-false) refl
to_lowercase-none (c ∷ d ∷ e ∷ []) = rw (&&-false, &&-false, &&-false) refl
to_lowercase-none (c ∷ d ∷ e ∷ f ∷ []) =
    rw
      (
        lower_letter c 78 (omega arith) (omega arith),
        lower_letter d 79 (omega arith) (omega arith),
        lower_letter e 78 (omega arith) (omega arith),
        lower_letter f 69 (omega arith) (omega arith),
        &&-true,
      )
      refl
to_lowercase-none (c ∷ d ∷ e ∷ f ∷ g ∷ s) = rw (&&-false, &&-false, &&-false, &&-false) refl

given-manager :
    (c : ℕ) (name : Text) (server manager : List Text)
    → (c == 109) ≡ true
    → choose (args_of (c ∷ name) server manager) ≡ given manager
unfolding choose is_given and_also is_empty
given-manager c name server [] h =
    rw (starts_with-char c name 115, starts_with-char c name 109, h, not_both c h) refl
given-manager c name server (arg ∷ just_args) h = elim (Bool-cases (is_none arg)) [
  | inl e ↦
      rw
        (
          starts_with-char c name 115,
          starts_with-char c name 109,
          h,
          not_both c h,
          to_lowercase-none arg,
          e,
        )
        refl
  | inr e ↦
      rw
        (
          starts_with-char c name 115,
          starts_with-char c name 109,
          h,
          not_both c h,
          to_lowercase-none arg,
          e,
        )
        refl
]

given-server :
    (c : ℕ) (name : Text) (server manager : List Text)
    → (c == 109) ≡ false
    → (c == 115) ≡ true
    → choose (args_of (c ∷ name) server manager) ≡ given server
unfolding choose is_given and_also is_empty
given-server c name [] manager h k =
    rw (starts_with-char c name 115, starts_with-char c name 109, h, k) refl
given-server c name (arg ∷ just_args) manager h k = elim (Bool-cases (is_none arg)) [
  | inl e ↦
      rw (starts_with-char c name 115, starts_with-char c name 109, h, k, to_lowercase-none arg, e)
        refl
  | inr e ↦
      rw (starts_with-char c name 115, starts_with-char c name 109, h, k, to_lowercase-none arg, e)
        refl
]

choose_parts :
    (node_id : Text) (server manager : List Text)
    → choose (args_of node_id server manager) ≡ decided node_id server manager
unfolding choose is_empty
choose_parts [] server manager = refl
choose_parts (c ∷ name) server manager = elim (Bool-cases (c == 109)) [
  | inl e ↦ rw (e, if◌then◌else◌) (given-manager c name server manager e)
  | inr e ↦ elim (Bool-cases (c == 115)) [
    | inl f ↦ rw (e, f, if◌then◌else◌) (given-server c name server manager e f)
    | inr f ↦ rw (starts_with-char c name 115, starts_with-char c name 109, e, f) refl
  ]
]

-- The launcher takes the arguments for a manager if the node's name begins with `m`, those for a
-- server if it begins with `s`, launches nothing if the first of them is the word `none`, of which
-- each letter is in either case, panics if there are none, and rejects every other name, the empty
-- one among them.
pub choose-decided :
    (args : Args) → choose args ≡ decided args.node_id args.server_just_args args.manager_just_args
choose-decided args = choose_parts args.node_id args.server_just_args args.manager_just_args
