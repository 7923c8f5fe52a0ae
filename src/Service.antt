-- ===== src/Service.antt =====
-- `main` of runner/src/bin/service/main.rs, after the arguments were parsed.
pub mod Launch
mod Tests
use madkv.Prelude.{
  ℕ, ◌+◌, List, [], ◌∷◌, ◌++◌, map, Bool, true, false, leb, ◌&&◌, ◌||◌, not, Option, none, some,
  if◌then◌else◌,
}
use madkv.Prelude.Results.{Result, and_then, Outcome, done, fail, panic, lift, ◌>>=◌}
use madkv.Text.{Text, codes, text_eq, is_empty, starts_with}
use madkv.Runner.Error.{RunnerError, parse, from_io}
use madkv.Runner.Proc.{server_wait}

pub record Args : Type 0 where
  pub node_id : Text
  pub server_just_args : List Text
  pub manager_just_args : List Text

-- `str::to_lowercase`, of the letters in ASCII. No other character becomes one of the letters of
-- `none`.
unfoldable pub to_lowercase : Text → Text
to_lowercase s = map (λ c. if leb 65 c && leb c 90 then c + 32 else c) s

-- `just_args[0].to_lowercase() != "none"`: an index out of range panics.
unfoldable pub is_given : List Text → Outcome RunnerError Bool
unfolding to_lowercase
is_given [] = panic
is_given (arg ∷ just_args) = done (not (text_eq (to_lowercase arg) (codes "none")))

-- `a && b`, where `b` is only evaluated if `a` holds.
and_also : Bool → Outcome RunnerError Bool → Outcome RunnerError Bool
and_also false b = done false
and_also true b = b

-- The `just` arguments of the process to launch, if there is one.
unfoldable pub choose : Args → Outcome RunnerError (Option (List Text))
unfolding is_given and_also
choose args =
    if is_empty args.node_id
      || (not (starts_with args.node_id (codes "s")) && not (starts_with args.node_id (codes "m")))
    then fail (parse (codes "invalid 'node_id' argument: " ++ args.node_id))
    else (do
      manager ← and_also (starts_with args.node_id (codes "m")) (is_given args.manager_just_args)
      if manager then done (some args.manager_just_args) else (do
        server ← and_also (starts_with args.node_id (codes "s")) (is_given args.server_just_args)
        done (if server then some args.server_just_args else none)))

-- The process: the result of its spawning, and how it exits (a success or not, and its status).
pub record Launched : Type 0 where
  pub spawned : Result Text (Unit {0})
  pub exited : Result Text (Bool × Text)

unfoldable pub launch : Args → (List Text → Launched) → Outcome RunnerError (Unit {0})
unfolding choose
launch args run = do
  chosen ← choose args
  elim chosen [
    | none ↦ done tt
    | some just_args ↦
        lift (and_then (from_io (run just_args).spawned) λ u. server_wait (run just_args).exited)
  ]
