-- ===== src/RefCli/Input.antt =====
-- How refcli/src/main.rs reads a call.
use madkv.Prelude.{ℕ, zero, suc, ◌∷◌, [], ◌++◌, List, if◌then◌else◌}
use madkv.Prelude.Results.{Result, ok, err, and_then, Outcome, done, spin, lift, ◌>>=◌}
use madkv.Text.{Text, codes, text_eq, is_empty, trim, split_whitespace}
use madkv.Io.{Reader, read_line}
use madkv.RefCli.Types.{KvCall, put, swap, get, scan, delete, stop, IoError, invalid_input, other}

unfoldable pub invalid_line : Text → IoError
invalid_line line = invalid_input (codes "invalid input line: " ++ line)

unfoldable pub expect_next_seg : List Text → Text → Result IoError (Text × List Text)
unfolding invalid_line
expect_next_seg [] line = err (invalid_line line)
expect_next_seg (seg ∷ segs) line = ok (seg, segs)

one_arg : (Text → KvCall) → List Text → Text → Result IoError KvCall
one_arg make segs line = and_then (expect_next_seg segs line) λ key_segs. ok (make key_segs.0)

two_args : (Text → Text → KvCall) → List Text → Text → Result IoError KvCall
two_args make segs line = and_then (expect_next_seg segs line) λ key_segs.
    and_then (expect_next_seg key_segs.1 line) λ value_segs. ok (make key_segs.0 value_segs.0)

parse_arm : List Text → Text → Result IoError KvCall
unfolding one_arg two_args
parse_arm [] line = err (invalid_line line)
parse_arm (word ∷ segs) line =
    if text_eq word (codes "PUT")
    then two_args put segs line
    else if text_eq word (codes "SWAP")
    then two_args swap segs line
    else if text_eq word (codes "GET")
    then one_arg get segs line
    else if text_eq word (codes "SCAN")
    then two_args scan segs line
    else if text_eq word (codes "DELETE")
    then one_arg delete segs line
    else if text_eq word (codes "STOP")
    then ok stop
    else err (invalid_line line)

unfoldable pub parse_input_call : Text → Result IoError KvCall
unfolding parse_arm
parse_input_call line = parse_arm (split_whitespace line) line

abbrev pub from_io {ℓ} : {A : Type ℓ} → Result Text A → Result IoError A
from_io (ok a) = ok a
from_io (err message) = err (other message)

-- The inner loop of `main`, over a buffer that was cleared before it. `spin` when the fuel is out.
unfoldable pub skip_blank : ℕ → Reader → Text → Outcome IoError (Reader × Text)
skip_blank zero r buffer = spin
skip_blank (suc fuel) r buffer = do
  (_, r', line) ← lift (from_io (read_line r buffer))
  let again = skip_blank fuel r' line
  if is_empty (trim line) then again else done (r', line)
