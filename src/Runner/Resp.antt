-- ===== src/Runner/Resp.antt =====
-- `KvResp` of runner/src/ioapi.rs: the responses, and how the runner reads one from a client's
-- output.
use madkv.Prelude.{
  ℕ, zero, suc, ◌∷◌, [], ◌++◌, Bool, true, false, Option, none, some, List, if◌then◌else◌,
}
use madkv.Prelude.Results.{Result, ok, err, Outcome, done, spin, fail, lift, and_then, ◌>>=◌}
use madkv.Text.{Text, codes, text_eq, is_empty, trim, split_whitespace}
use madkv.Io.{Reader, read_line}
use madkv.Runner.Error.{RunnerError, io, parse, from_io}

pub data KvResp : Type 0 where
  put : Text → Bool → KvResp
  swap : Text → Option Text → KvResp
  get : Text → Option Text → KvResp
  scan : Text → Text → List (Text × Text) → KvResp
  delete : Text → Bool → KvResp
  stop : KvResp

-- The loop of `read_next_line`, which appends to the buffer until it is not blank. `spin` when
-- the fuel is out.
unfoldable pub skip_blank : ℕ → Reader → Text → Outcome RunnerError (ℕ × Reader × Text)
skip_blank zero r buffer = spin
skip_blank (suc fuel) r buffer = do
  (size, r', line) ← lift (from_io (read_line r buffer))
  let again = skip_blank fuel r' line
  if is_empty (trim line) then again else done (size, r', line)

-- `buffer.clear()`, then the loop
unfoldable pub read_next_line : ℕ → Reader → Text → Outcome RunnerError (ℕ × Reader × Text)
unfolding skip_blank
read_next_line fuel r buffer = skip_blank fuel r []

unfoldable pub invalid_line : Text → RunnerError
invalid_line buffer = io (codes "invalid line: " ++ buffer)

-- The segment, and the iterator moved on.
unfoldable pub expect_next_seg : List Text → Text → Result RunnerError (Text × List Text)
unfolding invalid_line
expect_next_seg [] buffer = err (invalid_line buffer)
expect_next_seg (seg ∷ segs) buffer = ok (seg, segs)

-- The block of the field `found`, of PUT and DELETE.
unfoldable pub parse_found : Text → Result RunnerError Bool
parse_found found =
    if text_eq found (codes "found")
    then ok true
    else if text_eq found (codes "not_found")
    then ok false
    else err (parse (codes "invalid 'found' field: " ++ found))

-- The block of the fields `old_value` of SWAP and `value` of GET.
unfoldable pub parse_nullable : Text → Option Text
parse_nullable value = if text_eq value (codes "null") then none else some value

read_found : (Text → Bool → KvResp) → List Text → Text → Result RunnerError KvResp
read_found make segs buffer = and_then (expect_next_seg segs buffer) λ key_segs.
    and_then (expect_next_seg key_segs.1 buffer)
      λ found_segs. and_then (parse_found found_segs.0) λ found. ok (make key_segs.0 found)

read_nullable : (Text → Option Text → KvResp) → List Text → Text → Result RunnerError KvResp
read_nullable make segs buffer = and_then (expect_next_seg segs buffer) λ key_segs.
    and_then (expect_next_seg key_segs.1 buffer)
      λ value_segs. ok (make key_segs.0 (parse_nullable value_segs.0))

-- The two segments of a line within a SCAN response.
read_entry : Text → Result RunnerError (Text × Text)
read_entry buffer = and_then (expect_next_seg (split_whitespace buffer) buffer) λ key_segs.
    and_then (expect_next_seg key_segs.1 buffer) λ value_segs. ok (key_segs.0, value_segs.0)

-- The loop over the lines of a SCAN response; `lines` is the fuel of each `read_next_line`.
unfoldable pub read_entries :
    ℕ → ℕ → Reader → Text → Outcome RunnerError (List (Text × Text) × Reader × Text)
unfolding read_entry
read_entries lines zero r buffer = spin
read_entries lines (suc fuel) r buffer = do
  (_, r', line) ← read_next_line lines r buffer
  let more = do
    entry ← lift (read_entry line)
    (entries, r'', last) ← read_entries lines fuel r' line
    done (entry ∷ entries, r'', last)
  if text_eq (trim line) (codes "SCAN END") then done ([], r', line) else more

-- The segments of the first line of a SCAN response, up to BEGIN.
read_scan_head : List Text → Text → Result RunnerError (Text × Text)
read_scan_head segs buffer = and_then (expect_next_seg segs buffer) λ start.
    and_then (expect_next_seg start.1 buffer) λ end.
      and_then (expect_next_seg end.1 buffer) λ begin.
        if text_eq begin.0 (codes "BEGIN") then ok (start.0, end.0) else err (invalid_line buffer)

read_scan : ℕ → List Text → Reader → Text → Outcome RunnerError (KvResp × Reader × Text)
unfolding read_scan_head
read_scan fuel segs r buffer = do
  (key_start, key_end) ← lift (read_scan_head segs buffer)
  (entries, r', line) ← read_entries fuel fuel r buffer
  done (scan key_start key_end entries, r', line)

-- The arms of `from_read`; all but SCAN read no further line.
read_arm : ℕ → List Text → Reader → Text → Outcome RunnerError (KvResp × Reader × Text)
unfolding read_found read_nullable read_scan
read_arm fuel [] r buffer = fail (invalid_line buffer)
read_arm fuel (word ∷ segs) r buffer =
    if text_eq word (codes "PUT")
    then (do resp ← lift (read_found put segs buffer); done (resp, r, buffer))
    else if text_eq word (codes "SWAP")
    then (do resp ← lift (read_nullable swap segs buffer); done (resp, r, buffer))
    else if text_eq word (codes "GET")
    then (do resp ← lift (read_nullable get segs buffer); done (resp, r, buffer))
    else if text_eq word (codes "SCAN")
    then read_scan fuel segs r buffer
    else if text_eq word (codes "DELETE")
    then (do resp ← lift (read_found delete segs buffer); done (resp, r, buffer))
    else if text_eq word (codes "STOP")
    then done (stop, r, buffer)
    else fail (invalid_line buffer)

unfoldable pub from_read : ℕ → Reader → Text → Outcome RunnerError (KvResp × Reader × Text)
unfolding read_arm
from_read fuel r buffer = do
  (_, r', line) ← read_next_line fuel r buffer
  read_arm fuel (split_whitespace line) r' line
