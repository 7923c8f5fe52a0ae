-- ===== src/Protocol/Calls.antt =====
-- The reference client reads the calls that the runner writes.
use madkv.Prelude.{ℕ, suc, ◌≡◌, refl, true, ◌∷◌, [], ◌++◌, arith, Option, none, List, All}
use madkv.Prelude.Results.{ok, done}
use madkv.Text.{Text, is_word, is_whitespace, trim, split_whitespace, codes, text_eq}
use madkv.Text.Split.{line_of, split_whitespace-line_of}
use madkv.Text.Trim.{split_whitespace-trim, not_blank_of_segment}
use madkv.Io.{Writer, take_line, write_line}
use madkv.Io.Lines.{take_line-line_of, read_line-line}
use madkv.Runner.Call.{KvCall, put, swap, get, scan, delete, stop, call_line, into_write}
use madkv.RefCli.Input.{skip_blank, parse_input_call, expect_next_seg}
use madkv.Protocol.Wire.{IsWord, IsWireCall, to_client}

call_words : KvCall → Text × List Text
call_words (put key value) = (codes "PUT", key ∷ value ∷ [])
call_words (swap key value) = (codes "SWAP", key ∷ value ∷ [])
call_words (get key) = (codes "GET", key ∷ [])
call_words (scan key_start key_end) = (codes "SCAN", key_start ∷ key_end ∷ [])
call_words (delete key) = (codes "DELETE", key ∷ [])
call_words stop = (codes "STOP", [])

call_line-words : (c : KvCall) → call_line c ≡ line_of (call_words c).0 (call_words c).1
unfolding call_line call_words line_of
call_line-words (put key value) = refl
call_line-words _ = refl

call_words-IsWord :
    (c : KvCall) → IsWireCall c → IsWord (call_words c).0 × All IsWord (call_words c).1
unfolding call_words is_word is_whitespace
call_words-IsWord (put key value) h = (refl, (h.0, (h.1, tt)))
call_words-IsWord (swap key value) h = (refl, (h.0, (h.1, tt)))
call_words-IsWord (get key) h = (refl, (h, tt))
call_words-IsWord (scan key_start key_end) h = (refl, (h.0, (h.1, tt)))
call_words-IsWord (delete key) h = (refl, (h, tt))
call_words-IsWord stop h = (refl, tt)

skip_blank-line :
    (fuel : ℕ) (line rest w : Text) (ws : List Text) (fault : Option Text)
    → take_line (line ++ rest) ≡ (line, rest, true)
    → split_whitespace line ≡ w ∷ ws
    → skip_blank (suc fuel) (record { pending = line ++ rest; fault = fault }) []
      ≡ done (record { pending = rest; fault = fault }, line)
unfolding skip_blank
skip_blank-line fuel line rest w ws fault h k =
    ground (arith, read_line-line line rest fault h, not_blank_of_segment line w ws k)

take_line-call_line :
    (c : KvCall) (rest : Text)
    → IsWireCall c
    → take_line (call_line c ++ rest) ≡ (call_line c, rest, true)
take_line-call_line c rest h = rw (call_line-words c) (
    take_line-line_of (call_words c).0 (call_words c).1 rest (call_words-IsWord c h).0
      (call_words-IsWord c h).1)

split_whitespace-call_line :
    (c : KvCall)
    → IsWireCall c
    → split_whitespace (call_line c) ≡ (call_words c).0 ∷ (call_words c).1
split_whitespace-call_line c h = rw (call_line-words c) (
    split_whitespace-line_of (call_words c).0 (call_words c).1 (call_words-IsWord c h).0
      (call_words-IsWord c h).1)

-- The reference client parses the line that the runner formats.
pub parse_input_call-call_line :
    (c : KvCall) → IsWireCall c → parse_input_call (trim (call_line c)) ≡ ok (to_client c)
unfolding parse_input_call expect_next_seg to_client call_words text_eq
parse_input_call-call_line (put key value) h =
    rw (split_whitespace-trim, split_whitespace-call_line (put key value) h)
parse_input_call-call_line c h = rw (split_whitespace-trim, split_whitespace-call_line c h)

-- The client's loop takes exactly the line of a call off its input.
pub skip_blank-call_line :
    (fuel : ℕ) (c : KvCall) (rest : Text) (fault : Option Text)
    → IsWireCall c
    → skip_blank (suc fuel) (record { pending = call_line c ++ rest; fault = fault }) []
      ≡ done (record { pending = rest; fault = fault }, call_line c)
skip_blank-call_line fuel c rest fault h =
    skip_blank-line fuel (call_line c) rest (call_words c).0 (call_words c).1 fault
      (take_line-call_line c rest h) (split_whitespace-call_line c h)

pub into_write-call_line :
    (c : KvCall) (w : Writer)
    → w.fault ≡ none
    → into_write c w ≡ ok (record w { written = w.written ++ call_line c })
unfolding into_write write_line
into_write-call_line c w h = ground arith

-- A call whose arguments are words, written by the runner, is taken off the client's input
-- as one line whatever follows it, and parses to the same call.
pub into_write-parse :
    (fuel : ℕ) (c : KvCall) (w : Writer) (rest : Text) (fault : Option Text)
    → IsWireCall c
    → w.fault ≡ none
    → (line : Text) × (into_write c w ≡ ok (record w { written = w.written ++ line }))
      × (skip_blank (suc fuel) (record { pending = line ++ rest; fault = fault }) []
          ≡ done (record { pending = rest; fault = fault }, line))
      × (parse_input_call (trim line) ≡ ok (to_client c))
into_write-parse fuel c w rest fault h k = (
  call_line c,
  into_write-call_line c w k,
  skip_blank-call_line fuel c rest fault h,
  parse_input_call-call_line c h,
)
