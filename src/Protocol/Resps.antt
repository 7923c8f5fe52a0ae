-- ===== src/Protocol/Resps.antt =====
-- The runner reads the responses that the reference client writes.
use madkv.Prelude.{
  ℕ, zero, suc, ◌<◌, ◌≤◌, ◌≡◌, refl, true, false, Bool, ◌∷◌, [], ◌++◌, arith, Option, none, some,
  List, All, sym, append_assoc, append-nil, length,
}
use madkv.Prelude.Results.{ok, done}
use madkv.Text.{Text, is_word, is_whitespace, split_whitespace, codes, text_eq, byte_len}
use madkv.Text.Split.{line_of}
use madkv.Io.{Writer}
use madkv.RefCli.Types.{KvResp, put, swap, get, scan, delete, stop}
use madkv.RefCli.Output.{write_response, found_word, value_or_null}
use madkv.Runner.Resp.{read_next_line, from_read, parse_found, parse_nullable, expect_next_seg}
use madkv.Protocol.Wire.{IsWord, IsWireOption, IsWireResp, to_runner}
use madkv.Protocol.Lines.{
  Line, line_of-Line, read_next_line-Line, entry_lines, end_line, resp_text,
  write_response-resp_text, read_entries-entry_lines,
}

-- The fuel that a response takes: one for each line after the first, and one more.
unfoldable pub resp_fuel : KvResp → ℕ
resp_fuel (scan key_start key_end entries) = suc (length entries)
resp_fuel _ = 1

resp_fuel-pos : (resp : KvResp) → 0 < resp_fuel resp
unfolding resp_fuel
resp_fuel-pos (scan key_start key_end entries) = omega arith
resp_fuel-pos _ = omega arith

found_word-parse : (found : Bool) → parse_found (found_word found) ≡ ok found
unfolding parse_found text_eq
found_word-parse true = refl
found_word-parse false = refl

found_word-IsWord : (found : Bool) → IsWord (found_word found)
unfolding is_word is_whitespace
found_word-IsWord true = refl
found_word-IsWord false = refl

null-parse : (o : Option Text) → IsWireOption o → parse_nullable (value_or_null o) ≡ o
unfolding parse_nullable text_eq
null-parse none h = refl
null-parse (some v) h = ground arith

null-IsWord : (o : Option Text) → IsWireOption o → IsWord (value_or_null o)
unfolding is_word is_whitespace
null-IsWord none h = refl
null-IsWord (some v) h = h.0

-- The segments of the first line, by the response.
head_words : KvResp → Text × List Text
head_words (put key found) = (codes "PUT", key ∷ found_word found ∷ [])
head_words (swap key old_value) = (codes "SWAP", key ∷ value_or_null old_value ∷ [])
head_words (get key value) = (codes "GET", key ∷ value_or_null value ∷ [])
head_words (scan key_start key_end entries) =
    (codes "SCAN", key_start ∷ key_end ∷ codes "BEGIN" ∷ [])
head_words (delete key found) = (codes "DELETE", key ∷ found_word found ∷ [])
head_words stop = (codes "STOP", [])

head_line : KvResp → Text
head_line resp = line_of (head_words resp).0 (head_words resp).1

head_words-IsWord :
    (resp : KvResp) → IsWireResp resp → IsWord (head_words resp).0 × All IsWord (head_words resp).1
unfolding head_words is_word is_whitespace
head_words-IsWord (put key found) h = (refl, (h, (found_word-IsWord found, tt)))
head_words-IsWord (swap key old_value) h = (refl, (h.0, (null-IsWord old_value h.1, tt)))
head_words-IsWord (get key value) h = (refl, (h.0, (null-IsWord value h.1, tt)))
head_words-IsWord (scan key_start key_end entries) h = (refl, (h.0, (h.1, (refl, tt))))
head_words-IsWord (delete key found) h = (refl, (h, (found_word-IsWord found, tt)))
head_words-IsWord stop h = (refl, tt)

head_line-Line :
    (resp : KvResp)
    → IsWireResp resp
    → Line (head_line resp) ((head_words resp).0 ∷ (head_words resp).1)
unfolding head_line
head_line-Line resp h =
    line_of-Line (head_words resp).0 (head_words resp).1 (head_words-IsWord resp h).0
      (head_words-IsWord resp h).1

-- What follows the first line.
tail_lines : KvResp → Text
tail_lines (scan key_start key_end entries) = entry_lines entries ++ end_line
tail_lines _ = []

resp_text-lines : (resp : KvResp) → resp_text resp ≡ head_line resp ++ tail_lines resp
unfolding resp_text head_line head_words tail_lines
resp_text-lines (scan key_start key_end entries) = refl
resp_text-lines resp = sym (append-nil (head_line resp))

pub last_line : KvResp → Text
last_line (scan key_start key_end entries) = end_line
last_line resp = head_line resp

module _ (fuel : ℕ) (resp : KvResp) (after buffer : Text) (fault : Option Text)
    (h : IsWireResp resp) where
  first_line :
      read_next_line (suc fuel) (record { pending = head_line resp ++ after; fault = fault }) buffer
      ≡ done (byte_len (head_line resp), record { pending = after; fault = fault }, head_line resp)
  first_line =
      read_next_line-Line fuel (head_line resp) after buffer (head_words resp).0 (head_words resp).1
        fault (head_line-Line resp h)

  first_segs : split_whitespace (head_line resp) ≡ (head_words resp).0 ∷ (head_words resp).1
  first_segs = (head_line-Line resp h).1

from_read-lines :
    (fuel : ℕ) (resp : KvResp) (rest buffer : Text) (fault : Option Text)
    → IsWireResp resp
    → resp_fuel resp ≤ suc fuel
    → from_read
        (suc fuel)
        (record { pending = head_line resp ++ (tail_lines resp ++ rest); fault = fault })
        buffer
      ≡ done (to_runner resp, record { pending = rest; fault = fault }, last_line resp)
unfolding from_read expect_next_seg to_runner head_words tail_lines last_line resp_fuel text_eq
from_read-lines fuel (put key found) rest buffer fault h f =
    let r : KvResp = put key found in
    rw (
      first_line fuel r rest buffer fault h,
      first_segs fuel r rest buffer fault h,
      found_word-parse found,
    )
from_read-lines fuel (swap key old_value) rest buffer fault h f =
    let r : KvResp = swap key old_value in
    rw (
      first_line fuel r rest buffer fault h,
      first_segs fuel r rest buffer fault h,
      null-parse old_value h.1,
    )
from_read-lines fuel (get key value) rest buffer fault h f =
    let r : KvResp = get key value in
    rw (
      first_line fuel r rest buffer fault h,
      first_segs fuel r rest buffer fault h,
      null-parse value h.1,
    )
from_read-lines fuel (scan key_start key_end entries) rest buffer fault h f =
    let r : KvResp = scan key_start key_end entries in
    rw (
      first_line fuel r ((entry_lines entries ++ end_line) ++ rest) buffer fault h,
      first_segs fuel r rest buffer fault h,
      append_assoc,
      read_entries-entry_lines fuel (suc fuel) entries rest (head_line r) fault h.2 f,
    )
from_read-lines fuel (delete key found) rest buffer fault h f =
    let r : KvResp = delete key found in
    rw (
      first_line fuel r rest buffer fault h,
      first_segs fuel r rest buffer fault h,
      found_word-parse found,
    )
from_read-lines fuel stop rest buffer fault h f =
    rw (first_line fuel stop rest buffer fault h, first_segs fuel stop rest buffer fault h)

pub from_read-resp_text :
    (fuel : ℕ) (resp : KvResp) (rest buffer : Text) (fault : Option Text)
    → IsWireResp resp
    → resp_fuel resp ≤ fuel
    → from_read fuel (record { pending = resp_text resp ++ rest; fault = fault }) buffer
      ≡ done (to_runner resp, record { pending = rest; fault = fault }, last_line resp)
from_read-resp_text zero resp rest buffer fault h f = absurd (omega (arith, resp_fuel-pos resp))
from_read-resp_text (suc fuel) resp rest buffer fault h f =
    rw (resp_text-lines resp, append_assoc) (from_read-lines fuel resp rest buffer fault h f)

-- A response whose keys and values are words, none of them the word `null`, and no entry of which
-- is `SCAN END`, is read back by the runner from what the client wrote, with fuel for its lines,
-- and the reader stands right after it.
pub write_response-from_read :
    (fuel : ℕ) (resp : KvResp) (w : Writer) (rest buffer : Text) (fault : Option Text)
    → IsWireResp resp
    → w.fault ≡ none
    → resp_fuel resp ≤ fuel
    → (text line : Text) × (write_response resp w ≡ ok (record w { written = w.written ++ text }))
      × (from_read fuel (record { pending = text ++ rest; fault = fault }) buffer
          ≡ done (to_runner resp, record { pending = rest; fault = fault }, line))
write_response-from_read fuel resp w rest buffer fault h k f = (
  resp_text resp,
  last_line resp,
  write_response-resp_text resp w k,
  from_read-resp_text fuel resp rest buffer fault h f,
)
