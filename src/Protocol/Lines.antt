-- ===== src/Protocol/Lines.antt =====
-- The lines of a response: what the client writes, and how the runner reads one of them.
use madkv.Prelude.{
  ℕ, zero, suc, ◌<◌, ◌≡◌, ◌≢◌, refl, true, false, Bool-cases, inl, inr, ◌∷◌, [], ◌++◌, arith,
  Option, none, List, All, ap, sym, append_assoc, append-nil, length, ◌&&◌, ◌∙◌,
}
use madkv.Prelude.Results.{ok, done}
use madkv.Text.{Text, is_word, is_whitespace, trim, split_whitespace, codes, text_eq, byte_len}
use madkv.Text.Split.{line_of, split_whitespace-line_of, split_whitespace-space, space}
use madkv.Text.Trim.{split_whitespace-trim, not_blank_of_segment}
use madkv.Text.Eq.{text_eq→≡, text_eq_iff}
use madkv.Io.{Writer, take_line, write_line}
use madkv.Io.Lines.{take_line-line_of, read_line-line, take_line-space}
use madkv.RefCli.Types.{KvResp, put, swap, get, scan, delete, stop}
use madkv.RefCli.Output.{write_entries, write_response, found_word, value_or_null}
use madkv.Runner.Resp.{read_next_line, read_entries, expect_next_seg}
use madkv.Protocol.Wire.{IsWord, IsWireEntry}

-- Of one line, `line`: how the reader goes on after it, and its segments.
abbrev pub Line : Text → List Text → Type 0
Line line ws =
    ((rest : Text) → take_line (line ++ rest) ≡ (line, rest, true)) × (split_whitespace line ≡ ws)

pub line_of-Line :
    (w : Text) (ws : List Text) → IsWord w → All IsWord ws → Line (line_of w ws) (w ∷ ws)
line_of-Line w ws h k = (λ rest. take_line-line_of w ws rest h k, split_whitespace-line_of w ws h k)

indent-Line : (line : Text) (ws : List Text) → Line line ws → Line (32 ∷ line) ws
indent-Line line ws l =
    (λ rest. rw (take_line-space, l.0 rest), rw (split_whitespace-space line 32 space) l.1)

pub read_next_line-Line :
    (fuel : ℕ) (line rest buffer w : Text) (ws : List Text) (fault : Option Text)
    → Line line (w ∷ ws)
    → read_next_line (suc fuel) (record { pending = line ++ rest; fault = fault }) buffer
      ≡ done (byte_len line, record { pending = rest; fault = fault }, line)
unfolding read_next_line
read_next_line-Line fuel line rest buffer w ws fault l =
    ground (arith, read_line-line line rest fault (l.0 rest), not_blank_of_segment line w ws l.1)

unfoldable pub entry_line : Text × Text → Text
entry_line (k, v) = 32 ∷ 32 ∷ line_of k (v ∷ [])

unfoldable pub entry_lines : List (Text × Text) → Text
unfolding entry_line
entry_lines [] = []
entry_lines (e ∷ es) = entry_line e ++ entry_lines es

unfoldable pub end_line : Text
end_line = line_of (codes "SCAN") (codes "END" ∷ [])

-- The lines of a response.
unfoldable pub resp_text : KvResp → Text
unfolding entry_lines entry_line end_line
resp_text (put key found) = line_of (codes "PUT") (key ∷ found_word found ∷ [])
resp_text (swap key old_value) = line_of (codes "SWAP") (key ∷ value_or_null old_value ∷ [])
resp_text (get key value) = line_of (codes "GET") (key ∷ value_or_null value ∷ [])
resp_text (scan key_start key_end entries) =
    line_of (codes "SCAN") (key_start ∷ key_end ∷ codes "BEGIN" ∷ [])
    ++ (entry_lines entries ++ end_line)
resp_text (delete key found) = line_of (codes "DELETE") (key ∷ found_word found ∷ [])
resp_text stop = line_of (codes "STOP") []

write_entries-entry_lines :
    (entries : List (Text × Text)) (w : Writer)
    → w.fault ≡ none
    → write_entries entries w ≡ ok (record w { written = w.written ++ entry_lines entries })
unfolding write_entries write_line entry_lines entry_line line_of
write_entries-entry_lines [] w h = rw append-nil
write_entries-entry_lines ((k, v) ∷ entries) w h = ground (
  arith,
  write_entries-entry_lines entries (record w { written = w.written ++ (entry_line (k, v)) }),
  append_assoc w.written (entry_line (k, v)) (entry_lines entries),
)

-- The client writes exactly the lines of the response.
pub write_response-resp_text :
    (resp : KvResp) (w : Writer)
    → w.fault ≡ none
    → write_response resp w ≡ ok (record w { written = w.written ++ resp_text resp })
unfolding write_response write_line resp_text line_of end_line
write_response-resp_text (scan key_start key_end entries) w h =
    let head = line_of (codes "SCAN") (key_start ∷ key_end ∷ codes "BEGIN" ∷ []) in
    ground (
      arith,
      write_entries-entry_lines entries (record w { written = w.written ++ head }),
      append_assoc w.written head (entry_lines entries ++ end_line),
      append_assoc (w.written ++ head) (entry_lines entries) end_line,
    )
write_response-resp_text resp w h = ground arith

end_words : split_whitespace (codes "SCAN END") ≡ codes "SCAN" ∷ codes "END" ∷ []
unfolding split_whitespace is_whitespace
end_words = refl

not_end_words :
    (k v : Text)
    → (text_eq k (codes "SCAN") && text_eq v (codes "END")) ≡ false
    → k ∷ v ∷ [] ≢ codes "SCAN" ∷ codes "END" ∷ []
not_end_words k v h e = ground (arith, text_eq_iff k (codes "SCAN"), text_eq_iff v (codes "END"))

entry_line-Line : (k v : Text) → IsWireEntry (k, v) → Line (entry_line (k, v)) (k ∷ v ∷ [])
unfolding entry_line
entry_line-Line k v h = indent-Line _ _ (indent-Line _ _ (line_of-Line k (v ∷ []) h.0 (h.1, tt)))

not_end_line :
    (k v : Text)
    → IsWireEntry (k, v)
    → text_eq (trim (entry_line (k, v))) (codes "SCAN END") ≡ false
not_end_line k v h = elim (Bool-cases (text_eq (trim (entry_line (k, v))) (codes "SCAN END"))) [
  | inr e ↦ e
  | inl e ↦ absurd (
      not_end_words k v h.2 (
        sym (entry_line-Line k v h).1
        ∙ (sym (split_whitespace-trim (entry_line (k, v)))
            ∙ (ap split_whitespace (text_eq→≡ _ _ e) ∙ end_words))))
]

end_line-Line : Line end_line (codes "SCAN" ∷ codes "END" ∷ [])
unfolding end_line is_word is_whitespace
end_line-Line = line_of-Line (codes "SCAN") (codes "END" ∷ []) refl (refl, tt)

is_end_line : text_eq (trim end_line) (codes "SCAN END") ≡ true
unfolding end_line line_of trim is_whitespace text_eq
is_end_line = refl

-- With fuel for one line more than the entries, the loop reads them all and the end line.
pub read_entries-entry_lines :
    (lines fuel : ℕ) (entries : List (Text × Text)) (rest buffer : Text) (fault : Option Text)
    → All IsWireEntry entries
    → length entries < fuel
    → read_entries
        (suc lines)
        fuel
        (record { pending = entry_lines entries ++ (end_line ++ rest); fault = fault })
        buffer
      ≡ done (entries, record { pending = rest; fault = fault }, end_line)
unfolding read_entries expect_next_seg entry_lines
read_entries-entry_lines lines zero entries rest buffer fault h f = absurd (omega arith)
read_entries-entry_lines lines (suc fuel) [] rest buffer fault h f = ground (
  arith,
  read_next_line-Line lines end_line rest buffer (codes "SCAN") (codes "END" ∷ []) fault
      end_line-Line,
  is_end_line,
)
read_entries-entry_lines lines (suc fuel) ((k, v) ∷ entries) rest buffer fault h f =
    let after = entry_lines entries ++ (end_line ++ rest) in
    ground (
      arith,
      append_assoc (entry_line (k, v)) (entry_lines entries) (end_line ++ rest),
      read_next_line-Line lines (entry_line (k, v)) after buffer k (v ∷ []) fault
          (entry_line-Line k v h.0),
      not_end_line k v h.0,
      (entry_line-Line k v h.0).1,
      read_entries-entry_lines lines fuel entries rest (entry_line (k, v)) fault h.1,
    )
