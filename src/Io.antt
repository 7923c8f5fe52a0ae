-- ===== src/Io.antt =====
-- What the sources use of `std::io`: a reader that is read line by line, and a writer that takes
-- whole lines. The input is the text that will come before the end of file or before an I/O error.
pub mod Lines
pub mod Split
use madkv.Prelude.{ℕ, ◌∷◌, [], ◌++◌, Bool, true, false, Option, none, some, ◌==◌, if◌then◌else◌}
use madkv.Prelude.Results.{Result, ok, err}
use madkv.Text.{Text, byte_len}

-- `fault`: the message of the error that comes after the pending text, if it is no end of file.
pub record Reader : Type 0 where
  pub pending : Text
  pub fault : Option Text

-- `fault`: the message of the error of every write, if the other end is gone.
pub record Writer : Type 0 where
  pub written : Text
  pub fault : Option Text

-- The text through the first newline, the text after it, and whether there is a newline.
unfoldable pub take_line : Text → Text × Text × Bool
take_line [] = ([], [], false)
take_line (c ∷ s) =
    let (line, rest, ended) = take_line s in
    if c == 10 then (c ∷ [], s, true) else (c ∷ line, rest, ended)

end_of_input : Option Text → Text → Text → Result Text (ℕ × Reader × Text)
end_of_input none line buffer =
    ok (byte_len line, record { pending = []; fault = none }, buffer ++ line)
end_of_input (some message) line buffer = err message

-- `reader.read_line(&mut buffer)`: appends a line to the buffer and returns its bytes, 0 at the
-- end of file.
unfoldable pub read_line : Reader → Text → Result Text (ℕ × Reader × Text)
unfolding take_line end_of_input
read_line r buffer =
    let (line, rest, ended) = take_line r.pending in
    if ended
    then ok (byte_len line, record r { pending = rest }, buffer ++ line)
    else end_of_input r.fault line buffer

write_to : Option Text → Writer → Text → Result Text Writer
write_to none w line = ok (record w { written = w.written ++ line })
write_to (some message) w line = err message

-- `writeln!(writer, …)`, the newline included in the text.
unfoldable pub write_line : Writer → Text → Result Text Writer
unfolding write_to
write_line w line = write_to w.fault w line
