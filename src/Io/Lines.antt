-- ===== src/Io/Lines.antt =====
-- Reading a line that consists of words.
use madkv.Prelude.{
  subst, ap, length, ◌<◌, ◌≤◌, suc, none, some, ◌≡◌, refl, true, false, ◌∷◌, [], ◌++◌, arith, List,
  All, Option, ◌==◌, ℕ, append_assoc,
}
use madkv.Prelude.Results.{Result, ok, err}
use madkv.Text.{Text, is_whitespace, no_space, is_word, byte_len}
use madkv.Text.Split.{line_of, newline}
use madkv.Io.{Reader, take_line, read_line, end_of_input}

not_newline : (c : ℕ) → is_whitespace c ≡ false → (c == 10) ≡ false
not_newline c h = ground (arith, newline)

take_line-word :
    (w s : Text)
    → no_space w ≡ true
    → take_line (w ++ s) ≡ (w ++ (take_line s).0, (take_line s).1, (take_line s).2)
unfolding no_space take_line
take_line-word [] s h = refl
take_line-word (c ∷ w) s h = ground (arith, take_line-word w s, not_newline c)

no_space_of_word : (w : Text) → is_word w ≡ true → no_space w ≡ true
unfolding is_word
no_space_of_word w h = ground arith

pub take_line-space :
    (s : Text) → take_line (32 ∷ s) ≡ (32 ∷ (take_line s).0, (take_line s).1, (take_line s).2)
unfolding take_line
take_line-space s = refl

pub take_line-line_of :
    (w : Text) (ws : List Text) (rest : Text)
    → is_word w ≡ true
    → All (λ v. is_word v ≡ true) ws
    → take_line (line_of w ws ++ rest) ≡ (line_of w ws, rest, true)
unfolding line_of
take_line-line_of w [] rest h k =
    rw (append_assoc, take_line-word w (10 ∷ rest) (no_space_of_word w h))
      (unfold take_line in refl)
take_line-line_of w (v ∷ vs) rest h k =
    rw (append_assoc, take_line-word w (32 ∷ line_of v vs ++ rest) (no_space_of_word w h))
      (ground (arith, take_line-line_of v vs rest k.0 k.1, take_line-space (line_of v vs ++ rest)))

-- One line of the input, into a cleared buffer.
pub read_line-line :
    (line rest : Text) (fault : Option Text)
    → take_line (line ++ rest) ≡ (line, rest, true)
    → read_line (record { pending = line ++ rest; fault = fault }) []
      ≡ ok (byte_len line, record { pending = rest; fault = fault }, line)
unfolding read_line
read_line-line line rest fault h = ground arith

take_line-shorter : (s : Text) → length (take_line s).1 ≤ length s
unfolding take_line
take_line-shorter [] = omega arith
take_line-shorter (c ∷ s) = ground (arith, take_line-shorter s)

take_line-shorter_cons : (c : ℕ) (s : Text) → length (take_line (c ∷ s)).1 < suc (length s)
unfolding take_line
take_line-shorter_cons c s = ground (arith, take_line-shorter s)

abbrev size_of : Result Text (ℕ × Reader × Text) → ℕ
size_of (ok (size, r, line)) = size
size_of (err e) = 0

abbrev left_of : Result Text (ℕ × Reader × Text) → ℕ
left_of (ok (size, r, line)) = length r.pending
left_of (err e) = 0

shorter :
    (s : Text) (fault : Option Text)
    → (size_of (read_line (record { pending = s; fault = fault }) []) == 0) ≡ false
    → left_of (read_line (record { pending = s; fault = fault }) []) < length s
unfolding read_line end_of_input
shorter [] none h = absurd (unfold take_line byte_len in ground (arith, h))
shorter [] (some m) h = cc
shorter (c ∷ s) none h = ground (arith, take_line-shorter_cons c s)
shorter (c ∷ s) (some m) h = ground (arith, take_line-shorter_cons c s)

-- Unless it is the end of the input, a line read leaves less of it.
pub read_line-shorter :
    (r : Reader) (size : ℕ) (r' : Reader) (line : Text)
    → read_line r [] ≡ ok (size, r', line)
    → (size == 0) ≡ false
    → length r'.pending < length r.pending
read_line-shorter r size r' line e h =
    subst (λ n. n < length r.pending) (ap left_of e)
      (shorter r.pending r.fault (rw (ap size_of e) h))
