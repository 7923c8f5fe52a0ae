-- ===== src/Io/Split.antt =====
-- The lines of an input, and reading them one by one.
use madkv.Prelude.{
  ℕ, ◌≡◌, refl, subst, sym, ap, true, false, ◌⊎◌, ◌==◌, [], ◌∷◌, List, Option, none, some,
  if◌then◌else◌, Bool-cases, inl, inr, arith,
}
use madkv.Prelude.Results.{Result, ok, err}
use madkv.Text.{Text, byte_len}
use madkv.Io.{Reader, take_line, read_line, end_of_input}

-- A character put before the first of some lines.
abbrev on_first : ℕ → List Text → List Text
on_first c [] = (c ∷ []) ∷ []
on_first c (line ∷ rest) = (c ∷ line) ∷ rest

-- A text, split behind each newline.
unfoldable pub lines : Text → List Text
lines [] = []
lines (c ∷ s) = let rest = lines s in if c == 10 then (c ∷ []) ∷ rest else on_first c rest

lines_first :
    (c : ℕ) (s : Text) → lines (c ∷ s) ≡ (take_line (c ∷ s)).0 ∷ lines (take_line (c ∷ s)).1
unfolding lines take_line
lines_first c [] = ground arith
lines_first c (d ∷ s) = elim (Bool-cases (c == 10)) [
  | inl e ↦ rw (e, if◌then◌else◌) refl
  | inr e ↦ rw (e, if◌then◌else◌) (ap (on_first c) (lines_first d s))
]

positive : (c : ℕ) (s : Text) → (byte_len (c ∷ s) == 0) ≡ false
unfolding byte_len
positive c s = ground arith

line-cons : (c : ℕ) (s : Text) → (d : ℕ) × (line : Text) × ((take_line (c ∷ s)).0 ≡ d ∷ line)
unfolding take_line
line-cons c s = elim (Bool-cases (c == 10)) [
  | inl e ↦ (c, [], rw (e, if◌then◌else◌) refl)
  | inr e ↦ (c, (take_line s).0, rw (e, if◌then◌else◌) refl)
]

unended : (s : Text) → (take_line s).2 ≡ false → (take_line s).1 ≡ []
unfolding take_line
unended [] h = refl
unended (c ∷ s) h = ground (arith, unended s)

-- What reading a line tells of the lines.
First : Text → Result Text (ℕ × Reader × Text) → Type 0
First s (ok (size, r, line)) =
    (((size == 0) ≡ true) × (lines s ≡ []))
    ⊎ (((size == 0) ≡ false) × (lines s ≡ line ∷ lines r.pending))
First s (err e) = Unit

line-size : (c : ℕ) (s : Text) → (byte_len (take_line (c ∷ s)).0 == 0) ≡ false
line-size c s =
    let (d, line, e) = line-cons c s in
    subst (λ l. (byte_len l == 0) ≡ false) (sym e) (positive d line)

ended-First :
    (c : ℕ) (s : Text) (fault : Option Text)
    → (take_line (c ∷ s)).2 ≡ false
    → First (c ∷ s) (end_of_input fault (take_line (c ∷ s)).0 [])
unfolding First end_of_input
ended-First c s none e = inr (
  line-size c s,
  subst (λ t. lines (c ∷ s) ≡ (take_line (c ∷ s)).0 ∷ lines t) (unended (c ∷ s) e)
      (lines_first c s),
)
ended-First c s (some message) e = tt

read_line-First :
    (s : Text) (fault : Option Text)
    → First s (read_line (record { pending = s; fault = fault }) [])
unfolding read_line First
read_line-First [] none = unfold lines take_line byte_len end_of_input in inl (refl, refl)
read_line-First [] (some message) = unfold take_line end_of_input in tt
read_line-First (c ∷ s) fault = elim (Bool-cases (take_line (c ∷ s)).2) [
  | inl e ↦ rw (e, if◌then◌else◌) (inr (line-size c s, lines_first c s))
  | inr e ↦ rw (e, if◌then◌else◌) (ended-First c s fault e)
]

-- No line is left at the end of the input, and else the line that is read is the first.
pub read_line-lines :
    (r : Reader) (size : ℕ) (r' : Reader) (line : Text)
    → read_line r [] ≡ ok (size, r', line)
    → (((size == 0) ≡ true) × (lines r.pending ≡ []))
      ⊎ (((size == 0) ≡ false) × (lines r.pending ≡ line ∷ lines r'.pending))
unfolding First
read_line-lines r size r' line e = subst (First r.pending) e (read_line-First r.pending r.fault)
