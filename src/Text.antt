-- ===== src/Text.antt =====
-- The texts of the program (`String`, `&str`) as lists of Unicode code points, and what the
-- sources use of Rust's `str`: `==`, `<`, `<=`, `split_whitespace`, `trim`, `is_empty`,
-- `starts_with`, `contains`. Rust compares strings by their UTF-8 bytes, which is the order by
-- code points.
pub mod Split
pub mod Order
pub mod Eq
pub mod Trim
use Prim.Native.Char.{code}
use Prim.Native.String
use madkv.Prelude.{
  ℕ, ◌+◌, Bool, true, false, ◌&&◌, ◌||◌, not, List, [], ◌∷◌, ltb, leb, ◌==◌, if◌then◌else◌, String,
}

abbrev pub Text : Type 0
Text = List ℕ

-- The text that a literal stands for.
abbrev pub codes : String → Text
codes String.[] = []
codes (String.◌∷◌ c s) = code c ∷ codes s

unfoldable pub text_eq : Text → Text → Bool
text_eq [] [] = true
text_eq [] (d ∷ t) = false
text_eq (c ∷ s) [] = false
text_eq (c ∷ s) (d ∷ t) = c == d && text_eq s t

-- `s < t`
unfoldable pub text_lt : Text → Text → Bool
text_lt [] [] = false
text_lt [] (d ∷ t) = true
text_lt (c ∷ s) [] = false
text_lt (c ∷ s) (d ∷ t) = ltb c d || (c == d && text_lt s t)

-- `s <= t`
abbrev pub text_le : Text → Text → Bool
text_le s t = not (text_lt t s)

-- The property White_Space of Unicode, by which Rust's `char::is_whitespace` goes.
unfoldable pub is_whitespace : ℕ → Bool
is_whitespace c =
    (leb 9 c && leb c 13)
    || (c == 32)
    || (c == 0x85)
    || (c == 0xa0)
    || (c == 0x1680)
    || (leb 0x2000 c && leb c 0x200a)
    || (c == 0x2028)
    || (c == 0x2029)
    || (c == 0x202f)
    || (c == 0x205f)
    || (c == 0x3000)

-- No character is whitespace.
unfoldable pub no_space : Text → Bool
no_space [] = true
no_space (c ∷ s) = not (is_whitespace c) && no_space s

unfoldable pub is_empty : Text → Bool
is_empty [] = true
is_empty (c ∷ s) = false

-- A segment that `split_whitespace` can yield.
unfoldable pub is_word : Text → Bool
unfolding no_space is_empty
is_word s = not (is_empty s) && no_space s

-- Adds a segment that may be empty, which is then left out.
push_segment : Text → List Text → List Text
push_segment [] ws = ws
push_segment (c ∷ w) ws = (c ∷ w) ∷ ws

-- The segment that a text begins with, possibly empty, and the segments after it.
segments : Text → Text × List Text
segments [] = ([], [])
segments (c ∷ s) =
    let (w, ws) = segments s in if is_whitespace c then ([], push_segment w ws) else (c ∷ w, ws)

unfoldable pub split_whitespace : Text → List Text
unfolding push_segment segments
split_whitespace s = let (w, ws) = segments s in push_segment w ws

trim_start : Text → Text
trim_start [] = []
trim_start (c ∷ s) = let rest = trim_start s in if is_whitespace c then rest else c ∷ s

trim_end : Text → Text
trim_end [] = []
trim_end (c ∷ s) =
    let rest = trim_end s in if is_whitespace c && is_empty rest then [] else c ∷ rest

unfoldable pub trim : Text → Text
unfolding trim_start trim_end is_empty
trim s = trim_end (trim_start s)

-- The number of bytes of a text, in UTF-8.
char_len : ℕ → ℕ
char_len c = if ltb c 0x80 then 1 else if ltb c 0x800 then 2 else if ltb c 0x10000 then 3 else 4

unfoldable pub byte_len : Text → ℕ
unfolding char_len
byte_len [] = 0
byte_len (c ∷ s) = char_len c + byte_len s

unfoldable pub starts_with : Text → Text → Bool
starts_with s [] = true
starts_with [] (d ∷ t) = false
starts_with (c ∷ s) (d ∷ t) = c == d && starts_with s t

unfoldable pub contains : Text → Text → Bool
unfolding starts_with
contains [] t = is_empty t
contains (c ∷ s) t = starts_with (c ∷ s) t || contains s t
