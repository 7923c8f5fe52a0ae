-- ===== src/Bencher/Number.antt =====
-- What runner/src/bin/bencher/ycsb.rs uses of Rust's `str::parse::<usize>`.
use madkv.Prelude.{ℕ, ◌+◌, ◌-◌, ◌*◌, ◌^◌, Bool, ◌&&◌, ◌==◌, ltb, leb, [], ◌∷◌, if◌then◌else◌}
use madkv.Prelude.Results.{Result, ok, err}
use madkv.Text.{Text, codes, is_empty}

abbrev is_digit : ℕ → Bool
is_digit c = leb 48 c && leb c 57

-- The loop over the digits. The digit is looked at before the overflow.
parse_digits : ℕ → Text → Result Text ℕ
parse_digits n [] = ok n
parse_digits n (c ∷ s) =
    let rest = parse_digits (n * 10 + (c - 48)) s in
    if is_digit c
    then (if ltb (n * 10 + (c - 48)) (2 ^ 64)
        then rest
        else err (codes "number too large to fit in target type"))
    else err (codes "invalid digit found in string")

-- A leading plus sign is allowed, and digits have to follow.
unfoldable pub parse_usize : Text → Result Text ℕ
unfolding parse_digits
parse_usize [] = err (codes "cannot parse integer from empty string")
parse_usize (c ∷ s) =
    if c == 43
    then (if is_empty s then err (codes "invalid digit found in string") else parse_digits 0 s)
    else parse_digits 0 (c ∷ s)
