-- ===== src/Bencher/Words.antt =====
-- What the keys and values of the calls are that the bencher makes of YCSB's lines.
use madkv.Prelude.{
  ◌≡◌, refl, true, false, List, [], ◌∷◌, ◌++◌, Option, none, some, arith, if◌then◌else◌, subst, ◌+◌,
  ◌-◌, ◌%◌, ◌^◌, get_elem?, ℕ, zero, suc, ◌⊎◌, inl, inr, Bool-cases, All, Option-cases,
}
use madkv.Prelude.Results.{Result, ok, err, and_then}
use madkv.Text.{Text, codes, text_eq, is_word, is_whitespace, no_space, is_empty, split_whitespace}
use madkv.Text.Split.{split_whitespace-All}
use madkv.BTree.{insert}
use madkv.BTreeSet.{BTreeSet, range_from, last_key}
use madkv.Runner.Error.{RunnerError}
use madkv.Runner.Call.{KvCall, put, swap, scan}
use madkv.Protocol.Wire.{IsWord, IsWireCall}
use madkv.Bencher.Number.{parse_usize}
use madkv.Bencher.Calls.{
  interpret_ycsb_call, interpret_segs, insert_arm, update_arm, read_arm, scan_arm, from_parse_int,
  parse_ycsb_key, parse_ycsb_value, parse_ycsb_scnt, join_segs, scan_end, nth_key,
}

-- A word, or nothing.
abbrev pub IsValue : Text → Type 0
IsValue value = (value ≡ []) ⊎ IsWord value

-- The arguments are words, but for a value, which may be empty.
abbrev pub IsYcsbCall : Option KvCall → Type 0
IsYcsbCall none = Unit
IsYcsbCall (some (put key value)) = IsWord key × IsValue value
IsYcsbCall (some (swap key value)) = IsWord key × IsValue value
IsYcsbCall (some call) = IsWireCall call

-- All keys of a set are words.
abbrev pub WordKeys : BTreeSet → Type 0
WordKeys set = All (λ (e : Text × Unit). IsWord e.0) set

Sound : Result RunnerError (Option KvCall × BTreeSet) → Type 0
Sound (ok (call, ikeys)) = IsYcsbCall call × WordKeys ikeys
Sound (err e) = Unit

no_space-append : (s t : Text) → no_space s ≡ true → no_space t ≡ true → no_space (s ++ t) ≡ true
unfolding no_space
no_space-append [] t h k = k
no_space-append (c ∷ s) t h k = ground (arith, no_space-append s t)

underscore : is_whitespace 95 ≡ false
unfolding is_whitespace
underscore = refl

no_space_of_word : (s : Text) → is_word s ≡ true → no_space s ≡ true
unfolding is_word
no_space_of_word s h = ground arith

key-IsWord : (table id : Text) → IsWord table → IsWord id → IsWord (table ++ (95 ∷ id))
unfolding is_word no_space is_empty
key-IsWord [] id h k = cc
key-IsWord (c ∷ table) id h k = ground (arith, underscore, no_space-append table (95 ∷ id))

first-IsWord : (s : Text) → no_space s ≡ true → IsWord (95 ∷ s)
unfolding is_word no_space is_empty
first-IsWord s h = ground (arith, underscore)

join-no_space : (segs : List Text) → All IsWord segs → no_space (join_segs segs) ≡ true
unfolding join_segs no_space
join-no_space [] h = refl
join-no_space (seg ∷ segs) h = ground (
  arith,
  underscore,
  no_space-append seg (join_segs segs) (no_space_of_word seg h.0) (join-no_space segs h.1),
)

join-IsValue : (segs : List Text) → All IsWord segs → IsValue (join_segs segs)
unfolding join_segs
join-IsValue [] h = inl refl
join-IsValue (seg ∷ segs) h = inr (
    first-IsWord (seg ++ join_segs segs)
      (no_space-append seg (join_segs segs) (no_space_of_word seg h.0) (join-no_space segs h.1)))

insert-WordKeys :
    (set : BTreeSet) (key : Text) → IsWord key → WordKeys set → WordKeys (insert set key tt)
unfolding insert
insert-WordKeys [] key h w = (h, tt)
insert-WordKeys ((k, v) ∷ set) key h w = ground (arith, insert-WordKeys set key h w.1)

range_from-All : (set : BTreeSet) (start : Text) → WordKeys set → All IsWord (range_from set start)
unfolding range_from
range_from-All [] start w = tt
range_from-All ((k, v) ∷ set) start w = ground (arith, range_from-All set start w.1)

get_elem?-All :
    (xs : List Text) (n : ℕ) (x : Text) → All IsWord xs → get_elem? xs n ≡ some x → IsWord x
get_elem?-All [] n x w h = cc
get_elem?-All (y ∷ xs) zero x w h = ground arith
get_elem?-All (y ∷ xs) (suc n) x w h = get_elem?-All xs n x w.1 h

last_key-IsWord : (k : Text) (set : BTreeSet) → IsWord k → WordKeys set → IsWord (last_key k set)
unfolding last_key
last_key-IsWord k [] h w = h
last_key-IsWord k ((j, v) ∷ set) h w = last_key-IsWord j set w.0 w.1

insert_arm-Sound :
    (segs : List Text) (ikeys : BTreeSet)
    → All IsWord segs
    → WordKeys ikeys
    → Sound (insert_arm segs ikeys)
unfolding Sound insert_arm parse_ycsb_key parse_ycsb_value
insert_arm-Sound [] ikeys h w = tt
insert_arm-Sound (table ∷ []) ikeys h w = tt
insert_arm-Sound (table ∷ id ∷ []) ikeys h w = tt
insert_arm-Sound (table ∷ id ∷ seg ∷ segs) ikeys (t, (i, (b, h))) w =
    elim (Bool-cases (text_eq seg (codes "["))) [
      | inl e ↦
          rw (e, if◌then◌else◌)
            (
              (key-IsWord table id t i, join-IsValue segs h),
              insert-WordKeys ikeys (table ++ (95 ∷ id)) (key-IsWord table id t i) w,
            )
      | inr e ↦ rw (e, if◌then◌else◌) tt
    ]

update_arm-Sound :
    (segs : List Text) (ikeys : BTreeSet)
    → All IsWord segs
    → WordKeys ikeys
    → Sound (update_arm segs ikeys)
unfolding Sound update_arm parse_ycsb_key parse_ycsb_value
update_arm-Sound [] ikeys h w = tt
update_arm-Sound (table ∷ []) ikeys h w = tt
update_arm-Sound (table ∷ id ∷ []) ikeys h w = tt
update_arm-Sound (table ∷ id ∷ seg ∷ segs) ikeys (t, (i, (b, h))) w =
    elim (Bool-cases (text_eq seg (codes "["))) [
      | inl e ↦ rw (e, if◌then◌else◌) ((key-IsWord table id t i, join-IsValue segs h), w)
      | inr e ↦ rw (e, if◌then◌else◌) tt
    ]

read_arm-Sound :
    (segs : List Text) (ikeys : BTreeSet)
    → All IsWord segs
    → WordKeys ikeys
    → Sound (read_arm segs ikeys)
unfolding Sound read_arm parse_ycsb_key
read_arm-Sound [] ikeys h w = tt
read_arm-Sound (table ∷ []) ikeys h w = tt
read_arm-Sound (table ∷ id ∷ segs) ikeys h w = (key-IsWord table id h.0 h.1.0, w)

nth_key-IsWord :
    (first : Text) (rest : BTreeSet) (start : Text) (scnt : ℕ)
    → WordKeys ((first, tt) ∷ rest)
    → IsWord (nth_key first rest start scnt)
unfolding nth_key
nth_key-IsWord first rest start scnt w =
    let keys = range_from ((first, tt) ∷ rest) start in
    let n = (scnt + (2 ^ 64 - 1)) % 2 ^ 64 in
    elim (Option-cases (get_elem? keys n)) [
      | inl e ↦ rw (nth_key, e) (last_key-IsWord first rest w.0 w.1)
      | inr (key, e) ↦
          rw (nth_key, e) (get_elem?-All keys n key (range_from-All ((first, tt) ∷ rest) start w) e)
    ]

zzzzzzzz : IsWord (codes "zzzzzzzz")
unfolding is_word no_space is_empty is_whitespace
zzzzzzzz = refl

scan_arm-Sound :
    (segs : List Text) (ikeys : BTreeSet)
    → All IsWord segs
    → WordKeys ikeys
    → Sound (scan_arm segs ikeys)
unfolding Sound scan_arm parse_ycsb_key scan_end parse_ycsb_scnt
scan_arm-Sound [] ikeys h w = tt
scan_arm-Sound (table ∷ []) ikeys h w = tt
scan_arm-Sound (table ∷ id ∷ segs) [] h w = ((key-IsWord table id h.0 h.1.0, zzzzzzzz), w)
scan_arm-Sound (table ∷ id ∷ []) ((first, v) ∷ rest) h w = tt
scan_arm-Sound (table ∷ id ∷ seg ∷ segs) ((first, v) ∷ rest) h w =
    elim (parse_usize seg)
      as (λ n. Sound (
        and_then
          (and_then (from_parse_int n) λ scnt. ok (nth_key first rest (table ++ (95 ∷ id)) scnt))
          λ key_end. ok (some (scan (table ++ (95 ∷ id)) key_end), (first, v) ∷ rest))) [
            | ok scnt ↦ (
              (
                key-IsWord table id h.0 h.1.0,
                nth_key-IsWord first rest (table ++ (95 ∷ id)) scnt w,
              ),
              w,
            )
            | err e ↦ tt
          ]

interpret_segs-Sound :
    (segs : List Text) (ikeys : BTreeSet)
    → All IsWord segs
    → WordKeys ikeys
    → Sound (interpret_segs segs ikeys)
unfolding Sound interpret_segs
interpret_segs-Sound [] ikeys h w = (tt, w)
interpret_segs-Sound (word ∷ segs) ikeys h w = ground (
  arith,
  insert_arm-Sound segs ikeys h.1 w,
  update_arm-Sound segs ikeys h.1 w,
  read_arm-Sound segs ikeys h.1 w,
  scan_arm-Sound segs ikeys h.1 w,
)

-- Over a set of keys that are words, whatever call `interpret_ycsb_call` makes of a line has words
-- as its arguments, but for a value, which may also be empty, and the keys of the set after it are
-- words again.
pub interpret-words :
    (line : Text) (ikeys ikeys' : BTreeSet) (call : Option KvCall)
    → WordKeys ikeys
    → interpret_ycsb_call line ikeys ≡ ok (call, ikeys')
    → IsYcsbCall call × WordKeys ikeys'
unfolding interpret_ycsb_call Sound
interpret-words line ikeys ikeys' call w e =
    subst Sound e (interpret_segs-Sound (split_whitespace line) ikeys (split_whitespace-All line) w)
