-- ===== src/Bencher/Calls.antt =====
-- How runner/src/bin/bencher/ycsb.rs translates a line of the YCSB driver to a call.
use madkv.Prelude.{
  ℕ, ◌+◌, ◌-◌, ◌%◌, ◌^◌, List, [], ◌∷◌, ◌++◌, Option, none, some, if◌then◌else◌, get_elem?,
}
use madkv.Prelude.Results.{Result, ok, err, and_then}
use madkv.Text.{Text, codes, text_eq, split_whitespace}
use madkv.BTree.{insert}
use madkv.BTreeSet.{BTreeSet, range_from, last_key}
use madkv.Runner.Error.{RunnerError, parse}
use madkv.Runner.Call.{KvCall, put, swap, get, scan}
use madkv.Bencher.Number.{parse_usize}

-- The key, and the iterator moved on.
unfoldable pub parse_ycsb_key : List Text → Result RunnerError (Text × List Text)
parse_ycsb_key [] = err (parse (codes "missing key segment"))
parse_ycsb_key (table ∷ []) = err (parse (codes "missing key segment"))
parse_ycsb_key (table ∷ id ∷ segs) = ok (table ++ (95 ∷ id), segs)

-- The loop over the segments of a value.
unfoldable pub join_segs : List Text → Text
join_segs [] = []
join_segs (seg ∷ segs) = 95 ∷ seg ++ join_segs segs

unfoldable pub parse_ycsb_value : List Text → Result RunnerError Text
unfolding join_segs
parse_ycsb_value [] = err (parse (codes "no value start bracket"))
parse_ycsb_value (seg ∷ segs) =
    if text_eq seg (codes "[")
    then ok (join_segs segs)
    else err (parse (codes "no value start bracket"))

-- `From<num::ParseIntError>`, which `?` applies
abbrev pub from_parse_int {ℓ} : {A : Type ℓ} → Result Text A → Result RunnerError A
from_parse_int (ok a) = ok a
from_parse_int (err message) = err (parse message)

unfoldable pub parse_ycsb_scnt : List Text → Result RunnerError ℕ
parse_ycsb_scnt [] = err (parse (codes "missing scan count"))
parse_ycsb_scnt (seg ∷ segs) = from_parse_int (parse_usize seg)

-- `nth(scnt - 1)` over the keys from the start on, or else the last key. In a release build
-- `scnt - 1` wraps.
unfoldable pub nth_key : Text → BTreeSet → Text → ℕ → Text
nth_key first rest key_start scnt =
    elim (get_elem? (range_from ((first, tt) ∷ rest) key_start) ((scnt + (2 ^ 64 - 1)) % 2 ^ 64)) [
      | none ↦ last_key first rest
      | some key ↦ key
    ]

-- The block of `key_end`.
unfoldable pub scan_end : BTreeSet → Text → List Text → Result RunnerError Text
unfolding nth_key parse_ycsb_scnt
scan_end [] key_start segs = ok (codes "zzzzzzzz")
scan_end ((first, v) ∷ rest) key_start segs =
    and_then (parse_ycsb_scnt segs) λ scnt. ok (nth_key first rest key_start scnt)

abbrev pub Translated : Type 0
Translated = Result RunnerError (Option KvCall × BTreeSet)

unfoldable pub insert_arm : List Text → BTreeSet → Translated
unfolding parse_ycsb_key parse_ycsb_value
insert_arm segs ikeys = and_then (parse_ycsb_key segs) λ key.
    and_then (parse_ycsb_value key.1) λ value. ok (some (put key.0 value), insert ikeys key.0 tt)

unfoldable pub update_arm : List Text → BTreeSet → Translated
unfolding parse_ycsb_key parse_ycsb_value
update_arm segs ikeys =
    and_then (parse_ycsb_key segs)
      λ key. and_then (parse_ycsb_value key.1) λ value. ok (some (swap key.0 value), ikeys)

unfoldable pub read_arm : List Text → BTreeSet → Translated
unfolding parse_ycsb_key
read_arm segs ikeys = and_then (parse_ycsb_key segs) λ key. ok (some (get key.0), ikeys)

unfoldable pub scan_arm : List Text → BTreeSet → Translated
unfolding parse_ycsb_key scan_end
scan_arm segs ikeys =
    and_then (parse_ycsb_key segs)
      λ key. and_then (scan_end ikeys key.0 key.1) λ key_end. ok (some (scan key.0 key_end), ikeys)

-- The `match` on the first segment.
unfoldable pub interpret_segs : List Text → BTreeSet → Translated
unfolding insert_arm update_arm read_arm scan_arm
interpret_segs [] ikeys = ok (none, ikeys)
interpret_segs (word ∷ segs) ikeys =
    if text_eq word (codes "INSERT")
    then insert_arm segs ikeys
    else if text_eq word (codes "UPDATE")
    then update_arm segs ikeys
    else if text_eq word (codes "READ")
    then read_arm segs ikeys
    else if text_eq word (codes "SCAN")
    then scan_arm segs ikeys
    else ok (none, ikeys)

unfoldable pub interpret_ycsb_call : Text → BTreeSet → Translated
unfolding interpret_segs
interpret_ycsb_call line ikeys = interpret_segs (split_whitespace line) ikeys
