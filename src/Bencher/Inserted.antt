-- ===== src/Bencher/Inserted.antt =====
-- The keys that the lines of YCSB's output insert, told from the output alone.
use madkv.Prelude.{
  ◌≡◌, refl, subst, true, false, Bool, ◌||◌, ◌&&◌, [], ◌∷◌, ◌++◌, List, Option, none, some,
  if◌then◌else◌, Bool-cases, inl, inr, arith,
}
use madkv.Prelude.Results.{Result, ok, err, and_then}
use madkv.Text.{Text, codes, text_eq, split_whitespace, is_empty, trim}
use madkv.Text.Trim.{is_empty-trim_iff}
use madkv.BTree.{contains_key}
use madkv.BTreeSet.{BTreeSet}
use madkv.Runner.Error.{RunnerError}
use madkv.Runner.Call.{KvCall, scan}
use madkv.Bencher.Phases.{contains_key-insert}
use madkv.Bencher.Calls.{
  interpret_ycsb_call, interpret_segs, insert_arm, update_arm, read_arm, scan_arm, parse_ycsb_key,
  parse_ycsb_value, scan_end,
}

-- The line says `INSERT`, a table, an id and an opening bracket, and these are the key's.
abbrev pub inserts_segs : Text → List Text → Bool
inserts_segs j (word ∷ table ∷ id ∷ bracket ∷ segs) =
    text_eq word (codes "INSERT") && (text_eq bracket (codes "[") && text_eq (table ++ (95 ∷ id)) j)
inserts_segs j _ = false

-- Some of the lines inserts the key.
abbrev pub any_inserts : Text → List Text → Bool
any_inserts j [] = false
any_inserts j (line ∷ rest) = inserts_segs j (split_whitespace line) || any_inserts j rest

-- What a line adds to the keys.
abbrev Adds : Text → BTreeSet → List Text → Result RunnerError (Option KvCall × BTreeSet) → Type 0
Adds j ikeys segs (ok (call, ikeys')) =
    contains_key ikeys' j ≡ contains_key ikeys j || inserts_segs j segs
Adds j ikeys segs (err e) = Unit

same_keys : (ikeys : BTreeSet) (j : Text) → contains_key ikeys j ≡ contains_key ikeys j || false
same_keys ikeys j = ground arith

insert_arm-Adds :
    (j word : Text) (segs : List Text) (ikeys : BTreeSet)
    → text_eq word (codes "INSERT") ≡ true
    → Adds j ikeys (word ∷ segs) (insert_arm segs ikeys)
unfolding insert_arm parse_ycsb_key parse_ycsb_value
insert_arm-Adds j word [] ikeys h = tt
insert_arm-Adds j word (table ∷ []) ikeys h = tt
insert_arm-Adds j word (table ∷ id ∷ []) ikeys h = tt
insert_arm-Adds j word (table ∷ id ∷ bracket ∷ segs) ikeys h =
    elim (Bool-cases (text_eq bracket (codes "["))) [
      | inl e ↦
          rw (e, if◌then◌else◌)
            (rw (h, e) (ground (arith, contains_key-insert ikeys (table ++ (95 ∷ id)) j)))
      | inr e ↦ rw (e, if◌then◌else◌) tt
    ]

-- The set is kept.
Keeps : BTreeSet → Result RunnerError (Option KvCall × BTreeSet) → Type 0
Keeps ikeys (ok (call, ikeys')) = ikeys' ≡ ikeys
Keeps ikeys (err e) = Unit

update_arm-Keeps : (segs : List Text) (ikeys : BTreeSet) → Keeps ikeys (update_arm segs ikeys)
unfolding Keeps update_arm parse_ycsb_key parse_ycsb_value
update_arm-Keeps [] ikeys = tt
update_arm-Keeps (table ∷ []) ikeys = tt
update_arm-Keeps (table ∷ id ∷ []) ikeys = tt
update_arm-Keeps (table ∷ id ∷ seg ∷ segs) ikeys = elim (Bool-cases (text_eq seg (codes "["))) [
  | inl e ↦ rw (e, if◌then◌else◌) refl
  | inr e ↦ rw (e, if◌then◌else◌) tt
]

read_arm-Keeps : (segs : List Text) (ikeys : BTreeSet) → Keeps ikeys (read_arm segs ikeys)
unfolding Keeps read_arm parse_ycsb_key
read_arm-Keeps [] ikeys = tt
read_arm-Keeps (table ∷ []) ikeys = tt
read_arm-Keeps (table ∷ id ∷ segs) ikeys = refl

scanned-Keeps :
    (key : Text) (ikeys : BTreeSet) (m : Result RunnerError Text)
    → Keeps ikeys (and_then m λ key_end. ok (some (scan key key_end), ikeys))
unfolding Keeps
scanned-Keeps key ikeys (ok key_end) = refl
scanned-Keeps key ikeys (err e) = tt

scan_arm-Keeps : (segs : List Text) (ikeys : BTreeSet) → Keeps ikeys (scan_arm segs ikeys)
unfolding scan_arm parse_ycsb_key
scan_arm-Keeps [] ikeys = unfold Keeps in tt
scan_arm-Keeps (table ∷ []) ikeys = unfold Keeps in tt
scan_arm-Keeps (table ∷ id ∷ segs) ikeys =
    scanned-Keeps (table ++ (95 ∷ id)) ikeys (scan_end ikeys (table ++ (95 ∷ id)) segs)

other_word :
    (j word : Text) (segs : List Text)
    → text_eq word (codes "INSERT") ≡ false
    → inserts_segs j (word ∷ segs) ≡ false
other_word j word [] h = refl
other_word j word (table ∷ []) h = refl
other_word j word (table ∷ id ∷ []) h = refl
other_word j word (table ∷ id ∷ bracket ∷ segs) h = rw h refl

Keeps-Adds :
    (j word : Text) (segs : List Text) (ikeys : BTreeSet)
    (r : Result RunnerError (Option KvCall × BTreeSet))
    → text_eq word (codes "INSERT") ≡ false
    → Keeps ikeys r
    → Adds j ikeys (word ∷ segs) r
unfolding Keeps
Keeps-Adds j word segs ikeys (ok (call, ikeys')) h k =
    rw (k, other_word j word segs h) (same_keys ikeys j)
Keeps-Adds j word segs ikeys (err e) h k = tt

if-Keeps :
    (b : Bool) (ikeys : BTreeSet) (m n : Result RunnerError (Option KvCall × BTreeSet))
    → Keeps ikeys m
    → Keeps ikeys n
    → Keeps ikeys (if b then m else n)
if-Keeps true ikeys m n h k = h
if-Keeps false ikeys m n h k = k

none-Keeps : (ikeys : BTreeSet) → Keeps ikeys (ok (none, ikeys))
unfolding Keeps
none-Keeps ikeys = refl

others-Keep :
    (word : Text) (segs : List Text) (ikeys : BTreeSet)
    → Keeps ikeys (
        if text_eq word (codes "UPDATE")
        then update_arm segs ikeys
        else if text_eq word (codes "READ")
        then read_arm segs ikeys
        else if text_eq word (codes "SCAN")
        then scan_arm segs ikeys
        else ok (none, ikeys))
others-Keep word segs ikeys = if-Keeps _ ikeys _ _ (update_arm-Keeps segs ikeys) (
    if-Keeps _ ikeys _ _ (read_arm-Keeps segs ikeys)
      (if-Keeps _ ikeys _ _ (scan_arm-Keeps segs ikeys) (none-Keeps ikeys)))

interpret_segs-Adds :
    (j : Text) (segs : List Text) (ikeys : BTreeSet) → Adds j ikeys segs (interpret_segs segs ikeys)
unfolding interpret_segs
interpret_segs-Adds j [] ikeys = same_keys ikeys j
interpret_segs-Adds j (word ∷ segs) ikeys = elim (Bool-cases (text_eq word (codes "INSERT"))) [
  | inl e ↦ rw (e, if◌then◌else◌) (insert_arm-Adds j word segs ikeys e)
  | inr e ↦
      Keeps-Adds j word segs ikeys (interpret_segs (word ∷ segs) ikeys) e
        (rw (e, if◌then◌else◌) (others-Keep word segs ikeys))
]

-- A line leaves the keys that were there, and the one that it inserts.
interpret-inserts :
    (j line : Text) (ikeys ikeys' : BTreeSet) (call : Option KvCall)
    → interpret_ycsb_call line ikeys ≡ ok (call, ikeys')
    → contains_key ikeys' j ≡ contains_key ikeys j || inserts_segs j (split_whitespace line)
unfolding interpret_ycsb_call
interpret-inserts j line ikeys ikeys' call e =
    subst (Adds j ikeys (split_whitespace line)) e
      (interpret_segs-Adds j (split_whitespace line) ikeys)

-- `keys'` has the keys of `keys`, and those that some of the lines inserts.
abbrev pub Inserts : List Text → BTreeSet → BTreeSet → Type 0
Inserts read keys keys' =
    (j : Text) → contains_key keys' j ≡ contains_key keys j || any_inserts j read

pub blank-Inserts :
    (line : Text) (keys : BTreeSet) → is_empty (trim line) ≡ true → Inserts (line ∷ []) keys keys
blank-Inserts line keys b j = rw ((is_empty-trim_iff line).0 b) (ground arith)

pub line-Inserts :
    (line : Text) (keys keys' : BTreeSet) (call : Option KvCall)
    → interpret_ycsb_call line keys ≡ ok (call, keys')
    → Inserts (line ∷ []) keys keys'
line-Inserts line keys keys' call i j = ground (arith, interpret-inserts j line keys keys' call i)

pub Inserts-cons :
    (line : Text) (rest : List Text) (keys₀ keys₁ keys₂ : BTreeSet)
    → Inserts (line ∷ []) keys₀ keys₁
    → Inserts rest keys₁ keys₂
    → Inserts (line ∷ rest) keys₀ keys₂
Inserts-cons line rest keys₀ keys₁ keys₂ h k j = ground (arith, h j, k j)

pub nothing-Inserts : (keys : BTreeSet) → Inserts [] keys keys
nothing-Inserts keys j = ground arith
