-- ===== src/Bencher/ScanCount.antt =====
-- How many entries the scans of the bencher return.
use madkv.Prelude.{
  subst, sym, ℕ, zero, suc, ◌+◌, ◌-◌, ◌%◌, ◌^◌, ◌≤◌, ◌<◌, ◌≡◌, refl, true, false, List, [], ◌∷◌,
  ◌++◌, some, arith, get_elem?, length,
}
use madkv.Prelude.Results.{ok, done, panic}
use madkv.Text.{Text, codes, text_eq, text_lt, split_whitespace}
use madkv.Text.Order.{text_lt_irrefl, text_lt_asymm}
use madkv.BTree.{BTree, range}
use madkv.BTree.Sorted.{Above, IsSorted}
use madkv.BTreeSet.{BTreeSet, range_from, last_key, key_set}
use madkv.Runner.Call
use madkv.RefCli.Types.{KvCall, KvResp}
use madkv.RefCli.Main.{State, handle_kv_call}
use madkv.Bencher.Number.{parse_usize}
use madkv.Bencher.Calls.{interpret_ycsb_call, parse_ycsb_key, scan_end, nth_key, interpret_segs}

module _ {ℓ} {V : Type ℓ} where
  -- The keys from a start on are above what all keys are above, and not below the start.
  key-Above :
      (k start : Text) (m : BTree V) (n : ℕ) (e : Text)
      → Above k m
      → get_elem? (range_from (key_set m) start) n ≡ some e
      → text_lt k e ≡ true
  unfolding range_from key_set
  key-Above k start [] n e a h = cc
  key-Above k start ((j, v) ∷ m) zero e a h = ground (arith, key-Above k start m zero e)
  key-Above k start ((j, v) ∷ m) (suc n) e a h =
      ground (arith, key-Above k start m n e, key-Above k start m (suc n) e)

  key_from :
      (start : Text) (m : BTree V) (n : ℕ) (e : Text)
      → get_elem? (range_from (key_set m) start) n ≡ some e
      → text_lt e start ≡ false
  unfolding range_from key_set
  key_from start [] n e h = cc
  key_from start ((j, v) ∷ m) zero e h = ground (arith, key_from start m zero e)
  key_from start ((j, v) ∷ m) (suc n) e h =
      ground (arith, key_from start m n e, key_from start m (suc n) e)

  -- No key lies before one that all are above.
  range-Above_end : (start k : Text) (m : BTree V) → Above k m → range m start k ≡ []
  unfolding range
  range-Above_end start k [] a = refl
  range-Above_end start k ((j, v) ∷ m) a =
      ground (arith, text_lt_asymm k j, range-Above_end start k m a.1)

  -- Up to the key of index `n`, that one excluded, a range has `n` entries.
  length-range :
      (start : Text) (m : BTree V) (n : ℕ) (e : Text)
      → IsSorted m
      → get_elem? (range_from (key_set m) start) n ≡ some e
      → length (range m start e) ≡ n
  unfolding range range_from key_set
  length-range start [] n e s h = cc
  length-range start ((k, v) ∷ m) zero e s h =
      ground
        (arith, text_lt_irrefl k, range-Above_end start k m s.0, length-range start m zero e s.1)
  length-range start ((k, v) ∷ m) (suc n) e s h = ground (
    arith,
    key-Above k start m n e s.0,
    length-range start m n e s.1,
    length-range start m (suc n) e s.1,
  )

-- If no key is from the start on, all are before it.
last_key-before :
    (start : Text) (k : Text) (set : BTreeSet)
    → text_lt k start ≡ true
    → range_from set start ≡ []
    → text_lt (last_key k set) start ≡ true
unfolding last_key range_from
last_key-before start k [] h e = h
last_key-before start k ((j, v) ∷ set) h e = ground (arith, last_key-before start j set)

get_elem?-some : (xs : List Text) (n : ℕ) → n < length xs → (x : Text) × (get_elem? xs n ≡ some x)
get_elem?-some [] n h = absurd (omega arith)
get_elem?-some (x ∷ xs) zero h = (x, refl)
get_elem?-some (x ∷ xs) (suc n) h = get_elem?-some xs n (omega arith)

minus_one : (count : ℕ) → 1 ≤ count → count < 2 ^ 64 → (count + (2 ^ 64 - 1)) % 2 ^ 64 ≡ count - 1
minus_one count h k = omega arith

nth_key-some :
    (first : Text) (rest : BTreeSet) (start : Text) (count : ℕ) (e : Text)
    → 1 ≤ count
    → count < 2 ^ 64
    → get_elem? (range_from ((first, tt) ∷ rest) start) (count - 1) ≡ some e
    → nth_key first rest start count ≡ e
unfolding nth_key
nth_key-some first rest start count e h k g = rw (nth_key, minus_one count h k, g)

nth_key-none :
    (first : Text) (rest : BTreeSet) (start : Text) (count : ℕ)
    → range_from ((first, tt) ∷ rest) start ≡ []
    → nth_key first rest start count ≡ last_key first rest
unfolding nth_key
nth_key-none first rest start count e = rw (nth_key, e)

-- The line of a scan, with the key's two segments and a count.
abbrev pub ScanLine : Text → Text → Text → ℕ → Type 0
ScanLine line table id count =
    (count_text : Text) × (segs : List Text) × (split_whitespace line
      ≡ codes "SCAN" ∷ table ∷ id ∷ count_text ∷ segs)
    × (parse_usize count_text ≡ ok count)

interpret-ScanLine :
    (line table id : Text) (count : ℕ) (first : Text) (rest : BTreeSet)
    → ScanLine line table id count
    → interpret_ycsb_call line ((first, tt) ∷ rest)
      ≡ ok (
        some (Call.scan (table ++ (95 ∷ id)) (nth_key first rest (table ++ (95 ∷ id)) count)),
        (first, tt) ∷ rest,
      )
unfolding interpret_ycsb_call interpret_segs parse_ycsb_key scan_end text_eq
interpret-ScanLine line table id count first rest (count_text, segs, e, n) = rw (e, n)

key_set-cons :
    (s : State) (start : Text) (n : ℕ) (e : Text)
    → get_elem? (range_from (key_set s) start) n ≡ some e
    → (first : Text) × (rest : BTreeSet) × (key_set s ≡ (first, tt) ∷ rest)
unfolding key_set range_from
key_set-cons [] start n e h = cc
key_set-cons ((k, v) ∷ s) start n e h = (k, key_set s, refl)

scan_of_nth :
    (s : State) (start : Text) (n : ℕ) (e : Text)
    → IsSorted s
    → get_elem? (range_from (key_set s) start) n ≡ some e
    → (handle_kv_call (KvCall.scan start e) s ≡ done (KvResp.scan start e (range s start e), s))
      × (length (range s start e) ≡ n)
unfolding handle_kv_call
scan_of_nth s start n e h g = (ground (arith, key_from start s n e g), length-range start s n e h g)

-- A line that asks for a scan of `count` keys, at least one and less than 2^64, over keys that are
-- also those of the reference client's sorted state, which has so many from the first key on, is
-- translated to a scan that the client answers with one entry less.
pub scan-count :
    (s : State) (line table id : Text) (count : ℕ)
    → IsSorted s
    → ScanLine line table id count
    → 1 ≤ count
    → count < 2 ^ 64
    → count ≤ length (range_from (key_set s) (table ++ (95 ∷ id)))
    → (key_end : Text) × (entries : List (Text × Text)) × (interpret_ycsb_call line (key_set s)
        ≡ ok (some (Call.scan (table ++ (95 ∷ id)) key_end), key_set s))
      × (handle_kv_call (KvCall.scan (table ++ (95 ∷ id)) key_end) s
          ≡ done (KvResp.scan (table ++ (95 ∷ id)) key_end entries, s))
      × (length entries ≡ count - 1)
scan-count s line table id count h l low high many =
    let start = table ++ (95 ∷ id) in
    let (e, nth) = get_elem?-some (range_from (key_set s) start) (count - 1) (omega arith) in
    let (first, rest, same) = key_set-cons s start (count - 1) e nth in
    let nth' : get_elem? (range_from ((first, tt) ∷ rest) start) (count - 1) ≡ some e =
      subst (λ set. get_elem? (range_from set start) (count - 1) ≡ some e) same nth in
    let (handled, counted) = scan_of_nth s start (count - 1) e h nth in
    let translated : interpret_ycsb_call line ((first, tt) ∷ rest)
        ≡ ok (some (Call.scan start e), (first, tt) ∷ rest) =
      rw (
        interpret-ScanLine line table id count first rest l,
        nth_key-some first rest start count e low high nth',
      ) in
    (
      e,
      range s start e,
      subst (λ set. interpret_ycsb_call line set ≡ ok (some (Call.scan start e), set)) (sym same)
          translated,
      handled,
      counted,
    )

last_key-before_all :
    (start k : Text) (set : BTreeSet)
    → range_from ((k, tt) ∷ set) start ≡ []
    → text_lt (last_key k set) start ≡ true
unfolding range_from
last_key-before_all start k set e = ground (arith, last_key-before start k set)

backward-panics :
    (start end : Text) (s : State)
    → text_lt end start ≡ true
    → handle_kv_call (KvCall.scan start end) s ≡ panic
unfolding handle_kv_call
backward-panics start end s h = rw h

-- A line that asks for a scan from a key above all keys of the reference client's state, of which
-- there is one, is translated to a call on which the client panics.
pub scan_past-panics :
    (k v : Text) (s : State) (line table id : Text) (count : ℕ)
    → ScanLine line table id count
    → range_from (key_set ((k, v) ∷ s)) (table ++ (95 ∷ id)) ≡ []
    → (key_end : Text) × (interpret_ycsb_call line (key_set ((k, v) ∷ s))
        ≡ ok (some (Call.scan (table ++ (95 ∷ id)) key_end), key_set ((k, v) ∷ s)))
      × (handle_kv_call (KvCall.scan (table ++ (95 ∷ id)) key_end) ((k, v) ∷ s) ≡ panic)
unfolding key_set
scan_past-panics k v s line table id count l none_from =
    let start = table ++ (95 ∷ id) in
    (
      last_key k (key_set s),
      rw (
        interpret-ScanLine line table id count k (key_set s) l,
        nth_key-none k (key_set s) start count none_from,
      ),
      backward-panics start (last_key k (key_set s)) ((k, v) ∷ s)
          (last_key-before_all start k (key_set s) none_from),
    )
