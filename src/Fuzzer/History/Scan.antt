-- ===== src/Fuzzer/History/Scan.antt =====
-- What `check_scan` decides.
use madkv.Prelude.{
  ℕ, ◌≡◌, refl, subst, Bool, true, false, ◌&&◌, ◌||◌, List, [], ◌∷◌, ◌++◌, inl, inr, ◌↔◌, some,
  arith, All, Bool-cases, Option-cases, append_assoc, append-nil,
}
use madkv.Text.{Text, text_lt, text_le}
use madkv.HashMap
use madkv.HashMap.{HashMap}
use madkv.Fuzzer.History.Spans.{KeySpans}
use madkv.Fuzzer.History.Check.{check_get, collect_entries, check_range, check_scan}

-- The key lies between the two ends, both included.
abbrev pub in_range : Text → Text → Text → Bool
in_range key_start key_end key = text_le key_start key && text_le key key_end

-- No key of the list is in the map, and none occurs twice.
abbrev pub AreFresh : HashMap Text → List (Text × Text) → Type 0
AreFresh m [] = Unit
AreFresh m ((key, value) ∷ entries) =
    (HashMap.contains_key m key ≡ false) × AreFresh (m ++ (key, value) ∷ []) entries

insert_new :
    (m : HashMap Text) (key value : Text)
    → HashMap.contains_key m key ≡ false
    → HashMap.insert m key value ≡ m ++ (key, value) ∷ []
unfolding HashMap.contains_key HashMap.insert
insert_new [] key value h = refl
insert_new ((k, v) ∷ m) key value h = ground (arith, insert_new m key value)

module _ (key_start key_end : Text) where
  abbrev pub InRange : Text × Text → Type 0
  InRange (key, value) = in_range key_start key_end key ≡ true

  collect_fresh :
      (entries : List (Text × Text)) (m : HashMap Text)
      → All InRange entries
      → AreFresh m entries
      → collect_entries key_start key_end entries m ≡ some (m ++ entries)
  unfolding collect_entries
  collect_fresh [] m h k = rw append-nil
  collect_fresh ((key, value) ∷ entries) m h k = ground (
    arith,
    insert_new m key value k.0,
    collect_fresh entries (m ++ (key, value) ∷ []) h.1 k.1,
    append_assoc m ((key, value) ∷ []) entries,
  )

  collect_inv :
      (entries : List (Text × Text)) (m m' : HashMap Text)
      → collect_entries key_start key_end entries m ≡ some m'
      → All InRange entries × AreFresh m entries
  unfolding collect_entries
  collect_inv [] m m' h = (tt, tt)
  collect_inv ((key, value) ∷ entries) m m' h =
      elim (Bool-cases (text_lt key key_start || text_lt key_end key)) [
        | inl e ↦ absurd (ground arith)
        | inr e ↦ elim (Bool-cases (HashMap.contains_key m key)) [
          | inl f ↦ absurd (ground arith)
          | inr f ↦
              let rest = collect_inv entries (HashMap.insert m key value) m' (ground arith) in
              (
                (ground arith, rest.0),
                (f, subst (λ n. AreFresh n entries) (insert_new m key value f) rest.1),
              )
        ]
      ]

  module _ (tc tr : ℕ) (entries_map : HashMap Text) where
    -- A key of the history, if in range, passes the check of a read of what the scan returned for
    -- it.
    abbrev pub PassesGet : Text × KeySpans → Type 0
    PassesGet (key, key_spans) =
        in_range key_start key_end key ≡ true
        → check_get key_spans tc tr (HashMap.get entries_map key) ≡ true

    check_range-passes :
        (spans : HashMap KeySpans)
        → check_range spans tc tr key_start key_end entries_map ≡ true
        → All PassesGet spans
    unfolding check_range
    check_range-passes [] h = tt
    check_range-passes ((key, ks) ∷ spans) h =
        (λ r. ground arith, check_range-passes spans (ground arith))

    passes-check_range :
        (spans : HashMap KeySpans)
        → All PassesGet spans
        → check_range spans tc tr key_start key_end entries_map ≡ true
    unfolding check_range
    passes-check_range [] h = refl
    passes-check_range ((key, ks) ∷ spans) h = elim (Bool-cases (in_range key_start key_end key)) [
      | inl e ↦ ground (arith, h.0 e, passes-check_range spans h.1)
      | inr e ↦ ground (arith, passes-check_range spans h.1)
    ]

  module _ (tc tr : ℕ) (spans : HashMap KeySpans) (entries : List (Text × Text)) where
    abbrev Accepted : Type 0
    Accepted = All InRange entries × AreFresh [] entries × All (PassesGet tc tr entries) spans

    accepted_of_check : check_scan spans tc tr key_start key_end entries ≡ true → Accepted
    accepted_of_check h = elim (Option-cases (collect_entries key_start key_end entries [])) [
      | inl e ↦ absurd (unfold check_scan in ground arith)
      | inr (m, e) ↦
          let inv = collect_inv entries [] m e in
          let same : collect_entries key_start key_end entries [] ≡ some entries =
            collect_fresh entries [] inv.0 inv.1 in
          (inv.0, inv.1, check_range-passes tc tr entries spans (unfold check_scan in ground arith))
    ]

    check_of_accepted : Accepted → check_scan spans tc tr key_start key_end entries ≡ true
    unfolding check_scan
    check_of_accepted a =
        ground (arith, collect_fresh entries [] a.0 a.1, passes-check_range tc tr entries spans a.2)

    -- A scan passes exactly when its entries are in range, the ends included, with no key twice,
    -- and every key of the history in range passes the check of a read that returned its entry, or
    -- nothing if it has none.
    pub check_scan_iff :
        (check_scan spans tc tr key_start key_end entries ≡ true)
        ↔ (All InRange entries × AreFresh [] entries × All (PassesGet tc tr entries) spans)
    check_scan_iff = (accepted_of_check, check_of_accepted)
