-- ===== src/Protocol/ScanEnd.antt =====
-- The last key of a scan: the reference client leaves it out, the checker of the fuzz tester counts
-- it in.
use madkv.Prelude.{
  ℕ, ◌≡◌, refl, false, Bool-cases, inl, inr, ◌∷◌, [], arith, none, some, List, if◌then◌else◌, All,
  subst,
}
use madkv.Prelude.Results.{done}
use madkv.Text.{Text, text_eq, text_lt}
use madkv.Text.Eq.{text_eq→≡}
use madkv.Text.Order.{text_lt_irrefl}
use madkv.BTree
use madkv.HashMap
use madkv.HashMap.{HashMap}
use madkv.RefCli.Types.{KvCall, KvResp}
use madkv.RefCli.Main.{State, handle_kv_call}
use madkv.Fuzzer.History.Spans.{KeySpans}
use madkv.Fuzzer.History.Check.{check_get, check_scan}
use madkv.Fuzzer.History.Scan.{PassesGet, check_scan_iff}

range_without_end :
    (s : State) (key_start key_end : Text)
    → HashMap.get (BTree.range s key_start key_end) key_end ≡ none
unfolding BTree.range HashMap.get
range_without_end [] key_start key_end = refl
range_without_end ((k, v) ∷ s) key_start key_end =
    ground
      (arith, text_eq→≡ k key_end, text_lt_irrefl key_end, range_without_end s key_start key_end)

passes_at :
    (key_start key_end : Text) (tc tr : ℕ) (m : HashMap Text) (spans : HashMap KeySpans)
    (key : Text) (ks : KeySpans)
    → HashMap.get spans key ≡ some ks
    → All (PassesGet key_start key_end tc tr m) spans
    → PassesGet key_start key_end tc tr m (key, ks)
unfolding HashMap.get
passes_at key_start key_end tc tr m [] key ks g h = cc
passes_at key_start key_end tc tr m ((k, v) ∷ spans) key ks g h =
    elim (Bool-cases (text_eq k key)) [
      | inl e ↦
          let same : v ≡ ks = ground arith in
          subst (λ (p : Text × KeySpans). PassesGet key_start key_end tc tr m p)
            (λ i. (text_eq→≡ k key e i, same i)) h.0
      | inr e ↦ passes_at key_start key_end tc tr m spans key ks (rw (e, if◌then◌else◌) at g) h.1
    ]

-- Whatever the state of the reference client, its response to a scan is rejected by the checker if
-- the checker knows the last key of the scan, and would not accept a read that finds nothing
-- there.
pub scan_end-rejected :
    (s : State) (key_start key_end : Text) (entries : List (Text × Text)) (s' : State) (tc tr : ℕ)
    (spans : HashMap KeySpans) (ks : KeySpans)
    → handle_kv_call (KvCall.scan key_start key_end) s
      ≡ done (KvResp.scan key_start key_end entries, s')
    → HashMap.get spans key_end ≡ some ks
    → check_get ks tc tr none ≡ false
    → check_scan spans tc tr key_start key_end entries ≡ false
unfolding handle_kv_call
scan_end-rejected s key_start key_end entries s' tc tr spans ks e g c =
    elim (Bool-cases (check_scan spans tc tr key_start key_end entries)) [
      | inr no_pass ↦ no_pass
      | inl pass ↦
          let same : BTree.range s key_start key_end ≡ entries = ground arith in
          let ordered : text_lt key_end key_start ≡ false = ground arith in
          let here =
            passes_at key_start key_end tc tr entries spans key_end ks g
              ((check_scan_iff key_start key_end tc tr spans entries).0 pass).2 in
          let nothing : HashMap.get entries key_end ≡ none =
            subst (λ m. HashMap.get m key_end ≡ none) same
              (range_without_end s key_start key_end) in
          ground (arith, here (ground (arith, text_lt_irrefl key_end)), nothing)
    ]
