-- ===== src/Fuzzer/History/Linear.antt =====
-- No false alarm: a value that some linearization explains passes `check_get`.
use madkv.Prelude.{ℕ, ◌≤◌, ◌<◌, ◌≡◌, true, [], ◌∷◌, ◌⊎◌, inl, inr, Option, arith, All}
use madkv.Prelude.Any.{Any}
use madkv.Text.{Text}
use madkv.Fuzzer.History.Spans.{UpdateSpan, ClientSpans, KeySpans}
use madkv.Fuzzer.History.Check.{check_get, value_matches}
use madkv.Fuzzer.History.Search.{Seen, search_key_iff, value_matches_iff}

-- The point in time at which each update takes effect.
module _ (point : UpdateSpan → ℕ) where
  abbrev pub IsPoint : UpdateSpan → Type 0
  IsPoint s = (s.ts_call ≤ point s) × (point s ≤ s.ts_resp)

  -- The client has an update to `value` before the time `p`, and none between that and `p`.
  abbrev pub LastBefore : ℕ → Option Text → ClientSpans → Type 0
  LastBefore p value [] = ⊥
  LastBefore p value (s ∷ newer) =
      ((point s < p) × (s.value ≡ value) × All (λ t. p ≤ point t) newer) ⊎ LastBefore p value newer

  open_of_points :
      (p tc : ℕ) (l : ClientSpans)
      → tc ≤ p
      → All IsPoint l
      → All (λ t. p ≤ point t) l
      → All (λ t. tc ≤ t.ts_resp) l
  open_of_points p tc [] h ok k = tt
  open_of_points p tc (s ∷ l) h ok k =
      (omega (arith, ok.0.1, k.0), open_of_points p tc l h ok.1 k.1)

  Seen-LastBefore :
      (p tc tr : ℕ) (value : Option Text) (l : ClientSpans)
      → tc ≤ p
      → p ≤ tr
      → All IsPoint l
      → LastBefore p value l
      → Seen (value_matches value) tc tr l
  Seen-LastBefore p tc tr value [] h k ok last = last
  Seen-LastBefore p tc tr value (s ∷ l) h k ok (inl last) = inl (
    omega (arith, ok.0.0, last.0),
    (value_matches_iff value s.value).1 last.1,
    open_of_points p tc l h ok.1 last.2,
  )
  Seen-LastBefore p tc tr value (s ∷ l) h k ok (inr last) =
      inr (Seen-LastBefore p tc tr value l h k ok.1 last)

  Any-LastBefore :
      (p tc tr : ℕ) (value : Option Text) (ks : KeySpans)
      → tc ≤ p
      → p ≤ tr
      → All (All IsPoint) ks
      → Any (LastBefore p value) ks
      → Any (Seen (value_matches value) tc tr) ks
  Any-LastBefore p tc tr value [] h k ok last = last
  Any-LastBefore p tc tr value (l ∷ ks) h k ok (inl last) =
      inl (Seen-LastBefore p tc tr value l h k ok.0 last)
  Any-LastBefore p tc tr value (l ∷ ks) h k ok (inr last) =
      inr (Any-LastBefore p tc tr value ks h k ok.1 last)

  -- If every update of a key takes effect at a point within its span, and a read takes effect at
  -- a point within its own and returns what some client wrote last before it, then the read passes.
  pub check_get-linearizable :
      (p tc tr : ℕ) (value : Option Text) (ks : KeySpans)
      → tc ≤ p
      → p ≤ tr
      → All (All IsPoint) ks
      → Any (LastBefore p value) ks
      → check_get ks tc tr value ≡ true
  unfolding check_get
  check_get-linearizable p tc tr value ks h k ok last =
      (search_key_iff (value_matches value) tc tr ks).1
        (Any-LastBefore p tc tr value ks h k ok last)
