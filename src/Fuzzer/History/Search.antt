-- ===== src/Fuzzer/History/Search.antt =====
-- What the search loops of the checks decide.
use madkv.Prelude.{
  ℕ, ◌≤◌, ◌<◌, ◌≡◌, refl, sym, subst, Bool, true, ◌&&◌, [], ◌∷◌, ◌++◌, ◌⊎◌, inl, inr, ◌↔◌, Option,
  some, none, arith, All, Bool-cases, ltb,
}
use mathlib.Core.List.{reverse, reverse-cons, reverse-reverse}
use madkv.Prelude.Any.{Any, All-reverse}
use madkv.Text.{Text}
use madkv.Text.Eq.{text_eq_iff}
use madkv.Fuzzer.History.Spans.{
  UpdateSpan, ClientSpans, KeySpans, search_back, search_client, search_key,
}
use madkv.Fuzzer.History.Check.{value_matches}

module _ (matches : Option Text → Bool) (ts_call ts_resp : ℕ) where
  -- The span began before the response came, and has the value that was answered.
  abbrev Answers : UpdateSpan → Type 0
  Answers s = (s.ts_call < ts_resp) × (matches s.value ≡ true)

  -- The span was not over when the call began.
  abbrev IsOpen : UpdateSpan → Type 0
  IsOpen s = ts_call ≤ s.ts_resp

  -- Some span answers, and all newer ones of the client were not over when the call began.
  abbrev pub Seen : ClientSpans → Type 0
  Seen [] = ⊥
  Seen (s ∷ newer) =
      ((s.ts_call < ts_resp) × (matches s.value ≡ true) × All IsOpen newer) ⊎ Seen newer

  abbrev SeenBack : ClientSpans → Type 0
  SeenBack [] = ⊥
  SeenBack (s ∷ older) = Answers s ⊎ (IsOpen s × SeenBack older)

  SeenBack-of_search : (l : ClientSpans) → search_back matches ts_call ts_resp l ≡ true → SeenBack l
  unfolding search_back
  SeenBack-of_search [] h = cc
  SeenBack-of_search (s ∷ l) h = elim (Bool-cases (ltb s.ts_call ts_resp && matches s.value)) [
    | inl e ↦ inl (ground arith)
    | inr e ↦ inr (ground arith, SeenBack-of_search l (ground arith))
  ]

  search_of_SeenBack : (l : ClientSpans) → SeenBack l → search_back matches ts_call ts_resp l ≡ true
  unfolding search_back
  search_of_SeenBack [] h = absurd h
  search_of_SeenBack (s ∷ l) (inl h) = ground arith
  search_of_SeenBack (s ∷ l) (inr h) = ground (arith, search_of_SeenBack l h.1)

  SeenBack-first :
      (l : ClientSpans) (x : UpdateSpan) → All IsOpen l → Answers x → SeenBack (l ++ x ∷ [])
  SeenBack-first [] x h k = inl k
  SeenBack-first (s ∷ l) x h k = inr (h.0, SeenBack-first l x h.1 k)

  SeenBack-append : (l : ClientSpans) (x : UpdateSpan) → SeenBack l → SeenBack (l ++ x ∷ [])
  SeenBack-append [] x h = absurd h
  SeenBack-append (s ∷ l) x (inl h) = inl h
  SeenBack-append (s ∷ l) x (inr h) = inr (h.0, SeenBack-append l x h.1)

  SeenBack-split :
      (l : ClientSpans) (x : UpdateSpan)
      → SeenBack (l ++ x ∷ [])
      → SeenBack l ⊎ (All IsOpen l × Answers x)
  SeenBack-split [] x (inl h) = inr (tt, h)
  SeenBack-split [] x (inr h) = absurd h.1
  SeenBack-split (s ∷ l) x (inl h) = inl (inl h)
  SeenBack-split (s ∷ l) x (inr h) = elim (SeenBack-split l x h.1) [
    | inl k ↦ inl (inr (h.0, k))
    | inr k ↦ inr ((h.0, k.0), k.1)
  ]

  SeenBack-reverse : (l : ClientSpans) → Seen l → SeenBack (reverse l)
  SeenBack-reverse [] h = absurd h
  SeenBack-reverse (s ∷ l) (inl h) =
      subst SeenBack (sym (reverse-cons s l))
        (SeenBack-first (reverse l) s (All-reverse IsOpen l h.2) (h.0, h.1))
  SeenBack-reverse (s ∷ l) (inr h) =
      subst SeenBack (sym (reverse-cons s l)) (SeenBack-append (reverse l) s (SeenBack-reverse l h))

  Seen-of_reverse : (l : ClientSpans) → SeenBack (reverse l) → Seen l
  Seen-of_reverse [] h = h
  Seen-of_reverse (s ∷ l) h =
      elim (SeenBack-split (reverse l) s (subst SeenBack (reverse-cons s l) h)) [
        | inl k ↦ inr (Seen-of_reverse l k)
        | inr k ↦ inl (
          k.1.0,
          k.1.1,
          subst (All IsOpen) (reverse-reverse l) (All-reverse IsOpen (reverse l) k.0),
        )
      ]

  search_of_Seen : (ks : KeySpans) → Any Seen ks → search_key matches ts_call ts_resp ks ≡ true
  unfolding search_key
  search_of_Seen [] h = absurd h
  search_of_Seen (l ∷ ks) (inl h) = rw (search_of_SeenBack (reverse l) (SeenBack-reverse l h))
  search_of_Seen (l ∷ ks) (inr h) = ground (arith, search_of_Seen ks h)

  Seen-of_search : (ks : KeySpans) → search_key matches ts_call ts_resp ks ≡ true → Any Seen ks
  unfolding search_key
  Seen-of_search [] h = cc
  Seen-of_search (l ∷ ks) h = elim (Bool-cases (search_client matches ts_call ts_resp l)) [
    | inl e ↦ inl (Seen-of_reverse l (SeenBack-of_search (reverse l) e))
    | inr e ↦ inr (Seen-of_search ks (ground arith))
  ]

  -- The loops of the four checks return true exactly when some client has a span that began before
  -- the response came and has the value that was answered, and that client's newer spans were all
  -- not over when the call began.
  pub search_key_iff :
      (ks : KeySpans) → (search_key matches ts_call ts_resp ks ≡ true) ↔ Any Seen ks
  search_key_iff ks = (Seen-of_search ks, search_of_Seen ks)

pub value_matches_iff : (w v : Option Text) → (value_matches w v ≡ true) ↔ (v ≡ w)
unfolding value_matches
value_matches_iff none none = (λ h. refl, λ h. refl)
value_matches_iff none (some v) = (λ h. cc, λ h. cc)
value_matches_iff (some w) none = (λ h. cc, λ h. cc)
value_matches_iff (some w) (some v) = ground (arith, text_eq_iff v w)
