-- ===== src/Fuzzer/History/Linearizable.antt =====
-- No false alarms: the checker fails no response of a linearizable service.
use madkv.Prelude.{
  ℕ, ◌≤◌, ◌<◌, ◌≡◌, ◌≢◌, refl, sym, ap, ◌∙◌, subst, List, [], ◌∷◌, ◌++◌, inl, inr, ◌⊎◌, Option,
  none, some, Bool, true, arith, All, All-map, All-zip, zero, suc, length-replicate, replicate,
  append_assoc,
}
use madkv.Prelude.Any.{
  Any, Any-split, Any-append_left, Any-append_right, All-at, All-right, split_at,
}
use madkv.Text.{Text}
use madkv.Fuzzer.History.Spans.{KeySpans}
use madkv.Fuzzer.History.Update.{dummy}
use madkv.Fuzzer.History.Search.{Seen}
use madkv.Fuzzer.History.Whole.{Ack, AreSynchronous}
use madkv.Fuzzer.History.Pushed.{
  update_at, pushed, SeenAt, Any-SeenAt, IsPassed, SeenAt-pushed, SeenAt-written,
}
use madkv.Fuzzer.History.Sequential.{
  no_keys, KeepsOrder, KeepsOrder-right, KeepsOrder-split, Linearization, effects, Silent, Written,
  last_write,
}
use madkv.Fuzzer.History.Clients.{later_calls, clients_in_bounds}

dummy-SeenAt :
    (matches : Option Text → Bool) (tc tr n : ℕ)
    → 0 < n
    → 0 < tr
    → matches none ≡ true
    → SeenAt matches tc tr 0 (replicate n (dummy ∷ []))
dummy-SeenAt matches tc tr zero h k m = absurd (omega arith)
dummy-SeenAt matches tc tr (suc n) h k m = inl (k, m, tt)

update_info_of : (key : Text) (o : Option (Text × Option Text)) → update_at key o ≢ none → o ≢ none
unfolding update_at
update_info_of key none h = λ e. h refl
update_info_of key (some u) h = λ e. cc

-- Before and after a call in the middle.
module _ (e : Ack) (is_span : e.ts_call ≤ e.ts_resp) (key : Text) where
  -- Of the calls that write the key, only those of the part `early` may be over when the call `e`
  -- begins, if none between that part and `e` writes it.
  open_update :
      (early between post : List Ack) (t : Ack)
      → KeepsOrder (early ++ (between ++ (e ∷ post)))
      → Silent key between
      → Any (λ b. b ≡ t) (early ++ (between ++ (e ∷ post)))
      → update_at key t.update_info ≢ none
      → Any (λ b. b ≡ t) early ⊎ (e.ts_call ≤ t.ts_resp)
  open_update early between post t order silent h writes =
      elim (Any-split (λ b. b ≡ t) early (between ++ (e ∷ post)) h) [
        | inl first ↦ inl first
        | inr h' ↦ elim (Any-split (λ b. b ≡ t) between (e ∷ post) h') [
          | inl mid ↦
              absurd
                (writes (All-at (λ a. update_at key a.update_info ≡ none) between t silent mid))
          | inr (inl same) ↦ inr (subst (λ b. e.ts_call ≤ b.ts_resp) same is_span)
          | inr (inr last) ↦
              let rest =
                KeepsOrder-right between (e ∷ post)
                  (KeepsOrder-right early (between ++ (e ∷ post)) order) in
              inr (omega (arith, All-at (λ b. e.ts_call < b.ts_resp) post t rest.0 last))
        ]
      ]

module _ (n : ℕ) (clients : 0 < n) (acks seq : List Ack) (lin : Linearization acks seq)
    (sync : AreSynchronous (replicate n 0) acks)
    (spans : All (λ a. a.ts_call < a.ts_resp) acks) where
  abbrev first_spans : KeySpans
  first_spans = replicate n (dummy ∷ [])

  in_bounds : All (λ a. a.cidx < n) acks
  in_bounds = clients_in_bounds (replicate n 0) acks n (length-replicate n 0) sync

  module _ (e : Ack) (pre post : List Ack) (parts : seq ≡ pre ++ (e ∷ post))
      (is_span : e.ts_call < e.ts_resp) (matches : Option Text → Bool) (key : Text) where
    abbrev SeenBy : ℕ → Type 0
    SeenBy c = SeenAt matches e.ts_call e.ts_resp c (pushed first_spans key acks)

    order : KeepsOrder (pre ++ (e ∷ post))
    order = subst KeepsOrder parts lin.ordered

    in_seq : All (λ t. Any (λ b. b ≡ t) (pre ++ (e ∷ post))) acks
    in_seq = subst (λ l. All (λ t. Any (λ b. b ≡ t) l) acks) parts lin.all_of

    seen_first : Silent key pre → matches none ≡ true → SeenBy 0
    seen_first silent m =
        SeenAt-pushed matches e.ts_call e.ts_resp 0 first_spans key acks
          (All-map
            (λ t h same writes.
              elim (open_update e (omega arith) key [] pre post t order silent h writes) [
                | inl early ↦ absurd early
                | inr late ↦ late
              ])
            acks in_seq)
          (dummy-SeenAt matches e.ts_call e.ts_resp n clients (omega arith) m)

    module _ (value : Option Text) (w : Written key pre value) where
      abbrev early : List Ack
      early = w.before ++ (w.writer ∷ [])

      abbrev rest : List Ack
      rest = w.between ++ (e ∷ post)

      regrouped : seq ≡ early ++ rest
      regrouped =
          parts
          ∙ ap (λ l. l ++ (e ∷ post)) w.parts
          ∙ append_assoc w.before (w.writer ∷ w.between) (e ∷ post)
          ∙ sym (append_assoc w.before (w.writer ∷ []) rest)

      order' : KeepsOrder (early ++ rest)
      order' = subst KeepsOrder regrouped lin.ordered

      in_acks : Any (λ a. a ≡ w.writer) acks
      in_acks =
          All-at (λ b. Any (λ a. a ≡ b) acks) seq w.writer lin.only_of
            (subst (Any (λ b. b ≡ w.writer)) (sym regrouped) (
              Any-append_left (λ b. b ≡ w.writer) early rest
                (Any-append_right (λ b. b ≡ w.writer) w.before (w.writer ∷ []) (inl refl))))

      -- The write began before the response of the call `e` came.
      writer_first : w.writer.ts_call < e.ts_resp
      writer_first =
          (All-right (λ b. w.writer.ts_call < b.ts_resp) w.between (e ∷ post)
            (All-right (λ a. All (λ b. a.ts_call < b.ts_resp) rest) w.before (w.writer ∷ [])
              (KeepsOrder-split early rest order')).0).0

      -- None of the writer's later calls stands before it.
      not_early :
          (t : Ack)
          → w.writer.ts_call < w.writer.ts_resp
          → w.writer.ts_resp ≤ t.ts_call
          → Any (λ b. b ≡ t) early
          → ⊥
      not_early t strict later h = elim (Any-split (λ b. b ≡ t) w.before (w.writer ∷ []) h) [
        | inl first ↦
            let whole = subst KeepsOrder (append_assoc w.before (w.writer ∷ []) rest) order' in
            let ahead =
              All-at (λ a. All (λ b. a.ts_call < b.ts_resp) (w.writer ∷ rest)) w.before t
                (KeepsOrder-split w.before (w.writer ∷ rest) whole) first in
            omega (arith, ahead.0)
        | inr (inl same) ↦
            let loop = subst (λ b. w.writer.ts_resp ≤ b.ts_call) (sym same) later in omega arith
        | inr (inr none_left) ↦ none_left
      ]

      later_open :
          (t : Ack)
          → w.writer.ts_call < w.writer.ts_resp
          → (t.cidx ≡ w.writer.cidx → w.writer.ts_resp ≤ t.ts_call)
          → Any (λ b. b ≡ t) seq
          → IsPassed matches e.ts_call e.ts_resp key w.writer.cidx t
      later_open t strict later h same writes =
          elim (open_update e (omega arith) key early w.between post t order' w.silent
            (subst (Any (λ b. b ≡ t)) regrouped h) writes) [
              | inl first ↦ absurd (not_early t strict (later same) first)
              | inr late ↦ late
            ]

      seen_written : matches value ≡ true → SeenBy w.writer.cidx
      seen_written m =
          let (before, after, cut) = split_at acks w.writer in_acks in
          let strict = All-at (λ a. a.ts_call < a.ts_resp) acks w.writer spans in_acks in
          let later =
            later_calls (replicate n 0) before after w.writer
              (subst (AreSynchronous (replicate n 0)) cut sync)
              (update_info_of key w.writer.update_info (λ e. cc w.writes)) in
          let found =
            (All-right (λ t. Any (λ b. b ≡ t) seq) before (w.writer ∷ after)
              (subst (All (λ t. Any (λ b. b ≡ t) seq)) cut lin.all_of)).1 in
          subst (λ l. SeenAt matches e.ts_call e.ts_resp w.writer.cidx (pushed first_spans key l))
            (sym cut)
            (SeenAt-written matches e.ts_call e.ts_resp first_spans key before after w.writer value
              (omega (
                arith,
                All-at (λ a. a.cidx < n) acks w.writer in_bounds in_acks,
                length-replicate n (dummy ∷ []),
              ))
              w.writes writer_first m (All-zip (λ t. later_open t strict) after later found))

    -- The search of the key finds what the map holds when the call is made.
    pub seen_value :
        matches (effects no_keys pre key) ≡ true
        → Any (Seen matches e.ts_call e.ts_resp) (pushed first_spans key acks)
    seen_value m = elim (last_write no_keys key pre) [
      | inl (same, silent) ↦
          Any-SeenAt matches e.ts_call e.ts_resp 0 _
            (seen_first silent (subst (λ v. matches v ≡ true) same m))
      | inr w ↦
          Any-SeenAt matches e.ts_call e.ts_resp w.writer.cidx _
            (seen_written (effects no_keys pre key) w m)
    ]
