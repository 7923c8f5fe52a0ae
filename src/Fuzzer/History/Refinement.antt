-- ===== src/Fuzzer/History/Refinement.antt =====
-- The trimming checker returns what the reference checker returns.
use madkv.Prelude.{
  ℕ, ◌≤◌, ◌≡◌, refl, ap, subst, List, ◌⊎◌, inl, inr, Option, none, some, arith, All, if◌then◌else◌,
  ◌&&◌, length, set, get_elem?, map, Bool-cases, ltb,
}
use madkv.Prelude.Results.{done}
use madkv.Text.{Text}
use madkv.Runner.Resp.{KvResp}
use madkv.HashMap
use madkv.HashMap.{HashMap}
use madkv.Fuzzer.History.Spans.{
  UpdateSpan, QueuedSpan, KeySpans, History, u64_max, trim_key, min_or,
}
use madkv.Fuzzer.History.Update.{push_span, pop_checkable, failed_check, update_known, apply_update}
use madkv.Fuzzer.History.Trimming.{IsSpan}
use madkv.Fuzzer.History.Same.{SameKey, SameFound, get-SameFound, insert-SameSpans}
use madkv.Fuzzer.History.Minimum.{AtMost, min_or-set, min_or-queue}
use madkv.Fuzzer.History.Stable.{
  SameKey-push, SameKey-trim, length-SameKey, push_span-IsSpan, trim_key-IsSpan,
}
use madkv.Fuzzer.History.Whole.{whole_known, update_whole}
use madkv.Fuzzer.History.Agrees.{
  AreSpans, Live, SameLive, Agrees, AgreesOutcome, pop_checkable-same, Any-pop_checkable,
  All-of_queued, insert-AreSpans, get-AreSpans,
}

-- An update of a known key, of two histories that agree.
module _ (queue : List QueuedSpan) (maxtr : List ℕ) (a b : HashMap KeySpans) (ks kt : KeySpans)
    (cidx : ℕ) (key : Text) (s : UpdateSpan) (same : SameLive queue maxtr a b)
    (are_spans : AreSpans a) (is_span : IsSpan s) (later : AtMost (get_elem? maxtr cidx) s.ts_resp)
    (found : HashMap.get a key ≡ some ks) (found_whole : HashMap.get b key ≡ some kt) where
  abbrev maxtr' : List ℕ
  maxtr' = set maxtr cidx s.ts_resp

  abbrev mc : ℕ
  mc = min_or 0 maxtr'

  abbrev mq : ℕ
  mq = min_or u64_max (map (λ e. e.ts_call) queue)

  abbrev a' : HashMap KeySpans
  a' = HashMap.insert a key (trim_key mc mq (push_span ks cidx s))

  abbrev b' : HashMap KeySpans
  b' = HashMap.insert b key (push_span kt cidx s)

  same_key : (tc tr : ℕ) → Live queue maxtr tc → SameKey tc tr ks kt
  same_key tc tr live = subst (SameFound tc tr (some ks)) found_whole (
      subst (λ o. SameFound tc tr o (HashMap.get b key)) found
        (get-SameFound tc tr a b key (same tc tr live)))

  Live-before : (tc : ℕ) → Live queue maxtr' tc → Live queue maxtr tc
  Live-before tc (inl h) = inl (omega (arith, min_or-set 0 cidx s.ts_resp maxtr later))
  Live-before tc (inr h) = inr h

  bound : (tc : ℕ) → Live queue maxtr' tc → (mc ≤ tc) ⊎ (mq ≤ tc)
  bound tc (inl h) = inl h
  bound tc (inr h) = inr (min_or-queue u64_max tc queue h)

  pushed : All (All IsSpan) (push_span ks cidx s)
  pushed = push_span-IsSpan ks cidx s is_span (get-AreSpans a key ks found are_spans)

  same_after : SameLive queue maxtr' a' b'
  same_after tc tr live =
      insert-SameSpans tc tr a b key _ _
        (SameKey-trim mc mq tc tr _ _ pushed (bound tc live)
          (SameKey-push tc tr ks kt cidx s (same_key tc tr (Live-before tc live))))
        (same tc tr (Live-before tc live))

  same_pops : pop_checkable a' mc queue ≡ pop_checkable b' mc queue
  same_pops =
      pop_checkable-same a' b' mc queue
        (All-of_queued _ queue (λ e h. same_after e.ts_call e.ts_resp (inr h)))

  Live-unpopped : (tc : ℕ) → Live (pop_checkable a' mc queue).1 maxtr' tc → Live queue maxtr' tc
  Live-unpopped tc (inl h) = inl h
  Live-unpopped tc (inr h) = inr (Any-pop_checkable (λ e. e.ts_call ≤ tc) a' mc queue h)

  Agrees-after :
      Agrees
        (record { queue = (pop_checkable a' mc queue).1; spans = a'; maxtr = maxtr' })
        (record { queue = (pop_checkable b' mc queue).1; spans = b'; maxtr = maxtr' })
  Agrees-after = record {
    queue = ap (λ (p : Option KvResp × List QueuedSpan). p.1) same_pops;
    maxtr = refl;
    same = λ tc tr live. same_after tc tr (Live-unpopped tc live);
    spans = insert-AreSpans a key _ (trim_key-IsSpan mc mq _ pushed) are_spans;
  }

  same_length : length ks ≡ length kt
  same_length = length-SameKey (mc) 0 ks kt (same_key mc 0 (Live-before mc (inl (omega arith))))

  known-Agrees :
      AgreesOutcome
        (update_known (record { queue = queue; spans = a; maxtr = maxtr }) ks cidx key s)
        (whole_known (record { queue = queue; spans = b; maxtr = maxtr }) kt cidx key s)
  unfolding update_known whole_known
  known-Agrees =
      rw (← same_length) (elim (Bool-cases (ltb cidx (length ks) && ltb cidx (length maxtr))) [
        | inl e ↦
            rw (e, if◌then◌else◌)
              (
                ap (λ (p : Option KvResp × List QueuedSpan). failed_check p.0) same_pops,
                Agrees-after,
              )
        | inr e ↦ rw (e, if◌then◌else◌) tt
      ])

module _ (h : History) (cidx ts_call ts_resp : ℕ) (key : Text) (value : Option Text) where
  abbrev span : UpdateSpan
  span = record { ts_call = ts_call; ts_resp = ts_resp; value = value }

  apply_update-known :
      (ks : KeySpans)
      → HashMap.get h.spans key ≡ some ks
      → apply_update h cidx ts_call ts_resp key value ≡ update_known h ks cidx key span
  unfolding apply_update
  apply_update-known ks g = ground arith

  update_whole-known :
      (ks : KeySpans)
      → HashMap.get h.spans key ≡ some ks
      → update_whole h cidx ts_call ts_resp key value ≡ whole_known h ks cidx key span
  unfolding update_whole
  update_whole-known ks g = ground arith

  apply_update-unknown :
      HashMap.get h.spans key ≡ none
      → apply_update h cidx ts_call ts_resp key value ≡ done (some none, h)
  unfolding apply_update
  apply_update-unknown g = ground arith

  update_whole-unknown :
      HashMap.get h.spans key ≡ none
      → update_whole h cidx ts_call ts_resp key value ≡ done (some none, h)
  unfolding update_whole
  update_whole-unknown g = ground arith

  -- A successful update records its response time.
  pub maxtr-apply_update :
      (h' : History)
      → apply_update h cidx ts_call ts_resp key value ≡ done (none, h')
      → h'.maxtr ≡ set h.maxtr cidx ts_resp
  unfolding apply_update
  maxtr-apply_update h' e = ground arith

-- One update keeps the two checkers in step.
module _ (h w : History) (v : Agrees h w) (cidx ts_call ts_resp : ℕ) (key : Text)
    (value : Option Text) (is_span : ts_call ≤ ts_resp)
    (later : AtMost (get_elem? h.maxtr cidx) ts_resp) where
  abbrev Goal : History → Type 0
  Goal w' =
      AgreesOutcome (apply_update h cidx ts_call ts_resp key value)
        (update_whole w' cidx ts_call ts_resp key value)

  abbrev w₀ : History
  w₀ = record { queue = h.queue; spans = w.spans; maxtr = h.maxtr }

  same_record : w₀ ≡ w
  same_record = λ i. record { queue = v.queue i; spans = w.spans; maxtr = v.maxtr i }

  agrees₀ : Agrees h w₀
  agrees₀ = record { queue = refl; maxtr = refl; same = v.same; spans = v.spans }

  by_found :
      (f g : Option KeySpans)
      → HashMap.get h.spans key ≡ f
      → HashMap.get w.spans key ≡ g
      → SameFound (min_or 0 h.maxtr) 0 f g
      → Goal w₀
  by_found none none p q s =
      rw
        (
          apply_update-unknown h cidx ts_call ts_resp key value p,
          update_whole-unknown w₀ cidx ts_call ts_resp key value q,
        )
        (refl, agrees₀)
  by_found none (some t) p q s = absurd s
  by_found (some t) none p q s = absurd s
  by_found (some ks) (some kt) p q s =
      rw
        (
          apply_update-known h cidx ts_call ts_resp key value ks p,
          update_whole-known w₀ cidx ts_call ts_resp key value kt q,
        )
        (known-Agrees h.queue h.maxtr h.spans w.spans ks kt cidx key _ v.same v.spans is_span later
          p q)

  pub update-Agrees : Goal w
  update-Agrees = subst Goal same_record (
      by_found (HashMap.get h.spans key) (HashMap.get w.spans key) refl refl
        (get-SameFound _ _ h.spans w.spans key (v.same (min_or 0 h.maxtr) 0 (inl (omega arith)))))
