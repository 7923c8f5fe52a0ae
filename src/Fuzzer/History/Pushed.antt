-- ===== src/Fuzzer/History/Pushed.antt =====
-- The complete history of one key, and what a search finds in it.
use madkv.Prelude.{
  ℕ, zero, suc, ◌≤◌, ◌<◌, ◌≡◌, ◌≢◌, refl, sym, ap, ◌∙◌, subst, List, [], ◌∷◌, ◌++◌, inl, inr,
  Option, none, some, Bool, true, false, arith, All, length, if◌then◌else◌, Bool-cases,
}
use madkv.Prelude.Any.{Any, All-append}
use madkv.Text.{Text, text_eq}
use madkv.Text.Eq.{text_eq→≡}
use madkv.HashMap
use madkv.HashMap.{HashMap, get-insert}
use madkv.HashMap.Distinct.{AreDistinct, insert-AreDistinct}
use madkv.Fuzzer.History.Spans.{UpdateSpan, ClientSpans, KeySpans}
use madkv.Fuzzer.History.Update.{push_span}
use madkv.Fuzzer.History.Search.{Seen}
use madkv.Fuzzer.History.Whole.{Ack}
use madkv.Fuzzer.History.Complete.{span_of, push_ack, push_update, push_known, complete}
use madkv.Fuzzer.History.Online.{length-push_span}

-- The value that an update writes at a key, if it is of that key.
unfoldable pub update_at : Text → Option (Text × Option Text) → Option (Option Text)
update_at key none = none
update_at key (some (k, value)) = if text_eq k key then some value else none

abbrev push_at : KeySpans → Ack → Option (Option Text) → KeySpans
push_at ks a none = ks
push_at ks a (some value) = push_span ks a.cidx (span_of a value)

-- The spans of one key, with all updates.
unfoldable pub pushed : KeySpans → Text → List Ack → KeySpans
unfolding update_at
pushed ks key [] = ks
pushed ks key (a ∷ acks) = pushed (push_at ks a (update_at key a.update_info)) key acks

get-push_known :
    (spans : HashMap KeySpans) (key k : Text) (cidx : ℕ) (s : UpdateSpan) (o : Option KeySpans)
    → text_eq k key ≡ false
    → HashMap.get (push_known spans k cidx s o) key ≡ HashMap.get spans key
get-push_known spans key k cidx s none e = refl
get-push_known spans key k cidx s (some ks) e = rw (get-insert spans k key (push_span ks cidx s), e)

get-push_update :
    (spans : HashMap KeySpans) (key : Text) (ks : KeySpans) (a : Ack)
    (o : Option (Text × Option Text))
    → HashMap.get spans key ≡ some ks
    → HashMap.get (push_update spans a o) key ≡ some (push_at ks a (update_at key o))
unfolding update_at
get-push_update spans key ks a none g = g
get-push_update spans key ks a (some (k, value)) g = elim (Bool-cases (text_eq k key)) [
  | inl e ↦
      let found : HashMap.get spans k ≡ some ks = rw (text_eq→≡ k key e) g in
      rw (e, if◌then◌else◌, found) (rw (get-insert spans k key _, e) refl)
  | inr e ↦
      rw (e, if◌then◌else◌)
        (get-push_known spans key k a.cidx (span_of a value) (HashMap.get spans k) e ∙ g)
]

-- Where a key is known, the complete history has its spans with all its updates.
pub get-complete :
    (spans : HashMap KeySpans) (key : Text) (ks : KeySpans) (acks : List Ack)
    → HashMap.get spans key ≡ some ks
    → HashMap.get (complete spans acks) key ≡ some (pushed ks key acks)
unfolding complete pushed push_ack
get-complete spans key ks [] g = g
get-complete spans key ks (a ∷ acks) g =
    get-complete (push_ack spans a) key (push_at ks a (update_at key a.update_info)) acks
      (get-push_update spans key ks a a.update_info g)

get-push_update-none :
    (spans : HashMap KeySpans) (key : Text) (a : Ack) (o : Option (Text × Option Text))
    → HashMap.get spans key ≡ none
    → HashMap.get (push_update spans a o) key ≡ none
get-push_update-none spans key a none g = g
get-push_update-none spans key a (some (k, value)) g = elim (Bool-cases (text_eq k key)) [
  | inl e ↦ let missing : HashMap.get spans k ≡ none = rw (text_eq→≡ k key e) g in rw missing g
  | inr e ↦ get-push_known spans key k a.cidx (span_of a value) (HashMap.get spans k) e ∙ g
]

-- No key is added.
pub get-complete-none :
    (spans : HashMap KeySpans) (key : Text) (acks : List Ack)
    → HashMap.get spans key ≡ none
    → HashMap.get (complete spans acks) key ≡ none
unfolding complete push_ack
get-complete-none spans key [] g = g
get-complete-none spans key (a ∷ acks) g =
    get-complete-none (push_ack spans a) key acks (get-push_update-none spans key a a.update_info g)

push_known-AreDistinct :
    (spans : HashMap KeySpans) (key : Text) (cidx : ℕ) (s : UpdateSpan) (o : Option KeySpans)
    → AreDistinct spans
    → AreDistinct (push_known spans key cidx s o)
push_known-AreDistinct spans key cidx s none h = h
push_known-AreDistinct spans key cidx s (some ks) h = insert-AreDistinct spans key _ h

push_update-AreDistinct :
    (spans : HashMap KeySpans) (a : Ack) (o : Option (Text × Option Text))
    → AreDistinct spans
    → AreDistinct (push_update spans a o)
push_update-AreDistinct spans a none h = h
push_update-AreDistinct spans a (some (k, value)) h =
    push_known-AreDistinct spans k a.cidx (span_of a value) (HashMap.get spans k) h

pub complete-AreDistinct :
    (spans : HashMap KeySpans) (acks : List Ack)
    → AreDistinct spans
    → AreDistinct (complete spans acks)
unfolding complete push_ack
complete-AreDistinct spans [] h = h
complete-AreDistinct spans (a ∷ acks) h =
    complete-AreDistinct (push_ack spans a) acks (push_update-AreDistinct spans a a.update_info h)

pub pushed-append :
    (ks : KeySpans) (key : Text) (before after : List Ack)
    → pushed ks key (before ++ after) ≡ pushed (pushed ks key before) key after
unfolding pushed
pushed-append ks key [] after = refl
pushed-append ks key (a ∷ before) after = pushed-append (push_at ks a _) key before after

length-push_at :
    (ks : KeySpans) (a : Ack) (o : Option (Option Text)) → length (push_at ks a o) ≡ length ks
length-push_at ks a none = refl
length-push_at ks a (some value) = length-push_span ks a.cidx (span_of a value)

pub length-pushed :
    (ks : KeySpans) (key : Text) (acks : List Ack) → length (pushed ks key acks) ≡ length ks
unfolding pushed
length-pushed ks key [] = refl
length-pushed ks key (a ∷ acks) =
    length-pushed (push_at ks a (update_at key a.update_info)) key acks
    ∙ length-push_at ks a (update_at key a.update_info)

module _ (matches : Option Text → Bool) (tc tr : ℕ) where
  -- The search finds an answer in the spans of one client.
  abbrev pub SeenAt : ℕ → KeySpans → Type 0
  SeenAt c [] = ⊥
  SeenAt zero (l ∷ ks) = Seen matches tc tr l
  SeenAt (suc c) (l ∷ ks) = SeenAt c ks

  pub Any-SeenAt : (c : ℕ) (ks : KeySpans) → SeenAt c ks → Any (Seen matches tc tr) ks
  Any-SeenAt c [] h = absurd h
  Any-SeenAt zero (l ∷ ks) h = inl h
  Any-SeenAt (suc c) (l ∷ ks) h = inr (Any-SeenAt c ks h)

  Seen-push :
      (l : ClientSpans) (s : UpdateSpan)
      → tc ≤ s.ts_resp
      → Seen matches tc tr l
      → Seen matches tc tr (l ++ s ∷ [])
  Seen-push [] s h seen = absurd seen
  Seen-push (x ∷ l) s h (inl seen) =
      inl (seen.0, seen.1, All-append (λ y. tc ≤ y.ts_resp) l (s ∷ []) seen.2 (h, tt))
  Seen-push (x ∷ l) s h (inr seen) = inr (Seen-push l s h seen)

  Seen-push_new :
      (l : ClientSpans) (s : UpdateSpan)
      → s.ts_call < tr
      → matches s.value ≡ true
      → Seen matches tc tr (l ++ s ∷ [])
  Seen-push_new [] s h m = inl (h, m, tt)
  Seen-push_new (x ∷ l) s h m = inr (Seen-push_new l s h m)

  SeenAt-push :
      (c cidx : ℕ) (ks : KeySpans) (s : UpdateSpan)
      → (cidx ≡ c → tc ≤ s.ts_resp)
      → SeenAt c ks
      → SeenAt c (push_span ks cidx s)
  unfolding push_span
  SeenAt-push c cidx [] s h seen = absurd seen
  SeenAt-push zero zero (l ∷ ks) s h seen = Seen-push l s (h refl) seen
  SeenAt-push zero (suc cidx) (l ∷ ks) s h seen = seen
  SeenAt-push (suc c) zero (l ∷ ks) s h seen = seen
  SeenAt-push (suc c) (suc cidx) (l ∷ ks) s h seen =
      SeenAt-push c cidx ks s (λ e. h (ap suc e)) seen

  SeenAt-push_new :
      (c : ℕ) (ks : KeySpans) (s : UpdateSpan)
      → c < length ks
      → s.ts_call < tr
      → matches s.value ≡ true
      → SeenAt c (push_span ks c s)
  unfolding push_span
  SeenAt-push_new c [] s room h m = absurd (omega arith)
  SeenAt-push_new zero (l ∷ ks) s room h m = Seen-push_new l s h m
  SeenAt-push_new (suc c) (l ∷ ks) s room h m = SeenAt-push_new c ks s (omega arith) h m

  -- An update of the key by the client is not over when the search's call begins.
  abbrev pub IsPassed : Text → ℕ → Ack → Type 0
  IsPassed key c a = a.cidx ≡ c → update_at key a.update_info ≢ none → tc ≤ a.ts_resp

  SeenAt-push_at :
      (c : ℕ) (ks : KeySpans) (a : Ack) (o : Option (Option Text))
      → (a.cidx ≡ c → o ≢ none → tc ≤ a.ts_resp)
      → SeenAt c ks
      → SeenAt c (push_at ks a o)
  SeenAt-push_at c ks a none h seen = seen
  SeenAt-push_at c ks a (some value) h seen =
      SeenAt-push c a.cidx ks (span_of a value) (λ e. h e (λ k. cc)) seen

  pub SeenAt-pushed :
      (c : ℕ) (ks : KeySpans) (key : Text) (acks : List Ack)
      → All (IsPassed key c) acks
      → SeenAt c ks
      → SeenAt c (pushed ks key acks)
  unfolding pushed
  SeenAt-pushed c ks key [] h seen = seen
  SeenAt-pushed c ks key (a ∷ acks) h seen =
      SeenAt-pushed c (push_at ks a (update_at key a.update_info)) key acks h.1
        (SeenAt-push_at c ks a (update_at key a.update_info) h.0 seen)

  -- A client's update that answers is found if the client's later ones are passed.
  pub SeenAt-written :
      (ks : KeySpans) (key : Text) (before after : List Ack) (s : Ack) (value : Option Text)
      → s.cidx < length ks
      → update_at key s.update_info ≡ some value
      → s.ts_call < tr
      → matches value ≡ true
      → All (IsPassed key s.cidx) after
      → SeenAt s.cidx (pushed ks key (before ++ (s ∷ after)))
  unfolding pushed
  SeenAt-written ks key before after s value room w h m k =
      let ks' = pushed ks key before in
      subst (SeenAt s.cidx) (sym (pushed-append ks key before (s ∷ after))) (
        SeenAt-pushed s.cidx (push_at ks' s (update_at key s.update_info)) key after k (
          subst (λ o. SeenAt s.cidx (push_at ks' s o)) (sym w)
            (SeenAt-push_new s.cidx ks' (span_of s value)
              (omega (arith, length-pushed ks key before)) h m)))
