-- ===== src/Fuzzer/History/Clients.antt =====
-- What synchronous clients guarantee about their later calls.
use madkv.Prelude.{
  ℕ, zero, suc, ◌≤◌, ◌<◌, ◌≡◌, sym, subst, List, [], ◌∷◌, ◌++◌, Option, none, some, arith, All,
  length, get_elem?, set, length-set, get_elem?-set_self, ◌≢◌, ap, refl, ◌∙◌,
}
use madkv.Text.{Text}
use madkv.Fuzzer.History.Minimum.{AtMost}
use madkv.Fuzzer.History.Whole.{Ack, AreSynchronous}
use madkv.Fuzzer.History.Decides.{maxtr_with}

-- There is an element, of at least the bound.
abbrev AtLeast : Option ℕ → ℕ → Type 0
AtLeast none lo = ⊥
AtLeast (some x) lo = lo ≤ x

AtLeast-AtMost : (o : Option ℕ) (lo t : ℕ) → AtLeast o lo → AtMost o t → lo ≤ t
AtLeast-AtMost none lo t h k = absurd h
AtLeast-AtMost (some x) lo t h k = omega arith

AtLeast-lt : (maxtr : List ℕ) (c lo : ℕ) → AtLeast (get_elem? maxtr c) lo → c < length maxtr
AtLeast-lt [] c lo h = absurd h
AtLeast-lt (x ∷ maxtr) zero lo h = omega arith
AtLeast-lt (x ∷ maxtr) (suc c) lo h = omega (arith, AtLeast-lt maxtr c lo h)

AtLeast-set :
    (maxtr : List ℕ) (c cidx lo v : ℕ)
    → AtLeast (get_elem? maxtr c) lo
    → (cidx ≡ c → lo ≤ v)
    → AtLeast (get_elem? (set maxtr cidx v) c) lo
AtLeast-set [] c cidx lo v h k = absurd h
AtLeast-set (x ∷ maxtr) zero zero lo v h k = k refl
AtLeast-set (x ∷ maxtr) zero (suc cidx) lo v h k = h
AtLeast-set (x ∷ maxtr) (suc c) zero lo v h k = h
AtLeast-set (x ∷ maxtr) (suc c) (suc cidx) lo v h k =
    AtLeast-set maxtr c cidx lo v h (λ e. k (ap suc e))

AtLeast-maxtr_with :
    (maxtr : List ℕ) (a : Ack) (o : Option (Text × Option Text)) (c lo : ℕ)
    → AtLeast (get_elem? maxtr c) lo
    → (a.cidx ≡ c → lo ≤ a.ts_resp)
    → AtLeast (get_elem? (maxtr_with maxtr a o) c) lo
AtLeast-maxtr_with maxtr a none c lo h k = h
AtLeast-maxtr_with maxtr a (some u) c lo h k = AtLeast-set maxtr c a.cidx lo a.ts_resp h k

-- A client's calls begin at or after its last update was over.
calls-AtLeast :
    (maxtr : List ℕ) (acks : List Ack) (c lo : ℕ)
    → AtLeast (get_elem? maxtr c) lo
    → AreSynchronous maxtr acks
    → All (λ t. t.cidx ≡ c → lo ≤ t.ts_call) acks
calls-AtLeast maxtr [] c lo h s = tt
calls-AtLeast maxtr (a ∷ acks) c lo h s =
    let first : a.cidx ≡ c → lo ≤ a.ts_call = λ e.
      AtLeast-AtMost (get_elem? maxtr c) lo a.ts_call h
        (subst (λ i. AtMost (get_elem? maxtr i) a.ts_call) e s.2) in
    (
      first,
      calls-AtLeast (maxtr_with maxtr a a.update_info) acks c lo
          (AtLeast-maxtr_with maxtr a a.update_info c lo h (λ e. omega (arith, first e, s.1))) s.3,
    )

AtLeast-updated :
    (maxtr : List ℕ) (a : Ack) (o : Option (Text × Option Text))
    → a.cidx < length maxtr
    → o ≢ none
    → AtLeast (get_elem? (maxtr_with maxtr a o) a.cidx) a.ts_resp
AtLeast-updated maxtr a none room h = absurd (h refl)
AtLeast-updated maxtr a (some u) room h =
    subst (λ o. AtLeast o a.ts_resp) (sym (get_elem?-set_self maxtr a.cidx a.ts_resp room))
      (omega arith)

-- After an update of a client is over, its calls begin.
pub later_calls :
    (maxtr : List ℕ) (before after : List Ack) (s : Ack)
    → AreSynchronous maxtr (before ++ (s ∷ after))
    → s.update_info ≢ none
    → All (λ t. t.cidx ≡ s.cidx → s.ts_resp ≤ t.ts_call) after
later_calls maxtr [] after s h k =
    calls-AtLeast (maxtr_with maxtr s s.update_info) after s.cidx s.ts_resp
      (AtLeast-updated maxtr s s.update_info h.0 k) h.3
later_calls maxtr (a ∷ before) after s h k =
    later_calls (maxtr_with maxtr a a.update_info) before after s h.3 k

length-maxtr_with :
    (maxtr : List ℕ) (a : Ack) (o : Option (Text × Option Text))
    → length (maxtr_with maxtr a o) ≡ length maxtr
length-maxtr_with maxtr a none = refl
length-maxtr_with maxtr a (some u) = length-set maxtr a.cidx a.ts_resp

pub clients_in_bounds :
    (maxtr : List ℕ) (acks : List Ack) (n : ℕ)
    → length maxtr ≡ n
    → AreSynchronous maxtr acks
    → All (λ a. a.cidx < n) acks
clients_in_bounds maxtr [] n e h = tt
clients_in_bounds maxtr (a ∷ acks) n e h = (
  omega (arith, h.0),
  clients_in_bounds (maxtr_with maxtr a a.update_info) acks n
      (length-maxtr_with maxtr a a.update_info ∙ e) h.3,
)
