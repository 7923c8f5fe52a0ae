-- ===== src/Fuzzer/Driver/Flying.antt =====
-- The calls that are on the fly when `fuzz_test` fails, and what explains the responses before.
use madkv.Prelude.{
  ℕ, ◌<◌, ◌≡◌, ◌≢◌, subst, true, none, some, Bool, List, [], ◌∷◌, ◌++◌, All, All-map, arith, length,
  length-set, set, get_elem?, get_elem?-set_ne, sym,
}
use madkv.Runner.Resp.{KvResp, put, swap, get, scan, delete, stop}
use madkv.HashMap
use madkv.HashMap.{HashMap, get-contains_key}
use madkv.Fuzzer.Outside.{Rng, BitVecs, Clients}
use madkv.Fuzzer.History.Spans.{KeySpans}
use madkv.Fuzzer.History.Minimum.{AtMost}
use madkv.Fuzzer.History.Whole.{Ack, AreSynchronous, maxtr_after}
use madkv.Fuzzer.History.Sequential.{Linearization}
use madkv.Fuzzer.History.NoAlarm.{KnownResp}
use madkv.Fuzzer.Driver.{Loop}
use madkv.Fuzzer.Driver.Invariant.{IsMemo, Inv}

-- The response is about a key that the history knows.
abbrev pub resp_known : HashMap KeySpans → KvResp → Bool
resp_known spans (put key found) = HashMap.contains_key spans key
resp_known spans (swap key old_value) = HashMap.contains_key spans key
resp_known spans (get key value) = HashMap.contains_key spans key
resp_known spans (scan key_start key_end entries) = true
resp_known spans (delete key found) = HashMap.contains_key spans key
resp_known spans stop = true

pub resp_known-KnownResp :
    (spans : HashMap KeySpans) (resp : KvResp) → resp_known spans resp ≡ true → KnownResp spans resp
resp_known-KnownResp spans (put key found) h = get-contains_key spans key h
resp_known-KnownResp spans (swap key old_value) h = get-contains_key spans key h
resp_known-KnownResp spans (get key value) h = get-contains_key spans key h
resp_known-KnownResp spans (scan key_start key_end entries) h = tt
resp_known-KnownResp spans (delete key found) h = get-contains_key spans key h
resp_known-KnownResp spans stop h = tt

-- No two are from the same client.
abbrev pub AreApart : List Ack → Type 0
AreApart [] = Unit
AreApart (a ∷ acks) = All (λ b. a.cidx ≢ b.cidx) acks × AreApart acks

-- A call that began after its client's last update.
abbrev Starts : List ℕ → Ack → Type 0
Starts last a =
    (a.cidx < length last) × (a.ts_call < a.ts_resp) × AtMost (get_elem? last a.cidx) a.ts_call

Starts-after :
    (last : List ℕ) (a b : Ack) → a.cidx ≢ b.cidx → Starts last b → Starts (maxtr_after last a) b
Starts-after last a b ne h =
    elim a.update_info
      as (λ o. Starts (elim o [ none ↦ last | some u ↦ set last a.cidx a.ts_resp ]) b) [
        | none ↦ h
        | some u ↦ (
          omega (arith, length-set last a.cidx a.ts_resp, h.0),
          h.1,
          subst (λ o. AtMost o b.ts_call) (sym (get_elem?-set_ne last a.cidx b.cidx a.ts_resp ne))
              h.2,
        )
      ]

Starts-all :
    (last : List ℕ) (a : Ack) (acks : List Ack)
    → All (λ b. a.cidx ≢ b.cidx) acks
    → All (Starts last) acks
    → All (Starts (maxtr_after last a)) acks
Starts-all last a [] h k = tt
Starts-all last a (b ∷ acks) h k = (Starts-after last a b h.0 k.0, Starts-all last a acks h.1 k.1)

Starts-AreSynchronous :
    (last : List ℕ) (acks : List Ack)
    → AreApart acks
    → All (Starts last) acks
    → AreSynchronous last acks
Starts-AreSynchronous last [] h k = tt
Starts-AreSynchronous last (a ∷ acks) h k = (
  k.0.0,
  omega (arith, k.0.1),
  k.0.2,
  Starts-AreSynchronous (maxtr_after last a) acks h.1 (Starts-all last a acks h.0 k.1),
)

module _ (rand : Rng) (bits : BitVecs) (clients : Clients) (spans : HashMap KeySpans)
    (s : Loop rand bits clients) where
  -- A later response, about a known key, to a call that is on the fly.
  pub record Completes (b : Ack) : Type 0 where
    pub on_the_fly : bits.get s.flying b.cidx ≡ some true
    pub memo : get_elem? s.call_memo b.cidx ≡ some (b.ts_call, b.update_info)
    pub is_later : s.timestamp < b.ts_resp
    pub about : resp_known spans b.resp ≡ true

  -- Why a linearizable service may have given the responses `acks` until `s`: with later responses
  -- to some of the calls that are on the fly, there is an order in which an atomic map gives them
  -- all, and which keeps the order of the calls that do not overlap.
  pub record Explanation (acks : List Ack) : Type 0 where
    pub later : List Ack
    pub completes : All Completes later
    pub apart : AreApart later
    pub seq : List Ack
    pub linear : Linearization (acks ++ later) seq

  module _ (total n : ℕ) (last : List ℕ) (inv : Inv rand bits clients total n last s) where
    open inv use {flags, lasts, open_call}

    Completes-Starts : (b : Ack) → Completes b → Starts last b
    Completes-Starts b c =
        let found =
          subst (λ m. IsMemo m (get_elem? last b.cidx) s.timestamp) c.memo
            (open_call b.cidx c.on_the_fly) in
        let room = bits.get-lt s.flying b.cidx true c.on_the_fly in
        (omega (arith, flags, lasts, room), omega (arith, c.is_later, found.1), found.0)

    Completes-all : (later : List Ack) → All Completes later → All (Starts last) later
    Completes-all [] h = tt
    Completes-all (b ∷ later) h = (Completes-Starts b h.0, Completes-all later h.1)

    pub Completes-AreSynchronous :
        (later : List Ack)
        → All Completes later
        → AreApart later
        → AreSynchronous last later × All (λ b. b.ts_call < b.ts_resp) later
    Completes-AreSynchronous later h apart =
        let starts = Completes-all later h in
        (
          Starts-AreSynchronous last later apart starts,
          All-map (λ (b : Ack) (start : Starts last b). start.1) later starts,
        )
