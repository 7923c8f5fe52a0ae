-- ===== src/Fuzzer/Driver/Known.antt =====
-- Every response that the loop of `fuzz_test` hands to the checker comes from a synchronous client,
-- and updates a key that the checker knows.
use madkv.Prelude.{
  ℕ, ◌*◌, ◌^◌, ◌<◌, ◌≡◌, refl, subst, true, false, Bool-cases, inl, inr, Option, none, some, List,
  [], ◌∷◌, ◌++◌, if◌then◌else◌, arith, All, get_elem?, All-map, All-set, All-get_elem?, replicate,
}
use madkv.Prelude.Results.{lift, Ensures, bind-Ensures, bind-Ensures_any}
use madkv.Text.{Text}
use madkv.Text.Eq.{text_eq_iff}
use madkv.Runner.Resp.{KvResp}
use madkv.HashMap
use madkv.HashMap.{HashMap, get-contains_key}
use madkv.HashMap.Distinct.{contains_key-insert}
use madkv.Fuzzer.Outside.{Rng, BitVecs, Clients}
use madkv.Fuzzer.Random.{at, gen_rand_client, gen_call_vs_wait, gen_rand_kvcall}
use madkv.Fuzzer.KnownKeys.{updates_known, gen_rand_kvcall-known}
use madkv.Fuzzer.History.Spans.{KeySpans}
use madkv.Fuzzer.History.Update.{dummy, new, add_key, add_keys, add_pools}
use madkv.Fuzzer.History.Whole.{Ack, AreSynchronous}
use madkv.Fuzzer.History.Online.{KnownKey}
use madkv.Fuzzer.Driver.{
  Loop, Memo, Turn, called, stopped, harvested, make_call, harvest, note_response, take_turn,
  is_stop,
}
use madkv.Fuzzer.Driver.Invariant.{Inv}
use madkv.Fuzzer.Driver.Steps.{TurnOk}
use madkv.Fuzzer.Driver.Turns.{take_turn-Ok, at-Ensures}
use madkv.Fuzzer.Driver.Traces.{Harvests, here, call, response, turn_of}

abbrev HasAll : HashMap KeySpans → List Text → Type 0
HasAll spans pool = All (λ key. HashMap.contains_key spans key ≡ true) pool

-- The keys of `b` are at least those of `a`.
abbrev Extends : HashMap KeySpans → HashMap KeySpans → Type 0
Extends a b = (key : Text) → HashMap.contains_key a key ≡ true → HashMap.contains_key b key ≡ true

module _ (n : ℕ) where
  add_key-Extends : (spans : HashMap KeySpans) (key : Text) → Extends spans (add_key n spans key)
  unfolding add_key
  add_key-Extends spans key j h = elim (Bool-cases (HashMap.contains_key spans key)) [
    | inl e ↦ rw (e, if◌then◌else◌) h
    | inr e ↦
        rw (e, if◌then◌else◌)
          (ground (arith, contains_key-insert spans key j (replicate n (dummy ∷ []))))
  ]

  contains_key-add_key :
      (spans : HashMap KeySpans) (key : Text)
      → HashMap.contains_key (add_key n spans key) key ≡ true
  unfolding add_key
  contains_key-add_key spans key = elim (Bool-cases (HashMap.contains_key spans key)) [
    | inl e ↦ rw (e, if◌then◌else◌) e
    | inr e ↦
        rw (e, if◌then◌else◌)
          (ground (
            arith,
            contains_key-insert spans key key (replicate n (dummy ∷ [])),
            text_eq_iff key key,
          ))
  ]

  add_keys-Extends :
      (spans : HashMap KeySpans) (pool : List Text) → Extends spans (add_keys n spans pool)
  unfolding add_keys
  add_keys-Extends spans [] j h = h
  add_keys-Extends spans (key ∷ pool) j h =
      add_keys-Extends (add_key n spans key) pool j (add_key-Extends spans key j h)

  add_keys-HasAll :
      (spans : HashMap KeySpans) (pool : List Text) → HasAll (add_keys n spans pool) pool
  unfolding add_keys
  add_keys-HasAll spans [] = tt
  add_keys-HasAll spans (key ∷ pool) = (
    add_keys-Extends (add_key n spans key) pool key (contains_key-add_key spans key),
    add_keys-HasAll (add_key n spans key) pool,
  )

  add_pools-Extends :
      (spans : HashMap KeySpans) (keys : List (List Text)) → Extends spans (add_pools n spans keys)
  unfolding add_pools
  add_pools-Extends spans [] j h = h
  add_pools-Extends spans (pool ∷ keys) j h =
      add_pools-Extends (add_keys n spans pool) keys j (add_keys-Extends spans pool j h)

  add_pools-HasAll :
      (spans : HashMap KeySpans) (keys : List (List Text))
      → All (HasAll (add_pools n spans keys)) keys
  unfolding add_pools
  add_pools-HasAll spans [] = tt
  add_pools-HasAll spans (pool ∷ keys) = (
    All-map (add_pools-Extends (add_keys n spans pool) keys) pool (add_keys-HasAll spans pool),
    add_pools-HasAll (add_keys n spans pool) keys,
  )

  -- A new history knows every key of every pool.
  pub new-HasAll : (keys : List (List Text)) → All (HasAll (new n keys).spans) keys
  unfolding new
  new-HasAll keys = add_pools-HasAll [] keys

module _ (rand : Rng) (bits : BitVecs) (clients : Clients) (draws total_ops : ℕ)
    (keys : List (List Text)) (spans : HashMap KeySpans) (pools : All (HasAll spans) keys) where
  abbrev Vars : Type 0
  Vars = Loop rand bits clients

  abbrev UpdatesKnown : Option (Text × Option Text) → Type 0
  UpdatesKnown o = updates_known (λ key. HashMap.contains_key spans key) o ≡ true

  abbrev pub MemosKnown : Vars → Type 0
  MemosKnown s = All (λ (memo : Memo). UpdatesKnown memo.1) s.call_memo

  abbrev TurnKnown : Turn rand bits clients → Type 0
  TurnKnown (called s) = MemosKnown s
  TurnKnown stopped = Unit
  TurnKnown (harvested a s) = UpdatesKnown a.update_info × MemosKnown s

  make_call-known :
      (s : Vars) (rng : rand.State)
      → MemosKnown s
      → Ensures TurnKnown (make_call rand bits clients draws keys s rng)
  unfolding make_call
  make_call-known s rng known =
      bind-Ensures_any TurnKnown (gen_rand_client rand bits draws rng s.flying false) _ λ c.
        bind-Ensures _ TurnKnown (at keys c.0) _ (at-Ensures keys c.0) λ cli_keys found.
          bind-Ensures _ TurnKnown (gen_rand_kvcall rand cli_keys s.stats c.0 c.1) _
            (gen_rand_kvcall-known rand (λ key. HashMap.contains_key spans key) cli_keys s.stats c.0
              c.1 (All-get_elem? (HasAll spans) keys c.0 cli_keys pools found))
            λ g updates. bind-Ensures_any TurnKnown (at s.call_memo c.0) _ λ m.
              bind-Ensures_any TurnKnown (lift (clients.send_call s.world c.0 g.0)) _ λ world.
                All-set (λ (memo : Memo). UpdatesKnown memo.1) s.call_memo c.0 _ known updates

  note_response-known :
      (s : Vars) (cidx : ℕ) (resp : KvResp)
      → MemosKnown s
      → Ensures TurnKnown (note_response rand bits clients s cidx resp)
  unfolding note_response
  note_response-known s cidx resp known =
      bind-Ensures _ TurnKnown (at s.call_memo cidx) _ (at-Ensures s.call_memo cidx) λ memo found. (
        All-get_elem? (λ (memo : Memo). UpdatesKnown memo.1) s.call_memo cidx memo known found,
        All-set (λ (memo : Memo). UpdatesKnown memo.1) s.call_memo cidx (0, none) known refl,
      )

  harvest-known :
      (s : Vars) (rng : rand.State)
      → MemosKnown s
      → Ensures TurnKnown (harvest rand bits clients draws s rng)
  unfolding harvest
  harvest-known s rng known =
      bind-Ensures_any TurnKnown (gen_rand_client rand bits draws rng s.flying true) _ λ c.
        bind-Ensures_any TurnKnown (lift (clients.wait_resp s.world c.0)) _ λ r.
          elim (Bool-cases (is_stop r.0)) [
            | inl e ↦ rw (e, if◌then◌else◌) tt
            | inr e ↦ rw (e, if◌then◌else◌) (note_response-known _ c.0 r.0 known)
          ]

  take_turn-known :
      (s : Vars)
      → MemosKnown s
      → Ensures TurnKnown (turn_of rand bits clients draws total_ops keys s)
  unfolding take_turn
  take_turn-known s known =
      elim (Bool-cases (gen_call_vs_wait rand bits s.rng s.ops_called total_ops s.flying).0) [
        | inl e ↦ rw (e, if◌then◌else◌) (make_call-known _ _ known)
        | inr e ↦ rw (e, if◌then◌else◌) (harvest-known _ _ known)
      ]

  known_key : (o : Option (Text × Option Text)) → UpdatesKnown o → KnownKey spans o
  known_key none h = tt
  known_key (some (key, value)) h = get-contains_key spans key h

  pub MemosKnown-KnownKey :
      (s : Vars) (c ts_call : ℕ) (info : Option (Text × Option Text))
      → MemosKnown s
      → get_elem? s.call_memo c ≡ some (ts_call, info)
      → KnownKey spans info
  MemosKnown-KnownKey s c ts_call info known found = known_key info (
      All-get_elem? (λ (memo : Memo). UpdatesKnown memo.1) s.call_memo c (ts_call, info) known
        found)

  -- What is harvested updates known keys, and so do the calls that are left on the fly.
  pub Harvests-KnownKey :
      (s' s : Vars) (acks : List Ack)
      → Harvests rand bits clients draws total_ops keys s' s acks
      → MemosKnown s
      → All (λ a. KnownKey spans a.update_info) acks × MemosKnown s'
  Harvests-KnownKey s' _ _ here known = (tt, known)
  Harvests-KnownKey s' _ acks (call {s} {t} fits e r) known =
      Harvests-KnownKey s' t acks r (subst (Ensures TurnKnown) e (take_turn-known s known))
  Harvests-KnownKey s' _ _ (response {s} {t} {acks} a fits e r) known =
      let ok = subst (Ensures TurnKnown) e (take_turn-known s known) in
      let rest = Harvests-KnownKey s' t acks r ok.1 in
      ((known_key a.update_info ok.0, rest.0), rest.1)

module _ (rand : Rng) (bits : BitVecs) (clients : Clients) (draws total_ops n : ℕ)
    (small : 2 * total_ops < 2 ^ 64) (keys : List (List Text)) where
  -- What is harvested, and then come `later` responses, is from synchronous clients if the later
  -- ones come after the last updates that the harvested ones leave.
  pub Harvests-AreSynchronous :
      (s' : Loop rand bits clients) (later : List Ack)
      (ends : (last : List ℕ)
        → Inv rand bits clients total_ops n last s'
        → AreSynchronous last later × All (λ a. a.ts_call < a.ts_resp) later)
      (last : List ℕ) (s : Loop rand bits clients) (acks : List Ack)
      → Harvests rand bits clients draws total_ops keys s' s acks
      → Inv rand bits clients total_ops n last s
      → AreSynchronous last (acks ++ later) × All (λ a. a.ts_call < a.ts_resp) (acks ++ later)
  Harvests-AreSynchronous s' later ends last _ _ here inv = ends last inv
  Harvests-AreSynchronous s' later ends last _ acks (call {s} {t} fits e r) inv =
      let ok =
        subst (Ensures (TurnOk rand bits clients total_ops n small last s.timestamp)) e
          (take_turn-Ok rand bits clients total_ops n small last s inv draws keys fits) in
      Harvests-AreSynchronous s' later ends last t acks r ok.0
  Harvests-AreSynchronous s' later ends last _ _ (response {s} {t} {acks} a fits e r) inv =
      let ok =
        subst (Ensures (TurnOk rand bits clients total_ops n small last s.timestamp)) e
          (take_turn-Ok rand bits clients total_ops n small last s inv draws keys fits) in
      let rest = Harvests-AreSynchronous s' later ends _ t acks r ok.3 in
      ((ok.0, omega (arith, ok.1), ok.2, rest.0), (ok.1, rest.1))
