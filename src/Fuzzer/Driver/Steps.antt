-- ===== src/Fuzzer/Driver/Steps.antt =====
-- An iteration of the loop of `fuzz_test` keeps its invariant, and what it hands to the checker
-- comes from synchronous clients.
use madkv.Prelude.{
  ℕ, suc, ◌*◌, ◌^◌, ◌<◌, ◌≡◌, ◌≢◌, ◌∙◌, subst, ◌==◌, ==_iff, true, false, Bool-cases, Option-cases,
  inl, inr, none, some, List, arith, length, set, get_elem?, length-set, get_elem?-set_self,
  get_elem?-set_ne,
}
use madkv.Runner.Call.{KvCall, update_info}
use madkv.Runner.Resp.{KvResp}
use madkv.Fuzzer.Outside.{Rng, BitVecs, Clients}
use madkv.Fuzzer.Random.{inc, Stats}
use madkv.Fuzzer.History.Minimum.{AtMost}
use madkv.Fuzzer.History.Whole.{Ack, maxtr_after}
use madkv.Fuzzer.Driver.{Memo, Loop, Turn, called, stopped, harvested}
use madkv.Fuzzer.Driver.Invariant.{
  inc_lem, IsMemo, Inv, AtMost-le, IsMemo-le, get-set_true_ne, get-set_false,
}

module _ (rand : Rng) (bits : BitVecs) (clients : Clients) (total n : ℕ)
    (small : 2 * total < 2 ^ 64) where
  abbrev pub Vars : Type 0
  Vars = Loop rand bits clients

  abbrev pub now : Vars → Vars
  now s = record s { timestamp = inc s.timestamp }

  -- The turn begins at the next timestamp, from a state with the invariant.
  abbrev pub TurnOk : List ℕ → ℕ → Turn rand bits clients → Type 0
  TurnOk last t (called s) = Inv rand bits clients total n last s × (s.timestamp ≡ suc t)
  TurnOk last t stopped = Unit
  TurnOk last t (harvested ack s) =
      (ack.cidx < length last)
      × (ack.ts_call < ack.ts_resp)
      × AtMost (get_elem? last ack.cidx) ack.ts_call
      × Inv rand bits clients total n (maxtr_after last ack) s
      × (s.timestamp ≡ suc t)

  module _ (last : List ℕ) (s : Vars) (v : Inv rand bits clients total n last s) where
    open v use {flags, memos, lasts, clock, calls, waits, quiet, open_call}

    module _ (cidx : ℕ) (call : KvCall) (fits : s.ops_called < total)
        (status : bits.get s.flying cidx ≡ some false) (rng : rand.State) (stats : Stats)
        (world : clients.World) where
      room : cidx < bits.len s.flying
      room = bits.get-lt s.flying cidx false status

      abbrev pub after_call : Vars
      after_call = record (now s) {
        flying = bits.set s.flying cidx true;
        call_memo = set s.call_memo cidx (inc s.timestamp, update_info call);
        ops_called = inc s.ops_called;
        stats = stats;
        rng = rng;
        world = world;
      }

      tick : inc s.timestamp ≡ suc s.timestamp
      tick = omega (arith, inc_lem s.timestamp)

      counted : inc s.ops_called ≡ suc s.ops_called
      counted = omega (arith, inc_lem s.ops_called)

      open_after :
          (c : ℕ)
          → bits.get (bits.set s.flying cidx true) c ≡ some true
          → IsMemo
              (get_elem? (set s.call_memo cidx (inc s.timestamp, update_info call)) c)
              (get_elem? last c)
              (inc s.timestamp)
      open_after c h = elim (Bool-cases (cidx == c)) [
        | inl e ↦
            let same : cidx ≡ c = (==_iff cidx c).0 e in
            subst
              (λ d.
                IsMemo (get_elem? (set s.call_memo cidx (inc s.timestamp, update_info call)) d)
                  (get_elem? last d) (inc s.timestamp))
              same
              (rw
                (get_elem?-set_self s.call_memo cidx (inc s.timestamp, update_info call)
                  (omega (arith, room)))
                (
                  AtMost-le (get_elem? last cidx) s.timestamp (inc s.timestamp) (quiet cidx)
                      (omega (arith, tick)),
                  omega arith,
                ))
        | inr e ↦
            let ne : cidx ≢ c = λ same. ground (arith, (==_iff cidx c).1 same) in
            rw (get_elem?-set_ne s.call_memo cidx c (inc s.timestamp, update_info call) ne) (
              IsMemo-le (get_elem? s.call_memo c) (get_elem? last c) s.timestamp (inc s.timestamp)
                (open_call c (get-set_true_ne bits s.flying cidx c room ne h))
                (omega (arith, tick)))
      ]

      after_call-Inv : Inv rand bits clients total n last after_call
      after_call-Inv = record {
        flags = bits.len-set s.flying cidx true ∙ flags;
        memos = length-set s.call_memo cidx _ ∙ memos;
        lasts = lasts;
        clock = omega (arith, tick, counted, clock);
        calls = omega (arith, counted);
        waits = waits;
        quiet = λ c.
            AtMost-le (get_elem? last c) s.timestamp (inc s.timestamp) (quiet c)
              (omega (arith, tick));
        open_call = open_after;
      }

      -- The turn of a call.
      pub called-Ok : TurnOk last s.timestamp (called after_call)
      called-Ok = (after_call-Inv, tick)

    module _ (cidx : ℕ) (status : bits.get s.flying cidx ≡ some true) (resp : KvResp) (memo : Memo)
        (noted : get_elem? s.call_memo cidx ≡ some memo) (fits : s.ops_waited < total)
        (rng : rand.State) (world : clients.World) where
      room_h : cidx < bits.len s.flying
      room_h = bits.get-lt s.flying cidx true status

      tick_h : inc s.timestamp ≡ suc s.timestamp
      tick_h = omega (arith, inc_lem s.timestamp)

      counted_h : inc s.ops_waited ≡ suc s.ops_waited
      counted_h = omega (arith, inc_lem s.ops_waited)

      memo_lem : IsMemo (some memo) (get_elem? last cidx) s.timestamp
      memo_lem =
          subst (λ m. IsMemo m (get_elem? last cidx) s.timestamp) noted (open_call cidx status)

      abbrev pub ack : Ack
      ack = record {
        cidx = cidx;
        ts_call = memo.0;
        ts_resp = inc s.timestamp;
        resp = resp;
        update_info = memo.1;
      }

      abbrev pub after_resp : Vars
      after_resp = record (now s) {
        flying = bits.set s.flying cidx false;
        call_memo = set s.call_memo cidx (0, none);
        ops_waited = inc s.ops_waited;
        rng = rng;
        world = world;
      }

      last_ne : (c : ℕ) → cidx ≢ c → get_elem? (maxtr_after last ack) c ≡ get_elem? last c
      last_ne c ne = elim (Option-cases memo.1) [
        | inl e ↦ rw (e, maxtr_after)
        | inr (u, e) ↦ rw (e, maxtr_after) (get_elem?-set_ne last cidx c (inc s.timestamp) ne)
      ]

      last_le : AtMost (get_elem? (maxtr_after last ack) cidx) (inc s.timestamp)
      last_le = elim (Option-cases memo.1) [
        | inl e ↦
            rw (e, maxtr_after)
              (AtMost-le (get_elem? last cidx) s.timestamp (inc s.timestamp) (quiet cidx)
                (omega (arith, tick_h)))
        | inr (u, e) ↦
            rw
              (
                e,
                maxtr_after,
                get_elem?-set_self last cidx (inc s.timestamp) (omega (arith, room_h)),
              )
              (omega arith)
      ]

      length_last : length (maxtr_after last ack) ≡ length last
      length_last = elim (Option-cases memo.1) [
        | inl e ↦ rw (e, maxtr_after)
        | inr (u, e) ↦ rw (e, maxtr_after) (length-set last cidx (inc s.timestamp))
      ]

      quiet_h : (c : ℕ) → AtMost (get_elem? (maxtr_after last ack) c) (inc s.timestamp)
      quiet_h c = elim (Bool-cases (cidx == c)) [
        | inl e ↦
            subst (λ d. AtMost (get_elem? (maxtr_after last ack) d) (inc s.timestamp))
              ((==_iff cidx c).0 e) last_le
        | inr e ↦ rw (last_ne c (λ same. ground (arith, (==_iff cidx c).1 same))) (
            AtMost-le (get_elem? last c) s.timestamp (inc s.timestamp) (quiet c)
              (omega (arith, tick_h)))
      ]

      open_h :
          (c : ℕ)
          → bits.get (bits.set s.flying cidx false) c ≡ some true
          → IsMemo
              (get_elem? (set s.call_memo cidx (0, none)) c)
              (get_elem? (maxtr_after last ack) c)
              (inc s.timestamp)
      open_h c h =
          let other = get-set_false bits s.flying cidx c room_h h in
          rw (last_ne c other.0, get_elem?-set_ne s.call_memo cidx c (0, none) other.0)
            (IsMemo-le (get_elem? s.call_memo c) (get_elem? last c) s.timestamp (inc s.timestamp)
              (open_call c other.1) (omega (arith, tick_h)))

      after_resp-Inv : Inv rand bits clients total n (maxtr_after last ack) after_resp
      after_resp-Inv = record {
        flags = bits.len-set s.flying cidx false ∙ flags;
        memos = length-set s.call_memo cidx _ ∙ memos;
        lasts = length_last ∙ lasts;
        clock = omega (arith, tick_h, counted_h, clock);
        calls = calls;
        waits = omega (arith, counted_h);
        quiet = quiet_h;
        open_call = open_h;
      }

      -- The turn of a response.
      pub harvested-Ok : TurnOk last s.timestamp (harvested ack after_resp)
      harvested-Ok = (
        omega (arith, room_h),
        omega (arith, tick_h, memo_lem.1),
        memo_lem.0,
        after_resp-Inv,
        tick_h,
      )
