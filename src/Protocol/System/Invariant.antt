-- ===== src/Protocol/System/Invariant.antt =====
-- In whatever order the parts take their steps, the responses come in the order of the calls, and
-- are those of an atomic map.
use madkv.Prelude.{◌≡◌, refl, sym, ap, ◌∙◌, subst, List, [], ◌∷◌, ◌++◌, map, append_assoc, All}
use madkv.Prelude.Results.{ok}
use madkv.Runner.Call
use madkv.Runner.Call.{call_line}
use madkv.Runner.Resp
use madkv.Runner.Proc.{ClientProc, send_call, send, wait_resp, recv_timeout}
use madkv.RefCli.Types.{KvResp}
use madkv.Protocol.Wire.{to_runner}
use madkv.Protocol.Session.{AllAnswered}
use madkv.Protocol.System.{
  System, IsFine, proc_of, Use, calls, waits, Reachable, initial, work, use_of,
}
use madkv.Protocol.System.Stages.{
  idle, asked, replied, Inv, start-Inv, Work-Inv, map-snoc, All-snoc, ok_inj,
}

-- A call goes to the end of the channel.
send_call-queue :
    (s : System) (c : Call.KvCall) (p : ClientProc)
    → send_call (proc_of s) c ≡ ok p
    → p.call_tx.queue ≡ s.calls ++ (c ∷ [])
unfolding send_call send
send_call-queue s c p e = ap (λ q. q.call_tx.queue) (ok_inj (sym e))

sent_later :
    (sent served rest : List Call.KvCall) (c : Call.KvCall)
    → sent ≡ served ++ rest
    → sent ++ (c ∷ []) ≡ served ++ (rest ++ (c ∷ []))
sent_later sent served rest c e = ap (λ l. l ++ (c ∷ [])) e ∙ append_assoc served rest (c ∷ [])

calls-Inv :
    (s : System) (c : Call.KvCall) (queue : List Call.KvCall)
    → Inv s
    → IsFine c
    → queue ≡ s.calls ++ (c ∷ [])
    → Inv (record s { calls = queue; sent = s.sent ++ (c ∷ []) })
calls-Inv s c queue inv ok' q = record {
  served = inv.served;
  rs = inv.rs;
  answered = inv.answered;
  sorted = inv.sorted;
  wired = inv.wired;
  fine = subst (All IsFine) (sym q) (All-snoc IsFine s.calls c inv.fine ok');
  stage = elim inv.stage [
    | idle b t f sent got ↦
        idle b t f (sent_later s.sent inv.served s.calls c sent ∙ ap (λ l. inv.served ++ l) (sym q))
          got
    | asked d b t f sent got fine ↦
        asked d b t f
          (sent_later s.sent inv.served (d ∷ s.calls) c sent
            ∙ ap (λ l. inv.served ++ (d ∷ l)) (sym q))
          got fine
    | replied earlier r b t f sent last wire got ↦
        replied earlier r b t f
          (sent_later s.sent inv.served s.calls c sent ∙ ap (λ l. inv.served ++ l) (sym q)) last
          wire got
  ];
}

-- A response comes from the front of the channel.
wait_resp-queue :
    (resps : List Resp.KvResp) (s : System) (resp : Resp.KvResp) (p : ClientProc)
    → s.resps ≡ resps
    → wait_resp (proc_of s) ≡ ok (resp, p)
    → s.resps ≡ resp ∷ p.resp_rx.queue
unfolding wait_resp recv_timeout
wait_resp-queue [] s resp p q e = absurd (cc (rw q at e))
wait_resp-queue (x ∷ resps) s resp p q e =
    let same = ok_inj (rw q at e) in q ∙ ap (λ r. r.0 ∷ r.1.resp_rx.queue) same

waits-Inv :
    (s : System) (resp : Resp.KvResp) (queue : List Resp.KvResp)
    → Inv s
    → s.resps ≡ resp ∷ queue
    → Inv (record s { resps = queue; got = s.got ++ (resp ∷ []) })
waits-Inv s resp queue inv q =
    let moved : (s.got ++ (resp ∷ [])) ++ queue ≡ s.got ++ s.resps =
      append_assoc s.got (resp ∷ []) queue ∙ ap (λ l. s.got ++ l) (sym q) in
    record {
      served = inv.served;
      rs = inv.rs;
      answered = inv.answered;
      sorted = inv.sorted;
      wired = inv.wired;
      fine = inv.fine;
      stage = elim inv.stage [
        | idle b t f sent got ↦ idle b t f sent (moved ∙ got)
        | asked c b t f sent got fine ↦ asked c b t f sent (moved ∙ got) fine
        | replied earlier r b t f sent last wire got ↦
            replied earlier r b t f sent last wire (moved ∙ got)
      ];
    }

Use-Inv : (s t : System) → Inv s → Use s t → Inv t
Use-Inv s t inv (calls c p fine e) =
    calls-Inv s c p.call_tx.queue inv fine (send_call-queue s c p e)
Use-Inv s t inv (waits resp p e) =
    waits-Inv s resp p.resp_rx.queue inv (wait_resp-queue s.resps s resp p refl e)

pub Reachable-Inv : (s : System) → Reachable s → Inv s
Reachable-Inv _ initial = start-Inv
Reachable-Inv _ (work {s} {t} r w) = Work-Inv s t (Reachable-Inv s r) w
Reachable-Inv _ (use_of {s} {t} r u) = Use-Inv s t (Reachable-Inv s r) u

-- The responses that were got: of the answers, in order, the first.
pub got_answers :
    (s : System)
    → Inv s
    → (served rest : List Call.KvCall) × (rs : List KvResp) × (later : List Resp.KvResp) × (s.sent
        ≡ served ++ rest)
      × AllAnswered [] served rs s.state
      × (map to_runner rs ≡ s.got ++ later)
got_answers s inv = elim inv.stage [
  | idle b t f sent got ↦ (inv.served, s.calls, inv.rs, s.resps, sent, inv.answered, sym got)
  | asked c b t f sent got fine ↦
      (inv.served, c ∷ s.calls, inv.rs, s.resps, sent, inv.answered, sym got)
  | replied earlier r b t f sent last wire got ↦ (
    inv.served,
    s.calls,
    inv.rs,
    s.resps ++ (to_runner r ∷ []),
    sent,
    inv.answered,
    ap (map to_runner) last
        ∙ map-snoc earlier r
        ∙ ap (λ l. l ++ (to_runner r ∷ [])) (sym got)
        ∙ append_assoc s.got s.resps (to_runner r ∷ []),
  )
]

-- In whatever order the caller, the driver thread and the reference client take their steps, the
-- responses that the caller has got are, in order, those of an atomic map to the first of its
-- calls, if its calls are ones that the protocol can carry. A scan of that map leaves out its end
-- key.
pub got-AllAnswered :
    (s : System)
    → Reachable s
    → (served rest : List Call.KvCall) × (rs : List KvResp) × (later : List Resp.KvResp) × (s.sent
        ≡ served ++ rest)
      × AllAnswered [] served rs s.state
      × (map to_runner rs ≡ s.got ++ later)
got-AllAnswered s r = got_answers s (Reachable-Inv s r)
