-- ===== src/Protocol/System/Stages.antt =====
-- The invariant of the system, kept by the driver thread and the client.
use madkv.Prelude.{
  ℕ, suc, ◌≡◌, refl, sym, ap, ◌∙◌, subst, List, [], ◌∷◌, ◌++◌, map, append_assoc, true, false, none,
  length, All,
}
use madkv.Prelude.Results.{Result, ok, done, spin}
use madkv.BTree
use madkv.BTree.Sorted.{IsSorted}
use madkv.Runner.Call
use madkv.Runner.Call.{call_line}
use madkv.Runner.Proc.{Driver, write_call, read_resp}
use madkv.RefCli.Types.{KvResp}
use madkv.RefCli.Main.{State, Client, serve_call}
use madkv.RefCli.Handler.{Answered}
use madkv.Protocol.Wire.{to_client, to_runner, IsWireResp}
use madkv.Protocol.Lines.{resp_text}
use madkv.Protocol.Values.{IsWireState}
use madkv.Protocol.Session
use madkv.Protocol.Session.{AllAnswered}
use madkv.Protocol.System.{System, start, IsFine, driver_of, client_of, Work, writes, serves, reads}
use madkv.Protocol.System.Parts.{
  serve-asked, serve_call-empty, write_call-taken, read_resp-replied, read_resp-empty,
}

AllAnswered-snoc :
    (s mid s' : State) (cs : List Call.KvCall) (rs : List KvResp) (c : Call.KvCall) (resp : KvResp)
    → AllAnswered s cs rs mid
    → Answered (BTree.get mid) (to_client c) resp (BTree.get s')
    → AllAnswered s (cs ++ (c ∷ [])) (rs ++ (resp ∷ [])) s'
AllAnswered-snoc s mid s' [] rs c resp (e, f) a = (
  resp,
  [],
  s',
  ap (λ l. l ++ (resp ∷ [])) e,
  subst (λ m. Answered (BTree.get m) (to_client c) resp (BTree.get s')) f a,
  (refl, refl),
)
AllAnswered-snoc s mid s' (d ∷ cs) rs c resp (r, later, next, e, first, rest) a = (
  r,
  later ++ (resp ∷ []),
  next,
  ap (λ l. l ++ (resp ∷ [])) e,
  first,
  AllAnswered-snoc next mid s' cs later c resp rest a,
)

pub ok_inj {ℓ κ} : {E : Type ℓ} {A : Type κ} {a b : A} → Path (Result E A) (ok a) (ok b) → a ≡ b
ok_inj e = cc

pub map-snoc :
    (rs : List KvResp) (r : KvResp)
    → map to_runner (rs ++ (r ∷ [])) ≡ map to_runner rs ++ (to_runner r ∷ [])
map-snoc [] r = refl
map-snoc (x ∷ rs) r = ap (λ l. to_runner x ∷ l) (map-snoc rs r)

pub All-snoc :
    (P : Call.KvCall → Type 0) (cs : List Call.KvCall) (c : Call.KvCall)
    → All P cs
    → P c
    → All P (cs ++ (c ∷ []))
All-snoc P [] c h p = (p, tt)
All-snoc P (d ∷ cs) c h p = (h.0, All-snoc P cs c h.1 p)

-- Where the call is that comes next: in the channel, in the pipe to the client, or answered in the
-- pipe from it.
pub data Stage (s : System) (served : List Call.KvCall) (rs : List KvResp) : Type 0 where
  idle :
      s.busy ≡ false
      → s.to_stdin ≡ []
      → s.from_stdout ≡ []
      → s.sent ≡ served ++ s.calls
      → s.got ++ s.resps ≡ map to_runner rs
      → Stage s served rs
  asked :
      (c : Call.KvCall)
      → s.busy ≡ true
      → s.to_stdin ≡ call_line c
      → s.from_stdout ≡ []
      → s.sent ≡ served ++ (c ∷ s.calls)
      → s.got ++ s.resps ≡ map to_runner rs
      → IsFine c
      → Stage s served rs
  replied :
      (earlier : List KvResp) (r : KvResp)
      → s.busy ≡ true
      → s.to_stdin ≡ []
      → s.from_stdout ≡ resp_text r
      → s.sent ≡ served ++ s.calls
      → rs ≡ earlier ++ (r ∷ [])
      → IsWireResp r
      → s.got ++ s.resps ≡ map to_runner earlier
      → Stage s served rs

pub record Inv (s : System) : Type 0 where
  pub served : List Call.KvCall
  pub rs : List KvResp
  pub answered : AllAnswered [] served rs s.state
  pub sorted : IsSorted s.state
  pub wired : IsWireState s.state
  pub fine : All IsFine s.calls
  pub stage : Stage s served rs

pub start-Inv : Inv start
start-Inv = record {
  served = [];
  rs = [];
  answered = (refl, refl);
  sorted = tt;
  wired = tt;
  fine = tt;
  stage = idle refl refl refl refl refl;
}

writes-Inv :
    (s : System) (d : Driver)
    → Inv s
    → s.busy ≡ false
    → write_call (driver_of s) ≡ done d
    → Inv (record s { calls = d.call_rx.queue; to_stdin = d.stdin.written; busy = true })
writes-Inv s d inv free e =
    let (c, rest, q, left, written) = write_call-taken s.calls s d refl e in
    let fine = subst (All IsFine) q inv.fine in
    record {
      served = inv.served;
      rs = inv.rs;
      answered = inv.answered;
      sorted = inv.sorted;
      wired = inv.wired;
      fine = subst (All IsFine) (sym left) fine.1;
      stage = elim inv.stage [
        | idle b t f sent got ↦
            asked c refl (written ∙ ap (λ x. x ++ call_line c) t) f
              (sent ∙ ap (λ l. inv.served ++ l) (q ∙ ap (λ l. c ∷ l) (sym left))) got fine.0
        | asked c' b t f sent got ok' ↦ absurd (cc (free, b))
        | replied earlier r b t f sent last wire got ↦ absurd (cc (free, b))
      ];
    }

not_served :
    (s : System) (n : ℕ) (client : Client)
    → s.to_stdin ≡ []
    → serve_call n (client_of s) ≡ done (false, client)
    → ⊥
not_served s n client t e =
    let waits =
      subst (λ x. serve_call n (Session.at none x s.from_stdout s.state) ≡ spin) (sym t)
        (serve_call-empty n s.from_stdout s.state) in
    cc (e, waits)

serves-Inv :
    (s : System) (c : Client)
    → Inv s
    → serve_call (suc (length s.to_stdin)) (client_of s) ≡ done (false, c)
    → Inv (record s { to_stdin = c.stdin.pending; from_stdout = c.stdout.written; state = c.state })
serves-Inv s client inv e = elim inv.stage [
  | idle b t f sent got ↦ absurd (not_served s (suc (length s.to_stdin)) client t e)
  | replied earlier r b t f sent last wire got ↦
      absurd (not_served s (suc (length s.to_stdin)) client t e)
  | asked c b t f sent got fine ↦
      let n = length s.to_stdin in
      let e₁ =
        subst
          (λ x. serve_call (suc n) (Session.at none x s.from_stdout s.state) ≡ done (false, client))
          t e in
      let e₂ =
        subst
          (λ x. serve_call (suc n) (Session.at none (call_line c) x s.state) ≡ done (false, client))
          f e₁ in
      let (resp, answered, sorted, wired, wire, taken, written) =
        serve-asked n c s.state client fine inv.sorted inv.wired e₂ in
      record {
        served = inv.served ++ (c ∷ []);
        rs = inv.rs ++ (resp ∷ []);
        answered =
            AllAnswered-snoc [] s.state client.state inv.served inv.rs c resp inv.answered answered;
        sorted = sorted;
        wired = wired;
        fine = inv.fine;
        stage =
            replied inv.rs resp b taken written
              (sent ∙ sym (append_assoc inv.served (c ∷ []) s.calls)) refl wire got;
      }
]

reads-Inv :
    (s : System) (d : Driver)
    → Inv s
    → s.busy ≡ true
    → read_resp (suc (length s.from_stdout)) (driver_of s) ≡ done d
    → Inv (record s {
      from_stdout = d.stdout.pending;
      resps = d.resp_tx.queue;
      line = d.line;
      busy = false;
    })
reads-Inv s d inv busy e = elim inv.stage [
  | idle b t f sent got ↦ absurd (cc (busy, b))
  | asked c b t f sent got ok' ↦ absurd (cc (e, read_resp-empty s (suc (length s.from_stdout)) f))
  | replied earlier r b t f sent last wire got ↦
      let (out, resps) = read_resp-replied r s d wire f e in
      record {
        served = inv.served;
        rs = inv.rs;
        answered = inv.answered;
        sorted = inv.sorted;
        wired = inv.wired;
        fine = inv.fine;
        stage = idle refl t out sent (
            ap (λ l. s.got ++ l) resps
            ∙ sym (append_assoc s.got s.resps (to_runner r ∷ []))
            ∙ ap (λ l. l ++ (to_runner r ∷ [])) got
            ∙ sym (map-snoc earlier r)
            ∙ ap (map to_runner) (sym last));
      }
]

pub Work-Inv : (s t : System) → Inv s → Work s t → Inv t
Work-Inv s t inv (writes d free e) = writes-Inv s d inv free e
Work-Inv s t inv (serves c e) = serves-Inv s c inv e
Work-Inv s t inv (reads d busy e) = reads-Inv s d inv busy e
