-- ===== src/Protocol/System/Able.antt =====
-- The steps that the parts of the system can take.
use madkv.Prelude.{
  suc, ◌≤◌, ◌≡◌, refl, sym, ap, ◌∙◌, subst, List, [], ◌∷◌, ◌++◌, append-nil, false, none, length,
}
use madkv.Prelude.Results.{done}
use madkv.BTree
use madkv.BTree.Sorted.{IsSorted}
use madkv.Runner.Call
use madkv.Runner.Call.{call_line, into_write}
use madkv.Runner.Proc.{Driver, write_call, read_resp}
use madkv.RefCli.Types.{KvResp}
use madkv.RefCli.Main.{Client, serve_call}
use madkv.RefCli.Handler.{handle_kv_call-Answered}
use madkv.Protocol.Wire.{to_client, IsWireResp}
use madkv.Protocol.Lines.{resp_text}
use madkv.Protocol.Resps.{resp_fuel}
use madkv.Protocol.Blank.{input}
use madkv.Protocol.Session
use madkv.Protocol.Session.{serve_call-call_line, Answered-is_stop}
use madkv.Protocol.System.{System, IsFine, driver_of, client_of}
use madkv.Protocol.System.Parts.{write_call-of, read_resp-of, resp_fuel-length}

pub can_write :
    (s : System) (c : Call.KvCall) (rest : List Call.KvCall)
    → s.calls ≡ c ∷ rest
    → (d : Driver) × (write_call (driver_of s) ≡ done d)
can_write s c rest q = (_, write_call-of c rest (driver_of s) q refl)

pub can_serve :
    (s : System) (c : Call.KvCall)
    → IsFine c
    → IsSorted s.state
    → s.to_stdin ≡ call_line c
    → (client : Client) × (serve_call (suc (length s.to_stdin)) (client_of s)
        ≡ done (false, client))
      × (client.stdin.pending ≡ [])
can_serve s c (storable, (wire, forward, open_call)) sorted t =
    let (resp, s', handled, answered, sorted') =
      handle_kv_call-Answered (to_client c) s.state sorted forward in
    let after = Session.at none [] (s.from_stdout ++ resp_text resp) s' in
    let goes =
      Answered-is_stop (BTree.get s.state) (to_client c) resp (BTree.get s') open_call answered in
    let served =
      serve_call-call_line none (length s.to_stdin) c [] s.from_stdout s.state s' resp wire
        handled in
    (
      after,
      subst
          (λ x.
            serve_call (suc (length s.to_stdin)) (Session.at none x s.from_stdout s.state)
            ≡ done (false, after))
          (append-nil (call_line c) ∙ sym t) (served ∙ ap (λ b. done (b, after)) goes),
      refl,
    )

pub can_read :
    (s : System) (r : KvResp)
    → IsWireResp r
    → s.from_stdout ≡ resp_text r
    → (d : Driver) × (read_resp (suc (length s.from_stdout)) (driver_of s) ≡ done d)
can_read s r wire q =
    let fuel = subst (λ t. resp_fuel r ≤ suc (length t)) (sym q) (resp_fuel-length r) in
    (
      _,
      read_resp-of (suc (length s.from_stdout)) r (driver_of s) [] wire
          (ap input (q ∙ sym (append-nil (resp_text r)))) fuel refl,
    )
