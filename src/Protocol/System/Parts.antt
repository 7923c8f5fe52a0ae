-- ===== src/Protocol/System/Parts.antt =====
-- What a single step of a part of the system does.
use madkv.Prelude.{
  ℕ, zero, suc, ◌≤◌, ◌≡◌, refl, sym, ap, ◌∙◌, subst, List, [], ◌∷◌, ◌++◌, append-nil, true, false,
  none, arith, length, length-append,
}
use madkv.Prelude.Results.{ok, done, spin, Ensures, Outcome}
use madkv.Text.{Text, codes, is_empty, trim, split_whitespace}
use madkv.Text.Split.{line_of}
use madkv.Io.{read_line, take_line}
use madkv.BTree
use madkv.BTree.Sorted.{IsSorted}
use madkv.Runner.Call
use madkv.Runner.Call.{call_line, into_write}
use madkv.Runner.Resp
use madkv.Runner.Proc.{Driver, recv, note_stop, write_call, read_resp, send}
use madkv.RefCli.Types.{KvResp}
use madkv.RefCli.Input.{skip_blank}
use madkv.RefCli.Main.{State, Client, is_stop, serve_call}
use madkv.RefCli.Handler.{Answered, handle_kv_call-Answered}
use madkv.Protocol.Wire.{to_client, to_runner, IsWireResp}
use madkv.Protocol.Calls.{into_write-call_line}
use madkv.Protocol.Lines.{resp_text, entry_lines, entry_line, end_line}
use madkv.Protocol.Resps.{resp_fuel, last_line, from_read-resp_text}
use madkv.Protocol.Blank.{input, read_next_line-hangs}
use madkv.Protocol.Values.{IsWireState, handle_kv_call-IsWireAnswer}
use madkv.Protocol.Session
use madkv.Protocol.Session.{serve_call-call_line, Answered-is_stop}
use madkv.Protocol.System.{System, IsFine, driver_of}

pub done_inj {ℓ κ} :
    {E : Type ℓ} {A : Type κ} {a b : A} → Path (Outcome E A) (done a) (done b) → a ≡ b
done_inj e = cc

-- The client waits for input.
skip_blank-empty : (lines : ℕ) → skip_blank lines (record { pending = []; fault = none }) [] ≡ spin
unfolding skip_blank read_line take_line is_empty trim
skip_blank-empty zero = refl
skip_blank-empty (suc lines) = skip_blank-empty lines

pub serve_call-empty :
    (lines : ℕ) (written : Text) (s : State)
    → serve_call lines (Session.at none [] written s) ≡ spin
unfolding serve_call
serve_call-empty lines written s = rw (skip_blank-empty lines) refl

-- The driver waits for output.
from_read-empty : (lines : ℕ) (buffer : Text) → Resp.from_read lines (input []) buffer ≡ spin
unfolding Resp.from_read split_whitespace
from_read-empty lines buffer = rw (read_next_line-hangs lines [] buffer refl) refl

entry_line-length : (e : Text × Text) → 1 ≤ length (entry_line e)
unfolding entry_line
entry_line-length (k, v) = omega arith

entry_lines-length : (es : List (Text × Text)) → length es ≤ length (entry_lines es)
unfolding entry_lines
entry_lines-length [] = omega arith
entry_lines-length (e ∷ es) = omega (
  arith,
  entry_line-length e,
  entry_lines-length es,
  length-append (entry_line e) (entry_lines es),
)

pub resp_fuel-length : (r : KvResp) → resp_fuel r ≤ suc (length (resp_text r))
unfolding resp_fuel resp_text
resp_fuel-length (KvResp.scan key_start key_end entries) =
    let head = line_of (codes "SCAN") (key_start ∷ key_end ∷ codes "BEGIN" ∷ []) in
    omega (
      arith,
      entry_lines-length entries,
      length-append head (entry_lines entries ++ end_line),
      length-append (entry_lines entries) end_line,
    )
resp_fuel-length _ = omega arith

-- A call that is served.
pub serve-asked :
    (n : ℕ) (c : Call.KvCall) (s : State) (client : Client)
    → IsFine c
    → IsSorted s
    → IsWireState s
    → serve_call (suc n) (Session.at none (call_line c) [] s) ≡ done (false, client)
    → (resp : KvResp) × Answered (BTree.get s) (to_client c) resp (BTree.get client.state)
      × IsSorted client.state
      × IsWireState client.state
      × IsWireResp resp
      × (client.stdin.pending ≡ [])
      × (client.stdout.written ≡ resp_text resp)
serve-asked n c s client (storable, (wire, forward, open_call)) sorted wired e =
    let (resp, s', handled, answered, sorted') =
      handle_kv_call-Answered (to_client c) s sorted forward in
    let served =
      subst
        (λ t.
          serve_call (suc n) (Session.at none t [] s)
          ≡ done (is_stop resp, Session.at none [] (resp_text resp) s'))
        (append-nil (call_line c)) (serve_call-call_line none n c [] [] s s' resp wire handled) in
    let same : client ≡ Session.at none [] (resp_text resp) s' =
      ap (λ p. p.1) (done_inj (sym e ∙ served)) in
    let answer =
      subst (Ensures (λ r. IsWireResp r.0 × IsWireState r.1)) handled
        (handle_kv_call-IsWireAnswer c s storable wired) in
    (
      resp,
      subst (λ k. Answered (BTree.get s) (to_client c) resp (BTree.get k.state)) (sym same)
          answered,
      subst (λ k. IsSorted k.state) (sym same) sorted',
      subst (λ k. IsWireState k.state) (sym same) answer.1,
      answer.0,
      ap (λ k. k.stdin.pending) same,
      ap (λ k. k.stdout.written) same,
    )

note_stop-fields :
    (c : Call.KvCall) (d : Driver)
    → ((note_stop c d).stdin ≡ d.stdin) × ((note_stop c d).call_rx ≡ d.call_rx)
unfolding note_stop
note_stop-fields Call.KvCall.stop d = (refl, refl)
note_stop-fields _ d = (refl, refl)

pub write_noted :
    (c : Call.KvCall) (d : Driver)
    → d.stdin.fault ≡ none
    → into_write c (note_stop c d).stdin
      ≡ ok (record { written = d.stdin.written ++ call_line c; fault = d.stdin.fault })
write_noted c d h = rw ((note_stop-fields c d).0) (into_write-call_line c d.stdin h)

abbrev after_call : Driver → List Call.KvCall → Driver
after_call d rest = record d { call_rx = record d.call_rx { queue = rest } }

pub write_call-of :
    (c : Call.KvCall) (rest : List Call.KvCall) (d : Driver)
    → d.call_rx.queue ≡ c ∷ rest
    → d.stdin.fault ≡ none
    → write_call d
      ≡ done (record (note_stop c (after_call d rest)) {
        stdin = record { written = d.stdin.written ++ call_line c; fault = d.stdin.fault };
      })
unfolding write_call recv
write_call-of c rest d q f = rw (q, write_noted c (after_call d rest) f) refl

write_call-empty :
    (d : Driver) → d.call_rx.queue ≡ [] → d.call_rx.open_end ≡ true → write_call d ≡ spin
unfolding write_call recv
write_call-empty d q o = rw (q, o) refl

-- A written call has left the channel of calls.
pub write_call-taken :
    (calls : List Call.KvCall) (s : System) (d : Driver)
    → s.calls ≡ calls
    → write_call (driver_of s) ≡ done d
    → (c : Call.KvCall) × (rest : List Call.KvCall) × (calls ≡ c ∷ rest)
      × (d.call_rx.queue ≡ rest)
      × (d.stdin.written ≡ s.to_stdin ++ call_line c)
write_call-taken [] s d q e = absurd (cc (e, write_call-empty (driver_of s) q refl))
write_call-taken (c ∷ rest) s d q e =
    let same = done_inj (sym e ∙ write_call-of c rest (driver_of s) q refl) in
    (
      c,
      rest,
      refl,
      ap (λ k. k.call_rx.queue) same
          ∙ ap (λ k. k.queue) (note_stop-fields c (after_call (driver_of s) rest)).1,
      ap (λ k. k.stdin.written) same,
    )

pub read_resp-of :
    (n : ℕ) (r : KvResp) (d : Driver) (rest : Text)
    → IsWireResp r
    → d.stdout ≡ input (resp_text r ++ rest)
    → resp_fuel r ≤ n
    → d.resp_tx.open_end ≡ true
    → read_resp n d
      ≡ done (record d {
        stdout = input rest;
        line = last_line r;
        resp_tx = record { queue = d.resp_tx.queue ++ (to_runner r ∷ []); open_end = true };
      })
unfolding read_resp send
read_resp-of n r d rest wire q f o = rw (q, from_read-resp_text n r rest d.line none wire f, o) refl

-- A response that is read is in the channel of responses.
pub read_resp-replied :
    (r : KvResp) (s : System) (d : Driver)
    → IsWireResp r
    → s.from_stdout ≡ resp_text r
    → read_resp (suc (length s.from_stdout)) (driver_of s) ≡ done d
    → (d.stdout.pending ≡ []) × (d.resp_tx.queue ≡ s.resps ++ (to_runner r ∷ []))
read_resp-replied r s d wire q e =
    let fuel = subst (λ t. resp_fuel r ≤ suc (length t)) (sym q) (resp_fuel-length r) in
    let same = done_inj (
      sym e
      ∙ read_resp-of (suc (length s.from_stdout)) r (driver_of s) [] wire
          (ap input (q ∙ sym (append-nil (resp_text r)))) fuel refl) in
    (ap (λ k. k.stdout.pending) same, ap (λ k. k.resp_tx.queue) same)

pub read_resp-empty : (s : System) (n : ℕ) → s.from_stdout ≡ [] → read_resp n (driver_of s) ≡ spin
unfolding read_resp
read_resp-empty s n q = rw (q, from_read-empty n s.line) refl
