-- ===== src/Protocol/System.antt =====
-- A thread that makes calls, the driver thread of its client process (runner/src/proc.rs), and the
-- reference client, with the two channels and the two pipes between them.
pub mod Parts
pub mod Able
pub mod Stages
pub mod Invariant
pub mod Drains
use madkv.Prelude.{suc, length, List, [], ◌∷◌, ◌++◌, ◌≡◌, Bool, true, false, none}
use madkv.Prelude.Results.{ok, done}
use madkv.Text.{Text}
use madkv.Runner.Call
use madkv.Runner.Resp
use madkv.Runner.Proc.{Chan, ClientProc, send_call, wait_resp, Driver, write_call, read_resp}
use madkv.RefCli.Main.{State, Client, serve_call}
use madkv.RefCli.Handler.{IsForward}
use madkv.Protocol.Wire.{to_client}
use madkv.Protocol.Values.{IsStorable}
use madkv.Protocol.Session.{IsServed}

-- What the threads and the process have, while none of them has ended: what is in the channels
-- and in the pipes; whether the driver is in the second half of an iteration, and its buffer; the
-- client's map; and the calls that were sent and the responses that were got, in their order.
pub record System : Type 0 where
  pub calls : List Call.KvCall
  pub resps : List Resp.KvResp
  pub to_stdin : Text
  pub from_stdout : Text
  pub busy : Bool
  pub line : Text
  pub state : State
  pub sent : List Call.KvCall
  pub got : List Resp.KvResp

abbrev pub start : System
start = record {
  calls = [];
  resps = [];
  to_stdin = [];
  from_stdout = [];
  busy = false;
  line = [];
  state = [];
  sent = [];
  got = [];
}

-- The system as each part sees it. A pipe takes what is written at its end, and is read at
-- its front.
abbrev pub proc_of : System → ClientProc
proc_of s = record {
  call_tx = record { queue = s.calls; open_end = true };
  resp_rx = record { queue = s.resps; open_end = true };
}

abbrev pub driver_of : System → Driver
driver_of s = record {
  stdin = record { written = s.to_stdin; fault = none };
  stdout = record { pending = s.from_stdout; fault = none };
  call_rx = record { queue = s.calls; open_end = true };
  resp_tx = record { queue = s.resps; open_end = true };
  line = s.line;
  stopped = false;
}

abbrev pub client_of : System → Client
client_of s = record {
  stdin = record { pending = s.to_stdin; fault = none };
  stdout = record { written = s.from_stdout; fault = none };
  state = s.state;
}

-- A call that the protocol can carry: its words are words, a value is neither `null` nor ends
-- a scan, a scan does not go backwards, and it is not STOP.
abbrev pub IsFine : Call.KvCall → Type 0
IsFine c = IsStorable c × IsServed c

-- What the driver thread and the client do. A loop over lines has fuel for each character, and one
-- round more; where it would still run, its thread waits for input.
pub data Work (s : System) : System → Type 0 where
  writes :
      (d : Driver)
      → s.busy ≡ false
      → write_call (driver_of s) ≡ done d
      → Work s (record s { calls = d.call_rx.queue; to_stdin = d.stdin.written; busy = true })
  serves :
      (c : Client)
      → serve_call (suc (length s.to_stdin)) (client_of s) ≡ done (false, c)
      → Work s
          (record s { to_stdin = c.stdin.pending; from_stdout = c.stdout.written; state = c.state })
  reads :
      (d : Driver)
      → s.busy ≡ true
      → read_resp (suc (length s.from_stdout)) (driver_of s) ≡ done d
      → Work s (record s {
        from_stdout = d.stdout.pending;
        resps = d.resp_tx.queue;
        line = d.line;
        busy = false;
      })

-- Some of these steps, that end in `t`.
pub data Works (t : System) : System → Type 0 where
  rest : Works t t
  and_then : {s mid : System} → Work s mid → Works t mid → Works t s

-- What the thread that makes calls does.
pub data Use (s : System) : System → Type 0 where
  calls :
      (c : Call.KvCall) (p : ClientProc)
      → IsFine c
      → send_call (proc_of s) c ≡ ok p
      → Use s (record s { calls = p.call_tx.queue; sent = s.sent ++ (c ∷ []) })
  waits :
      (resp : Resp.KvResp) (p : ClientProc)
      → wait_resp (proc_of s) ≡ ok (resp, p)
      → Use s (record s { resps = p.resp_rx.queue; got = s.got ++ (resp ∷ []) })

-- What can be reached, in any order of the steps.
pub data Reachable : System → Type 0 where
  initial : Reachable start
  work : {s t : System} → Reachable s → Work s t → Reachable t
  use_of : {s t : System} → Reachable s → Use s t → Reachable t
