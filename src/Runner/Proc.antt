-- ===== src/Runner/Proc.antt =====
-- runner/src/proc.rs: a client process behind its driver thread and two channels. The processes
-- themselves are not in the model: what one writes is the text of a `Writer`, what it reads that
-- of a `Reader`.
use madkv.Prelude.{
  ℕ, zero, suc, List, [], ◌∷◌, ◌++◌, Bool, true, false, Option, none, some, if◌then◌else◌,
}
use madkv.Prelude.Results.{Result, ok, err, and_then, Outcome, done, fail, spin, panic, lift, ◌>>=◌}
use madkv.Text.{Text, codes}
use madkv.Io.{Reader, Writer}
use madkv.Runner.Error.{RunnerError, io, chan, fmt, from_io}
use madkv.Runner.Call.{KvCall, into_write}
use madkv.Runner.Resp.{KvResp, from_read}

-- One end of an `mpsc` channel: what is in it, and whether the other end still exists.
pub record Chan (A : Type 0) : Type 0 where
  pub queue : List A
  pub open_end : Bool

module _ {A : Type 0} where
  -- `Sender::send` fails only if the receiver is gone.
  unfoldable pub send : Chan A → A → Result RunnerError (Chan A)
  send c x =
      if c.open_end
      then ok (record c { queue = c.queue ++ (x ∷ []) })
      else err (chan (codes "sending on a closed channel"))

  -- `Receiver::recv_timeout`, of a channel that holds what came before the time was out.
  recv_from : List A → Bool → Text → Text → Result RunnerError (A × List A)
  recv_from [] open_end timed_out closed = err (chan (if open_end then timed_out else closed))
  recv_from (x ∷ xs) open_end timed_out closed = ok (x, xs)

  unfoldable pub recv_timeout : Chan A → Result RunnerError (A × Chan A)
  unfolding recv_from
  recv_timeout c =
      and_then
        (recv_from c.queue c.open_end (codes "timed out waiting on channel")
          (codes "channel is empty and sending half is closed"))
        λ (x, rest). ok (x, record c { queue = rest })

-- `ClientProc`, the side of the thread that makes calls.
pub record ClientProc : Type 0 where
  pub call_tx : Chan KvCall
  pub resp_rx : Chan KvResp

unfoldable pub send_call : ClientProc → KvCall → Result RunnerError ClientProc
unfolding send
send_call p call = and_then (send p.call_tx call) λ call_tx. ok (record p { call_tx = call_tx })

unfoldable pub wait_resp : ClientProc → Result RunnerError (KvResp × ClientProc)
unfolding recv_timeout
wait_resp p =
    and_then (recv_timeout p.resp_rx) λ (resp, resp_rx). ok (resp, record p { resp_rx = resp_rx })

-- The match on the response to STOP, and the kill of the process, with its result.
unfoldable pub check_stop : KvResp → Result Text (Unit {0}) → Result RunnerError (Unit {0})
check_stop KvResp.stop killed = from_io killed
check_stop _ killed = err (io (codes "unexpected response, expecting STOP"))

-- `stop`. `others` is what the other threads do to the channels while it waits.
unfoldable pub stop :
    ClientProc → (ClientProc → ClientProc) → Result Text (Unit {0}) → Result RunnerError (Unit {0})
unfolding send_call wait_resp check_stop
stop p others killed =
    and_then (send_call p KvCall.stop)
      λ sent. and_then (wait_resp (others sent)) λ (resp, p'). check_stop resp killed

-- The variables of `driver_thread`.
pub record Driver : Type 0 where
  pub stdin : Writer
  pub stdout : Reader
  pub call_rx : Chan KvCall
  pub resp_tx : Chan KvResp
  pub line : Text
  pub stopped : Bool

-- `if let KvCall::Stop = call { *stopped = true; }`
unfoldable pub note_stop : KvCall → Driver → Driver
note_stop KvCall.stop d = record d { stopped = true }
note_stop _ d = d

-- An error, with the variables as it leaves them.
abbrev pub Failure : Type 0
Failure = RunnerError × Driver

abbrev pub at_error {ℓ} : {A : Type ℓ} → Driver → Outcome RunnerError A → Outcome Failure A
at_error d (done a) = done a
at_error d (fail e) = fail (e, d)
at_error d spin = spin
at_error d panic = panic

-- `call_rx.recv()` blocks on an empty channel whose sender exists: that is `spin` here.
unfoldable pub recv : Driver → Outcome Failure (KvCall × Driver)
recv d = elim d.call_rx.queue [
  | [] ↦ if d.call_rx.open_end then spin else fail (chan (codes "receiving on a closed channel"), d)
  | call ∷ rest ↦ done (call, record d { call_rx = record d.call_rx { queue = rest } })
]

-- The first half of `driver_iter`, up to the written call.
unfoldable pub write_call : Driver → Outcome Failure Driver
unfolding recv note_stop
write_call d = do
  (call, received) ← recv d
  let noted = note_stop call received
  stdin ← at_error noted (lift (into_write call noted.stdin))
  done (record noted { stdin = stdin })

-- The second half. `lines` is the fuel of `from_read`.
unfoldable pub read_resp : ℕ → Driver → Outcome Failure Driver
unfolding send
read_resp lines d = do
  (resp, stdout, line) ← at_error d (from_read lines d.stdout d.line)
  let seen : Driver = record d { stdout = stdout; line = line }
  resp_tx ← at_error seen (lift (send seen.resp_tx resp))
  done (record seen { resp_tx = resp_tx })

unfoldable pub driver_iter : ℕ → Driver → Outcome Failure Driver
unfolding write_call read_resp
driver_iter lines d = do written ← write_call d; read_resp lines written

-- What is printed when the loop is left: an error of a channel is not, nor any error after STOP.
unfoldable pub report : RunnerError → Driver → Option Text
report (chan msg) d = none
report e d = if d.stopped then none else some (codes "Error in driver: " ++ fmt e)

-- The loop of `driver_thread`: the variables at its end, and the line that it prints.
unfoldable pub driver_loop : ℕ → ℕ → Driver → Outcome RunnerError (Driver × Option Text)
unfolding driver_iter report
driver_loop lines zero d = spin
driver_loop lines (suc fuel) d = elim (driver_iter lines d) [
  | done d' ↦ driver_loop lines fuel d'
  | fail (e, d') ↦ done (d', report e d')
  | spin ↦ spin
  | panic ↦ panic
]

unfoldable pub driver_thread :
    ℕ → ℕ → Writer → Reader → Chan KvCall → Chan KvResp → Outcome RunnerError (Driver × Option Text)
unfolding driver_loop
driver_thread lines fuel stdin stdout call_rx resp_tx = driver_loop lines fuel (record {
  stdin = stdin;
  stdout = stdout;
  call_rx = call_rx;
  resp_tx = resp_tx;
  line = [];
  stopped = false;
})

-- `ServerProc::wait`, of a process that exited with a status: its text, and whether it is a
-- success.
unfoldable pub server_wait : Result Text (Bool × Text) → Result RunnerError (Unit {0})
server_wait exited = and_then (from_io exited) λ (success, status).
    if success then ok tt else err (io (codes "server exited with status: " ++ status))
