-- ===== src/Protocol/SystemTests.antt =====
-- The theorems on the system of caller, driver thread and reference client at a concrete run.
use madkv.Prelude.{suc, length, All, List, [], ◌∷◌, ◌++◌, ◌≡◌, refl, map, true, false, none}
use madkv.Prelude.Results.{done}
use madkv.Text.{Text, codes, is_word, is_whitespace, text_eq, split_whitespace, trim, is_empty}
use madkv.Io.{take_line, read_line, write_line}
use madkv.BTree
use madkv.Runner.Call
use madkv.Runner.Call.{call_line, into_write}
use madkv.Runner.Resp
use madkv.Runner.Proc.{
  Driver, driver_thread, send_call, send, wait_resp, recv_timeout, write_call, recv, note_stop,
  read_resp,
}
use madkv.RefCli.Types.{KvResp}
use madkv.RefCli.Main.{State, main_loop, serve_call, handle_kv_call}
use madkv.RefCli.Input
use madkv.RefCli.Input.{skip_blank, parse_input_call}
use madkv.RefCli.Output.{write_response}
use madkv.Protocol.Wire.{to_client, to_runner}
use madkv.Protocol.Blank.{input}
use madkv.Protocol.Session
use madkv.Protocol.Session.{AllAnswered}
use madkv.Protocol.Thread.{driver_thread-session}
use madkv.Protocol.System.{
  System, start, driver_of, IsFine, Reachable, initial, work, use_of, writes, serves, reads, calls,
  waits, Works,
}
use madkv.Protocol.System.Invariant.{got-AllAnswered}
use madkv.Protocol.System.Drains.{Drained, drains}

abbrev put_k1 : Call.KvCall
put_k1 = Call.KvCall.put (codes "k1") (codes "v1")

put_k1-IsFine : IsFine put_k1
unfolding is_word is_whitespace text_eq to_client
put_k1-IsFine = (((refl, refl, refl), (refl, refl)), ((refl, refl), tt, tt))

-- The call is sent, written, answered and read.
abbrev answered : System
answered = record start {
  sent = put_k1 ∷ [];
  state = (codes "k1", codes "v1") ∷ [];
  resps = Resp.KvResp.put (codes "k1") false ∷ [];
  line = codes "PUT k1 not_found\n";
}

abbrev asked : System
asked = record start { calls = put_k1 ∷ []; sent = put_k1 ∷ [] }

asked-Reachable : Reachable asked
unfolding send_call send
asked-Reachable = use_of initial (calls put_k1 _ put_k1-IsFine refl)

abbrev written : System
written = record start { to_stdin = codes "PUT k1 v1\n"; sent = put_k1 ∷ []; busy = true }

written-Reachable : Reachable written
unfolding write_call recv note_stop into_write call_line write_line
written-Reachable = work asked-Reachable (writes _ refl refl)

abbrev served : System
served = record start {
  from_stdout = codes "PUT k1 not_found\n";
  state = (codes "k1", codes "v1") ∷ [];
  sent = put_k1 ∷ [];
  busy = true;
}

served-Reachable : Reachable served
unfolding serve_call skip_blank read_line take_line trim is_empty is_whitespace split_whitespace
    parse_input_call handle_kv_call write_response write_line text_eq BTree.insert
    BTree.contains_key Input.expect_next_seg
served-Reachable = work written-Reachable (serves _ refl)

abbrev read_it : Driver
read_it = record {
  stdin = record { written = []; fault = none };
  stdout = record { pending = []; fault = none };
  call_rx = record { queue = []; open_end = true };
  resp_tx = record { queue = Resp.KvResp.put (codes "k1") false ∷ []; open_end = true };
  line = codes "PUT k1 not_found\n";
  stopped = false;
}

reads_it : read_resp 18 (driver_of served) ≡ done read_it
unfolding read_resp Resp.from_read Resp.read_next_line read_line take_line trim is_empty
    is_whitespace split_whitespace text_eq send Resp.parse_found Resp.expect_next_seg
reads_it = refl

answered-Reachable : Reachable answered
answered-Reachable = work served-Reachable (reads read_it refl reads_it)

abbrev got_it : System
got_it = record answered { resps = []; got = Resp.KvResp.put (codes "k1") false ∷ [] }

got_it-Reachable : Reachable got_it
unfolding wait_resp recv_timeout
got_it-Reachable = use_of answered-Reachable (waits _ _ refl)

got-AllAnswered_example :
    (done rest : List Call.KvCall) × (rs : List KvResp) × (later : List Resp.KvResp) × (got_it.sent
      ≡ done ++ rest)
    × AllAnswered [] done rs got_it.state
    × (map to_runner rs ≡ got_it.got ++ later)
got-AllAnswered_example = got-AllAnswered got_it got_it-Reachable

drains_example : (t : System) × Works t asked × Drained asked t
drains_example = drains asked asked-Reachable

get_k-IsFine : IsFine (Call.KvCall.get (codes "k"))
unfolding is_word is_whitespace to_client
get_k-IsFine = (refl, (refl, tt, tt))

abbrev two_calls : List Call.KvCall
two_calls = put_k1 ∷ Call.KvCall.get (codes "k") ∷ []

two_calls-IsFine : All IsFine two_calls
two_calls-IsFine = (put_k1-IsFine, (get_k-IsFine, tt))

driver_thread-session_example :
    (rs : List KvResp) × (s' : State) × (output : Text) × (d : Driver) × AllAnswered [] two_calls rs
      s'
    × (main_loop 1 (suc (length two_calls)) (Session.at none d.stdin.written [] [])
        ≡ done (Session.at none [] output s'))
    × (driver_thread
          (suc (length output))
          (suc (suc (length two_calls)))
          (record { written = []; fault = none })
          (input output)
          (record { queue = two_calls ++ (Call.stop ∷ []); open_end = false })
          (record { queue = []; open_end = true })
        ≡ done (d, none))
    × (d.resp_tx.queue ≡ map to_runner rs ++ (Resp.KvResp.stop ∷ []))
    × (d.stdout.pending ≡ [])
driver_thread-session_example = driver_thread-session 0 two_calls [] two_calls-IsFine tt tt
