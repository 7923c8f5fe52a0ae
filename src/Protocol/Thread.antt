-- ===== src/Protocol/Thread.antt =====
-- A whole run of the driver thread against a whole run of the reference client.
use madkv.Prelude.{
  ℕ, suc, ◌≤◌, ◌<◌, ◌≡◌, refl, sym, ap, ◌∙◌, List, [], ◌∷◌, ◌++◌, map, append_assoc, append-nil,
  Bool, true, false, ◌||◌, none, arith, length, length-append, All, All-map,
}
use madkv.Prelude.Results.{done}
use madkv.Text.{Text}
use madkv.BTree.Sorted.{IsSorted}
use madkv.Runner.Call
use madkv.Runner.Call.{call_line, into_write}
use madkv.Runner.Resp
use madkv.Runner.Proc.{
  Driver, recv, note_stop, write_call, driver_iter, report, driver_loop, driver_thread,
}
use madkv.RefCli.Types.{KvResp}
use madkv.RefCli.Main.{State, main_loop}
use madkv.Protocol.Wire.{to_runner, IsWireResp}
use madkv.Protocol.Calls.{into_write-call_line}
use madkv.Protocol.Lines.{resp_text}
use madkv.Protocol.Resps.{resp_fuel, last_line}
use madkv.Protocol.Blank.{input}
use madkv.Protocol.Session
use madkv.Protocol.Session.{AllAnswered, IsServed, calls_text, resps_text, main_loop-calls}
use madkv.Protocol.Values.{IsStorable, IsWireState, handle_kv_call-IsWireAnswer}
use madkv.Protocol.System.{IsFine}
use madkv.Protocol.System.Parts.{read_resp-of, resp_fuel-length}

-- The driver thread in a run, with a channel of calls that gets no more, and a caller that waits.
abbrev mid : Text → Text → List Call.KvCall → List Resp.KvResp → Text → Bool → Driver
mid written out calls resps line stopped = record {
  stdin = record { written = written; fault = none };
  stdout = input out;
  call_rx = record { queue = calls; open_end = false };
  resp_tx = record { queue = resps; open_end = true };
  line = line;
  stopped = stopped;
}

is_stop_call : Call.KvCall → Bool
is_stop_call Call.KvCall.stop = true
is_stop_call _ = false

module _ (n : ℕ) where
  note_stop-mid :
      (c : Call.KvCall) (w out : Text) (cs : List Call.KvCall) (got : List Resp.KvResp) (l : Text)
      (st : Bool)
      → note_stop c (mid w out cs got l st) ≡ mid w out cs got l (is_stop_call c || st)
  unfolding note_stop is_stop_call
  note_stop-mid Call.KvCall.stop w out cs got l st = refl
  note_stop-mid _ w out cs got l st = refl

  write_call-mid :
      (c : Call.KvCall) (w out : Text) (cs : List Call.KvCall) (got : List Resp.KvResp) (l : Text)
      (st : Bool)
      → write_call (mid w out (c ∷ cs) got l st)
        ≡ done (mid (w ++ call_line c) out cs got l (is_stop_call c || st))
  unfolding write_call recv
  write_call-mid c w out cs got l st =
      rw
        (
          note_stop-mid c w out cs got l st,
          into_write-call_line c (record { written = w; fault = none }) refl,
        )
        refl

  driver_iter-mid :
      (c : Call.KvCall) (r : KvResp) (w rest : Text) (cs : List Call.KvCall)
      (got : List Resp.KvResp) (l : Text) (st : Bool)
      → IsWireResp r
      → resp_fuel r ≤ n
      → driver_iter n (mid w (resp_text r ++ rest) (c ∷ cs) got l st)
        ≡ done (
            mid
              (w ++ call_line c)
              rest
              cs
              (got ++ (to_runner r ∷ []))
              (last_line r)
              (is_stop_call c || st))
  unfolding driver_iter
  driver_iter-mid c r w rest cs got l st wire f =
      rw
        (
          write_call-mid c w (resp_text r ++ rest) cs got l st,
          read_resp-of n r
              (mid (w ++ call_line c) (resp_text r ++ rest) cs got l (is_stop_call c || st)) rest
              wire refl f refl,
        )
        refl

  -- The channel is closed once the caller is gone: nothing is printed.
  driver_loop-closed :
      (fuel : ℕ) (w out : Text) (got : List Resp.KvResp) (l : Text) (st : Bool)
      → driver_loop n (suc fuel) (mid w out [] got l st) ≡ done (mid w out [] got l st, none)
  unfolding driver_loop driver_iter write_call recv report
  driver_loop-closed fuel w out got l st = refl

  driver_loop-iter :
      (fuel : ℕ) (d d' : Driver)
      → driver_iter n d ≡ done d'
      → driver_loop n (suc fuel) d ≡ driver_loop n fuel d'
  unfolding driver_loop
  driver_loop-iter fuel d d' h = rw (driver_loop, h) refl

  loop_calls :
      (cs : List Call.KvCall) (rs : List KvResp) (w : Text) (got : List Resp.KvResp) (l : Text)
      (st : Bool)
      → length rs ≡ length cs
      → All IsWireResp rs
      → All (λ r. resp_fuel r ≤ n) rs
      → 1 ≤ n
      → driver_loop n
          (suc (suc (length cs)))
          (mid w (resps_text rs ++ resp_text KvResp.stop) (cs ++ (Call.stop ∷ [])) got l st)
        ≡ done (
          mid
              (w ++ (calls_text cs ++ call_line Call.stop))
              []
              []
              (got ++ (map to_runner rs ++ (Resp.KvResp.stop ∷ [])))
              (last_line KvResp.stop)
              true,
          none,
        )
  unfolding resp_fuel is_stop_call to_runner
  loop_calls [] [] w got l st e wire fuels pos =
      ap (λ t. driver_loop n 2 (mid w t (Call.stop ∷ []) got l st))
        (sym (append-nil (resp_text KvResp.stop)))
      ∙ driver_loop-iter 1 _ _ (driver_iter-mid Call.stop KvResp.stop w [] [] got l st tt pos)
      ∙ driver_loop-closed 0 (w ++ call_line Call.stop) [] _ _ true
  loop_calls [] (r ∷ rs) w got l st e wire fuels pos = absurd (omega (arith, e))
  loop_calls (c ∷ cs) [] w got l st e wire fuels pos = absurd (omega (arith, e))
  loop_calls (c ∷ cs) (r ∷ rs) w got l st e wire fuels pos =
      let after = cs ++ (Call.stop ∷ []) in
      let out = resps_text rs ++ resp_text KvResp.stop in
      ap (λ t. driver_loop n (suc (suc (suc (length cs)))) (mid w t (c ∷ after) got l st))
        (append_assoc (resp_text r) (resps_text rs) (resp_text KvResp.stop))
      ∙ driver_loop-iter (suc (suc (length cs))) _ _
          (driver_iter-mid c r w out after got l st wire.0 fuels.0)
      ∙ loop_calls cs rs (w ++ call_line c) (got ++ (to_runner r ∷ [])) (last_line r)
          (is_stop_call c || st) (omega (arith, e)) wire.1 fuels.1 pos
      ∙ ap
          (λ t. done (
            mid t [] []
                ((got ++ (to_runner r ∷ [])) ++ (map to_runner rs ++ (Resp.KvResp.stop ∷ [])))
                (last_line KvResp.stop) true,
            none,
          ))
          (append_assoc w (call_line c) (calls_text cs ++ call_line Call.stop)
            ∙ ap (λ t. w ++ t)
                (sym (append_assoc (call_line c) (calls_text cs) (call_line Call.stop))))
      ∙ ap
          (λ q. done (
            mid (w ++ (calls_text (c ∷ cs) ++ call_line Call.stop)) [] [] q (last_line KvResp.stop)
                true,
            none,
          ))
          (append_assoc got (to_runner r ∷ []) (map to_runner rs ++ (Resp.KvResp.stop ∷ [])))

fuels_of : (n : ℕ) (rs : List KvResp) → length (resps_text rs) < n → All (λ r. resp_fuel r ≤ n) rs
fuels_of n [] h = tt
fuels_of n (r ∷ rs) h =
    let sum = length-append (resp_text r) (resps_text rs) in
    (omega (arith, sum, resp_fuel-length r), fuels_of n rs (omega (arith, sum)))

length-AllAnswered :
    (s s' : State) (cs : List Call.KvCall) (rs : List KvResp)
    → AllAnswered s cs rs s'
    → length rs ≡ length cs
length-AllAnswered s s' [] rs a = ap length a.0
length-AllAnswered s s' (c ∷ cs) rs (r, later, next, e, first, more) =
    ap length e ∙ ap suc (length-AllAnswered next s' cs later more)

IsFine-IsServed : (cs : List Call.KvCall) → All IsFine cs → All IsServed cs
IsFine-IsServed cs h = All-map (λ c f. f.1) cs h

IsFine-IsStorable : (cs : List Call.KvCall) → All IsFine cs → All IsStorable cs
IsFine-IsStorable cs h = All-map (λ c f. f.0) cs h

-- Calls that the protocol can carry, followed by STOP and then by the end of the channel: the
-- driver thread writes all of them, and the reference client, on that input and on a sorted state
-- that can be read back, ends and writes an output from which the driver thread gets, with fuel
-- for its characters, the responses of an atomic map, in order, and then STOP; it has then read
-- the whole output, ends as well, and prints no error. A scan of that map leaves out its end key.
pub driver_thread-session :
    (lines : ℕ) (cs : List Call.KvCall) (s : State)
    → All IsFine cs
    → IsSorted s
    → IsWireState s
    → (rs : List KvResp) × (s' : State) × (output : Text) × (d : Driver) × AllAnswered s cs rs s'
      × (main_loop (suc lines) (suc (length cs)) (Session.at none d.stdin.written [] s)
          ≡ done (Session.at none [] output s'))
      × (driver_thread
            (suc (length output))
            (suc (suc (length cs)))
            (record { written = []; fault = none })
            (input output)
            (record { queue = cs ++ (Call.stop ∷ []); open_end = false })
            (record { queue = []; open_end = true })
          ≡ done (d, none))
      × (d.resp_tx.queue ≡ map to_runner rs ++ (Resp.KvResp.stop ∷ []))
      × (d.stdout.pending ≡ [])
unfolding driver_thread
driver_thread-session lines cs s fine sorted wired =
    let (rs, s', answered, sorted', wire, ends) =
      main_loop-calls none lines IsStorable IsWireState IsWireResp handle_kv_call-IsWireAnswer cs []
        [] s (IsFine-IsServed cs fine) (IsFine-IsStorable cs fine) sorted wired in
    let output = resps_text rs ++ resp_text KvResp.stop in
    let d =
      mid (calls_text cs ++ call_line Call.stop) [] [] (map to_runner rs ++ (Resp.KvResp.stop ∷ []))
        (last_line KvResp.stop) true in
    (
      rs,
      s',
      output,
      d,
      answered,
      ap (λ t. main_loop (suc lines) (suc (length cs)) (Session.at none (calls_text cs ++ t) [] s))
            (sym (append-nil (call_line Call.stop)))
          ∙ ends,
      loop_calls (suc (length output)) cs rs [] [] [] false (length-AllAnswered s s' cs rs answered)
          wire
          (fuels_of (suc (length output)) rs
            (omega (arith, length-append (resps_text rs) (resp_text KvResp.stop))))
          (omega arith),
      refl,
      refl,
    )
