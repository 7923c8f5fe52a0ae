-- ===== src/Bencher/Feeder.antt =====
-- How runner/src/bin/bencher/ycsb.rs feeds a client from the output of the YCSB driver.
use madkv.Prelude.{
  ℕ, zero, suc, ◌-◌, ◌==◌, Bool, true, false, List, [], ◌∷◌, Option, none, some, if◌then◌else◌,
  length, take,
}
use madkv.Prelude.Results.{Result, ok, err, and_then, Outcome, done, spin, ◌>>=◌}
use madkv.Text.{Text, codes, text_eq, is_empty, trim, split_whitespace, starts_with, contains}
use madkv.Io.{Reader, read_line}
use madkv.HashMap
use madkv.BTreeSet.{BTreeSet}
use madkv.Runner.Error.{RunnerError, io, parse, from_io}
use madkv.Runner.Call.{KvCall}
use madkv.Runner.Resp.{KvResp}
use madkv.Bencher.Calls.{interpret_ycsb_call}
use madkv.Bencher.Stats.{Floats, Stats, no_stats}

-- The client process behind a `ClientProc`.
pub record Client : Type 1 where
  pub World : Type 0
  pub send_call : World → KvCall → Result RunnerError World
  pub wait_resp : World → Result RunnerError (KvResp × World)

module _ (floats : Floats) where
  open floats use {F64}

  -- `From<num::ParseFloatError>`, which `?` applies
  abbrev from_parse_float : Result Text F64 → Result RunnerError F64
  from_parse_float (ok x) = ok x
  from_parse_float (err message) = err (parse message)

  unfoldable pub parse_ycsb_float : List Text → Result RunnerError F64
  parse_ycsb_float [] = err (parse (codes "missing float number"))
  parse_ycsb_float (seg ∷ segs) = from_parse_float (floats.parse seg)

  -- The arm of `[OVERALL],`.
  unfoldable pub record_overall : List Text → Stats floats → Result RunnerError (Stats floats)
  unfolding parse_ycsb_float
  record_overall [] stats = ok stats
  record_overall (name ∷ segs) stats =
      if contains name (codes "RunTime(ms)")
      then (and_then (parse_ycsb_float segs) λ x. ok (record stats { total_ms = x }))
      else if contains name (codes "Throughput")
      then (and_then (parse_ycsb_float segs) λ x. ok (record stats { tput_all = x }))
      else ok stats

  -- The arm of an operation.
  unfoldable pub record_op : Text → List Text → Stats floats → Result RunnerError (Stats floats)
  unfolding parse_ycsb_float
  record_op op [] stats = ok stats
  record_op op (name ∷ segs) stats =
      if contains name (codes "Operations")
      then (and_then (parse_ycsb_float segs)
          λ x. ok (record stats { num_ops = HashMap.insert stats.num_ops op (floats.to_usize x) }))
      else if contains name (codes "AverageLatency")
      then (and_then (parse_ycsb_float segs)
          λ x. ok (record stats { lat_avg = HashMap.insert stats.lat_avg op x }))
      else if contains name (codes "MinLatency")
      then (and_then (parse_ycsb_float segs)
          λ x. ok (record stats { lat_min = HashMap.insert stats.lat_min op x }))
      else if contains name (codes "MaxLatency")
      then (and_then (parse_ycsb_float segs)
          λ x. ok (record stats { lat_max = HashMap.insert stats.lat_max op x }))
      else if contains name (codes "99thPercentileLatency")
      then (and_then (parse_ycsb_float segs)
          λ x. ok (record stats { lat_p99 = HashMap.insert stats.lat_p99 op x }))
      else ok stats

  -- `header[1..(header.len() - 2)]`, of a header in ASCII
  unfoldable pub op_name : Text → Text
  op_name [] = []
  op_name (c ∷ header) = take (length header - 2) header

  is_op_header : Text → Bool
  is_op_header header =
      if text_eq header (codes "[INSERT],")
      then true
      else if text_eq header (codes "[UPDATE],")
      then true
      else if text_eq header (codes "[READ],")
      then true
      else text_eq header (codes "[SCAN],")

  perf_segs : List Text → Stats floats → Result RunnerError (Stats floats)
  unfolding record_overall record_op op_name is_op_header
  perf_segs [] stats = ok stats
  perf_segs (header ∷ segs) stats =
      if text_eq header (codes "[OVERALL],")
      then record_overall segs stats
      else if is_op_header header
      then record_op (op_name header) segs stats
      else ok stats

  unfoldable pub record_ycsb_perf : Text → Stats floats → Result RunnerError (Stats floats)
  unfolding perf_segs
  record_ycsb_perf line stats = perf_segs (split_whitespace line) stats

  module _ (client : Client) where
    open client use {World, send_call, wait_resp}

    -- The variables of `feeder_thread`.
    pub record Feeder : Type 0 where
      pub stdout : Reader
      pub world : World
      pub ikeys : BTreeSet
      pub stats : Stats floats
      pub ended : Bool

    -- After a line has been interpreted.
    unfoldable pub act_on_line :
        Text → Feeder → Option KvCall × BTreeSet → Result RunnerError Feeder
    unfolding record_ycsb_perf
    act_on_line line f (some call, ikeys) =
        and_then (send_call f.world call)
          λ sent. and_then (wait_resp sent) λ r. ok (record f { world = r.1; ikeys = ikeys })
    act_on_line line f (none, ikeys) =
        if starts_with line (codes "[")
        then (and_then (record_ycsb_perf line f.stats)
            λ stats. ok (record f { stats = stats; ikeys = ikeys }))
        else if contains line (codes "No such file")
        then err (io line)
        else ok (record f { ikeys = ikeys })

    unfoldable pub feed_a_line : Feeder → Result RunnerError Feeder
    unfolding act_on_line
    feed_a_line f = and_then (from_io (read_line f.stdout [])) λ (size, stdout, line).
        if size == 0
        then ok (record f { stdout = stdout; ended = true })
        else if is_empty (trim line)
        then ok (record f { stdout = stdout })
        else and_then (interpret_ycsb_call line f.ikeys)
            λ result. act_on_line line (record f { stdout = stdout }) result

    -- The loop of `feeder_thread`: what it leaves, or nothing if an error broke it. `spin` when
    -- the fuel is out.
    unfoldable pub feed_loop : ℕ → Feeder → Outcome RunnerError (Option Feeder)
    unfolding feed_a_line
    feed_loop zero f = spin
    feed_loop (suc fuel) f = elim (feed_a_line f) [
      | err e ↦ done none
      | ok f' ↦ let again = feed_loop fuel f' in if f'.ended then done (some f') else again
    ]

    -- `stats.merged = 1`, and the pair that the thread returns.
    unfoldable pub finish_feeder : Option Feeder → Option (Stats floats × BTreeSet)
    finish_feeder none = none
    finish_feeder (some f) = some (record f.stats { merged = 1 }, f.ikeys)

    -- The stop of the client process at the end is left out: its result is only printed.
    unfoldable pub feeder_thread :
        ℕ → Reader → World → BTreeSet → Outcome RunnerError (Option (Stats floats × BTreeSet))
    unfolding feed_loop finish_feeder
    feeder_thread fuel stdout world ikeys = do
      ran ← feed_loop fuel (record {
        stdout = stdout;
        world = world;
        ikeys = ikeys;
        stats = no_stats floats;
        ended = false;
      })
      done (finish_feeder ran)
