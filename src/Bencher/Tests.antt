-- ===== src/Bencher/Tests.antt =====
-- The bencher's theorems at concrete inputs.
use madkv.Prelude.{
  ◌<◌, true, ℕ, ◌+◌, ◌*◌, ◌/◌, ◌≡◌, refl, List, [], ◌∷◌, none, some, arith, min, max, ◌⊎◌, length,
  ◌==◌, if◌then◌else◌,
}
use madkv.Prelude.Results.{ok, done, fail, panic}
use madkv.Text.{
  Text, codes, text_eq, text_lt, split_whitespace, is_whitespace, trim, starts_with, contains,
  byte_len,
}
use madkv.Io.{Reader, read_line}
use madkv.HashMap
use madkv.HashMap.{or_insert}
use madkv.BTree.{insert, contains_key}
use madkv.BTreeSet.{BTreeSet, range_from, key_set}
use madkv.Runner.Error.{RunnerError, io}
use madkv.Runner.Call
use madkv.Runner.Resp
use madkv.RefCli.Types.{KvCall, KvResp}
use madkv.RefCli.Main.{State, handle_kv_call}
use madkv.Bencher.Number.{parse_usize}
use madkv.Bencher.Calls.{interpret_ycsb_call}
use madkv.Bencher.ScanCount.{ScanLine, scan-count, scan_past-panics}
use madkv.Bencher.Words.{IsYcsbCall, WordKeys, interpret-words}
use madkv.Bencher.Stats.{Floats, Stats, no_stats, merge_drivers}
use madkv.Bencher.Merge.{Merged, merge_drivers-running}
use madkv.Bencher.Feeder.{Client, feeder_thread}
use madkv.Io.Split.{lines}
use madkv.Bencher.Inserted.{Inserts, any_inserts}
use madkv.Bencher.Finishes.{feeder_thread-finishes}
use madkv.Bencher.Bench.{Processes, is_valid_workload, wait, ycsb_bench, main}
use madkv.Bencher.Phases.{Returned, stats_of, union, any_has, main-merged}
use madkv.Bencher.Failure.{Returns, AllReturn, ycsb_bench-AllReturn}

-- A state with three keys of a table.
abbrev three_keys : State
three_keys = (codes "t_a", codes "1") ∷ (codes "t_b", codes "2") ∷ (codes "t_c", codes "3") ∷ []

two_keys-ScanLine : ScanLine (codes "SCAN t a 2 [ <all fields>]\n") (codes "t") (codes "a") 2
unfolding split_whitespace is_whitespace parse_usize
two_keys-ScanLine = (codes "2", codes "[" ∷ codes "<all" ∷ codes "fields>]" ∷ [], refl, refl)

scan-count_example :
    (key_end : Text) × (entries : List (Text × Text)) × (interpret_ycsb_call
        (codes "SCAN t a 2 [ <all fields>]\n")
        (key_set three_keys)
      ≡ ok (some (Call.scan (codes "t_a") key_end), key_set three_keys))
    × (handle_kv_call (KvCall.scan (codes "t_a") key_end) three_keys
        ≡ done (KvResp.scan (codes "t_a") key_end entries, three_keys))
    × (length entries ≡ 1)
unfolding text_lt range_from key_set
scan-count_example =
    scan-count three_keys (codes "SCAN t a 2 [ <all fields>]\n") (codes "t") (codes "a") 2
      (unfold text_lt in ((refl, (refl, tt)), ((refl, tt), (tt, tt)))) two_keys-ScanLine
      (omega arith) (omega arith) (unfold text_lt range_from key_set in omega arith)

past_keys-ScanLine : ScanLine (codes "SCAN t z 2\n") (codes "t") (codes "z") 2
unfolding split_whitespace is_whitespace parse_usize
past_keys-ScanLine = (codes "2", [], refl, refl)

scan_past-panics_example :
    (key_end : Text) × (interpret_ycsb_call (codes "SCAN t z 2\n") (key_set three_keys)
      ≡ ok (some (Call.scan (codes "t_z") key_end), key_set three_keys))
    × (handle_kv_call (KvCall.scan (codes "t_z") key_end) three_keys ≡ panic)
scan_past-panics_example =
    scan_past-panics (codes "t_a") (codes "1")
      ((codes "t_b", codes "2") ∷ (codes "t_c", codes "3") ∷ []) (codes "SCAN t z 2\n") (codes "t")
      (codes "z") 2 past_keys-ScanLine (unfold range_from key_set text_lt in refl)

insert_line :
    interpret_ycsb_call (codes "INSERT t a [ f=1 ]\n") []
    ≡ ok (some (Call.put (codes "t_a") (codes "_f=1_]")), (codes "t_a", tt) ∷ [])
unfolding interpret_ycsb_call split_whitespace is_whitespace text_eq insert
insert_line = refl

interpret-words_example :
    IsYcsbCall (some (Call.put (codes "t_a") (codes "_f=1_]"))) × WordKeys ((codes "t_a", tt) ∷ [])
interpret-words_example =
    interpret-words (codes "INSERT t a [ f=1 ]\n") [] ((codes "t_a", tt) ∷ [])
      (some (Call.put (codes "t_a") (codes "_f=1_]"))) tt insert_line

-- Whole numbers in the place of `f64`.
abbrev whole : Floats
whole = record {
  F64 = ℕ;
  zero = 0;
  of_usize = λ n. n;
  to_usize = λ n. n;
  parse = λ s. parse_usize s;
  add = λ a b. a + b;
  mul = λ a b. a * b;
  div = λ a b. a / b;
  min = λ a b. min a b;
  max = λ a b. max a b;
}

abbrev one_client : ℕ → Stats whole
one_client latency = record (no_stats whole) {
  merged = 1;
  num_ops = (codes "READ", 10) ∷ [];
  lat_avg = (codes "READ", latency) ∷ [];
}

merge_drivers-running_example :
    (merge_drivers whole (no_stats whole) (one_client 30 ∷ one_client 60 ∷ one_client 600 ∷ [])
      ≡ merge_drivers whole (one_client 30) (one_client 60 ∷ one_client 600 ∷ []))
    × Merged whole (one_client 30) (one_client 60 ∷ one_client 600 ∷ []) (codes "READ")
merge_drivers-running_example =
    merge_drivers-running whole (one_client 30) (one_client 60 ∷ one_client 600 ∷ []) (codes "READ")
      refl (refl, (refl, tt))

-- A client that answers every call as a stop, and keeps the calls.
abbrev recorder : Client
recorder = record {
  World = List Call.KvCall;
  send_call = λ calls call. ok (call ∷ calls);
  wait_resp = λ calls. ok (Resp.KvResp.stop, calls);
}

abbrev one_insert : Reader
one_insert = record { pending = codes "INSERT t a [ f ]\n"; fault = none }

feeder_thread-finishes_example :
    (feeder_thread whole recorder 18 one_insert [] [] ≡ done none)
    ⊎ ((stats : Stats whole) × (ikeys' : BTreeSet) × (feeder_thread whole recorder 18 one_insert []
            []
          ≡ done (some (stats, ikeys')))
        × (stats.merged ≡ 1)
        × WordKeys ikeys'
        × Inserts (lines one_insert.pending) [] ikeys')
feeder_thread-finishes_example =
    feeder_thread-finishes whole recorder 18 one_insert [] [] tt (omega arith)

-- Two lines, of which the second inserts the key.
one_key : any_inserts (codes "t_a") (lines (codes "READ t b [ f ]\nINSERT t a [ f ]\n")) ≡ true
unfolding lines split_whitespace is_whitespace text_eq
one_key = refl

three_averages :
    HashMap.get
      (merge_drivers whole
        (no_stats whole)
        (one_client 30 ∷ one_client 60 ∷ one_client 600 ∷ [])).lat_avg
      (codes "READ")
    ≡ some 322
unfolding merge_drivers HashMap.get text_eq or_insert
three_averages = refl

abbrev report : Reader
report = record {
  pending = codes "INSERT t a [ f ]\n[OVERALL], RunTime(ms), 42\n[READ], AverageLatency(us), 7\n";
  fault = none;
}

feeds :
    feeder_thread whole recorder 99 report [] []
    ≡ done (
        some (
          record (no_stats whole) { merged = 1; total_ms = 42; lat_avg = (codes "READ", 7) ∷ [] },
          (codes "t_a", tt) ∷ [],
        ))
unfolding feeder_thread read_line interpret_ycsb_call split_whitespace is_whitespace trim text_eq
    insert starts_with contains parse_usize HashMap.insert byte_len
feeds = refl

-- Every process starts, and the driver with number `k` returns the key `t_a` or `t_b`.
abbrev key_of : ℕ → BTreeSet
key_of k = if k == 0 then (codes "t_a", tt) ∷ [] else (codes "t_b", tt) ∷ []

abbrev starts : Processes whole
starts = record {
  client = λ load k. ok tt;
  spawned = λ load k given. ok tt;
  ended = λ load k given. record {
    signal = ok tt;
    feeder = some (some (one_client 30, key_of k));
    killed = ok tt;
  };
}

main-merged_example :
    (main whole starts 97 2
      ≡ done (
        merge_drivers whole (no_stats whole) (one_client 30 ∷ one_client 30 ∷ []),
        merge_drivers whole (no_stats whole) (one_client 30 ∷ one_client 30 ∷ []),
      ))
    × ((j : Text)
        → contains_key
            (union whole [] ((one_client 30, key_of 0) ∷ (one_client 30, key_of 1) ∷ []))
            j
          ≡ any_has whole j ((one_client 30, key_of 0) ∷ (one_client 30, key_of 1) ∷ []))
unfolding is_valid_workload wait
main-merged_example =
    main-merged whole starts 97 2 (λ k. (one_client 30, key_of k)) (λ k. (one_client 30, key_of k))
      refl refl (λ load k. refl) (λ load k given. refl) (λ k. refl) (λ k. refl)

-- The feeder thread of the second driver fails.
abbrev fails : Processes whole
fails = record starts {
  ended = λ load k given. record {
    signal = ok tt;
    feeder = some (if k == 0 then some (one_client 30, []) else none);
    killed = ok tt;
  };
}

second_driver_fails :
    ycsb_bench whole fails 97 3 true [] ≡ fail (io (codes "a YCSB driver process failed"))
unfolding ycsb_bench wait
second_driver_fails = refl

ycsb_bench-AllReturn_example :
    ((rets : List (Returned whole)) × (length rets ≡ 3)
      × AllReturn whole fails true [] 0 rets
      × (ycsb_bench whole fails 97 3 true []
          ≡ done (merge_drivers whole (no_stats whole) (stats_of whole rets), union whole [] rets)))
    ⊎ ((d : ℕ) × (e : RunnerError) × (d < 3)
        × ((r : Returned whole) → ¬ Returns whole fails true [] d r)
        × (ycsb_bench whole fails 97 3 true [] ≡ fail e))
unfolding is_valid_workload
ycsb_bench-AllReturn_example = ycsb_bench-AllReturn whole fails true [] 97 3 refl
