-- ===== src/Fuzzer/Tests.antt =====
-- The theorems on the fuzz tester at concrete histories, and runs of the checker.
use madkv.Prelude.{ℕ, ◌≤◌, ◌≡◌, ◌↔◌, refl, true, inl, inr, none, some, List, [], ◌∷◌, arith, All}
use madkv.Prelude.Any.{Any}
use madkv.Prelude.Results.{done}
use madkv.Text.{Text, codes, text_eq, text_lt}
use madkv.HashMap
use madkv.Runner.Resp.{KvResp}
use madkv.Fuzzer.Random
use madkv.Fuzzer.Random.{Stats}
use madkv.Fuzzer.Forward.{gen_rand_kvcall-Answered}
use madkv.BTree
use madkv.BTree.Sorted.{IsSorted}
use madkv.Runner.Call
use madkv.RefCli.Types
use madkv.RefCli.Main.{State, handle_kv_call}
use madkv.RefCli.Handler.{Answered}
use madkv.Protocol.Wire.{to_client}
use madkv.Fuzzer.History.Spans.{UpdateSpan, KeySpans, QueuedSpan, search_key, trim_key, min_or}
use madkv.Fuzzer.History.Check.{check_get, check_call, check_scan, value_matches}
use madkv.Fuzzer.History.Update.{apply_update, add_to_queue, queue_len, new, push_span, dummy}
use madkv.Fuzzer.History.Trimming.{search_key-trim_key}
use madkv.Fuzzer.History.Stable.{check_call-late_update}
use madkv.Fuzzer.History.Search.{Seen, search_key_iff}
use madkv.Fuzzer.History.Linear.{check_get-linearizable}
use madkv.Fuzzer.History.Scan.{InRange, AreFresh, PassesGet, check_scan_iff}
use madkv.Fuzzer.History.Whole.{update_whole, run, acknowledge, unless_failed}
use madkv.Fuzzer.History.Runs.{result_of, run-apply_update-whole}
use madkv.Fuzzer.Driver.{fuzz_test, total}
use madkv.Fuzzer.Samples.{a, acks, counter, flags, absent, no_stats}
use madkv.Fuzzer.Driver.Verdict.{fuzz_test-whole}

abbrev span : ℕ → ℕ → Text → UpdateSpan
span ts_call ts_resp value = record { ts_call = ts_call; ts_resp = ts_resp; value = some value }

-- Two clients: the first wrote three times, the second never.
abbrev history : KeySpans
history =
    (dummy ∷ span 1 2 (codes "x") ∷ span 3 4 (codes "y") ∷ span 7 9 (codes "z") ∷ [])
    ∷ (dummy ∷ [])
    ∷ []

ok_history : All (All (λ (s : UpdateSpan). s.ts_call ≤ s.ts_resp)) history
ok_history = omega arith

search_key-trim_key_example :
    search_key (value_matches (some (codes "y"))) 5 8 (trim_key 5 6 history)
    ≡ search_key (value_matches (some (codes "y"))) 5 8 history
search_key-trim_key_example =
    search_key-trim_key (value_matches (some (codes "y"))) 5 6 5 8 history ok_history
      (inl (omega arith))

-- Only the span that the search stops at, and what is newer, is kept.
trims :
    trim_key 5 6 history ≡ (span 3 4 (codes "y") ∷ span 7 9 (codes "z") ∷ []) ∷ (dummy ∷ []) ∷ []
unfolding trim_key min_or
trims = refl

abbrev read_y : QueuedSpan
read_y = record { ts_call = 5; ts_resp = 8; resp = KvResp.get a (some (codes "y")) }

check_call-late_update_example :
    check_call
      (HashMap.insert ((a, history) ∷ []) a (push_span history 1 (span 10 11 (codes "w"))))
      read_y
    ≡ check_call ((a, history) ∷ []) read_y
check_call-late_update_example =
    check_call-late_update ((a, history) ∷ []) a history 1 (span 10 11 (codes "w")) read_y
      (unfold HashMap.get text_eq in refl) (omega arith) (omega arith)

search_key_iff_example :
    (search_key (value_matches (some (codes "y"))) 5 8 history ≡ true)
    ↔ Any (Seen (value_matches (some (codes "y"))) 5 8) history
search_key_iff_example = search_key_iff (value_matches (some (codes "y"))) 5 8 history

check_get-linearizable_example : check_get history 5 8 (some (codes "y")) ≡ true
check_get-linearizable_example =
    check_get-linearizable (λ s. s.ts_resp) 6 5 8 (some (codes "y")) history (omega arith)
      (omega arith) (omega arith) (inl (inr (inr (inl (omega arith, refl, (omega arith, tt))))))

check_scan_iff_example :
    (check_scan ((a, history) ∷ []) 5 8 a (codes "b") ((a, codes "y") ∷ []) ≡ true) ↔ (
      All (InRange a (codes "b")) ((a, codes "y") ∷ [])
      × AreFresh [] ((a, codes "y") ∷ [])
      × All (PassesGet a (codes "b") 5 8 ((a, codes "y") ∷ [])) ((a, history) ∷ []))
check_scan_iff_example = check_scan_iff a (codes "b") 5 8 ((a, history) ∷ []) ((a, codes "y") ∷ [])

run-apply_update-whole_example :
    result_of (run apply_update (new 2 ((a ∷ []) ∷ [])) acks)
    ≡ result_of (run update_whole (new 2 ((a ∷ []) ∷ [])) acks)
run-apply_update-whole_example = run-apply_update-whole 2 ((a ∷ []) ∷ []) acks (omega arith)

-- All three responses wait for the next update of the first client.
runs : result_of (run apply_update (new 2 ((a ∷ []) ∷ [])) acks) ≡ done (none, 3)
unfolding run acknowledge unless_failed add_to_queue queue_len apply_update new min_or trim_key
    HashMap.get HashMap.insert HashMap.contains_key text_eq
runs = refl

fuzz_test-whole_example :
    fuzz_test counter flags absent apply_update 10 201 100 1 ((a ∷ []) ∷ []) no_stats 0 0
    ≡ fuzz_test counter flags absent update_whole 10 300 100 1 ((a ∷ []) ∷ []) no_stats 0 0
fuzz_test-whole_example =
    fuzz_test-whole counter flags absent 10 201 300 100 1 ((a ∷ []) ∷ []) no_stats 0 0
      (unfold total in omega arith) (unfold total in omega arith) (unfold total in omega arith)

abbrev no_calls : Stats
no_calls = record {
  cnt_put = 0;
  cnt_swap = 0;
  cnt_get = 0;
  cnt_scan = 0;
  cnt_delete = 0;
  keys_freq = (0 ∷ 0 ∷ []) ∷ [];
}

abbrev b_before_a : List Text
b_before_a = codes "b" ∷ codes "a" ∷ []

-- The draw of a scan whose keys come in the wrong order.
draws_scan :
    Random.gen_rand_kvcall counter b_before_a no_calls 0 7
    ≡ done (
      Call.KvCall.scan (codes "a") (codes "b"),
      record no_calls { cnt_scan = 1; keys_freq = (1 ∷ 1 ∷ []) ∷ [] },
      10,
    )
unfolding Random.gen_rand_kvcall Random.inc text_lt
draws_scan = refl

gen_rand_kvcall-Answered_example :
    (resp : Types.KvResp) × (s' : State) × (handle_kv_call
        (to_client (Call.KvCall.scan (codes "a") (codes "b")))
        []
      ≡ done (resp, s'))
    × Answered
        (BTree.get [])
        (to_client (Call.KvCall.scan (codes "a") (codes "b")))
        resp
        (BTree.get s')
    × IsSorted s'
gen_rand_kvcall-Answered_example =
    gen_rand_kvcall-Answered counter b_before_a no_calls
      (record no_calls { cnt_scan = 1; keys_freq = (1 ∷ 1 ∷ []) ∷ [] }) 0 7 10
      (Call.KvCall.scan (codes "a") (codes "b")) [] draws_scan tt
