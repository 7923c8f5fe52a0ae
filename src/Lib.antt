-- ===== src/Lib.antt =====
-- Verification of madkv: the utilities that drive and test a key-value store by its client's line
-- protocol. The Rust sources are `runner/src` (a library, and the binaries fuzzer, bencher and
-- service) and `refcli/src`, a reference client.
--
-- The parts and how they interact. The runner spawns a client process, writes it one line for each
-- call and reads back one response (`runner/src/ioapi.rs`). The reference client
-- (`refcli/src/main.rs`) is such a process, over a map of its own. The fuzz tester
-- (`runner/src/bin/fuzzer`) makes random calls through several clients and hands each response to
-- a checker (`history.rs`), which keeps a trimmed history of updates for each key and client and
-- checks a response once no update to come can change the verdict. The bencher
-- (`runner/src/bin/bencher`) translates the output of a YCSB driver to calls, feeds one client per
-- driver, and merges the performance figures that the drivers print.
--
-- Which file models what:
--   Text, Io, BTree, BTreeSet, HashMap: what the sources use of Rust's `str`, `std::io`,
--     `BTreeMap`, `BTreeSet` and `HashMap` (its keys differ: HashMap/Distinct). A text is a list of
--     Unicode code points.
--   Runner/Error, Runner/Call, Runner/Resp: `RunnerError`; `KvCall` with `into_write` and
--     `update_info`; `KvResp` with `read_next_line`, `expect_next_seg` and `from_read`. Runner/Proc:
--     `proc.rs`, the operations of `ClientProc` and the driver thread, over channels.
--   Service: `main` of `runner/src/bin/service/main.rs`. Launch says what it launches.
--   RefCli/Types, Input, Output, Main: `parse_input_call`, `write_response`, `handle_kv_call` and
--     `main` of the reference client. RefCli/Handler has its specification, an abstract map.
--   Protocol: what one side writes the other side reads (Calls, Lines, Resps), the loop that skips
--     blank lines (Blank), a session of the reference client from its calls to STOP (Session), and
--     the two readings of the last key of a scan (ScanEnd). System is a step relation on the thread
--     that calls, the driver thread, the reference client, and their channels and pipes, with its
--     invariant (Parts, Stages, Invariant) and its progress (Able, Drains); Thread runs the driver
--     thread to its end.
--   Bencher: `runner/src/bin/bencher`. Number and Calls have `parse::<usize>` and the translation
--     of the YCSB driver's lines (`interpret_ycsb_call` and the functions it calls), Stats the
--     statistics and their merge, Feeder `record_ycsb_perf`, `feed_a_line` and `feeder_thread`, over
--     interfaces for `f64` and the client. ScanCount and Words say what the calls are, and Merge what
--     the merge computes; Inserted has the keys that a line inserts, Advances an iteration of the
--     thread, Finishes how the thread ends. Bench has `ycsb_bench`, `main`, and `exec` and `wait` of a
--     driver, over what the processes do, Phases what a benchmark computes, and Failure when a phase
--     has a result.
--   Fuzzer/History: `history.rs`. Spans has the records and the loops over one key's history,
--     Check the checks, Update the operations. Whole has a reference checker that never trims.
--     Search, Scan and Linear say what the checks decide; Trimming, Same, Stable, Minimum, Agrees,
--     Refinement and Runs lead to the refinement. Complete, Online, Decides and Offline compare the
--     checker with one check of each response over all updates of the run. Sequential defines
--     linearizability over an atomic map; Pushed, Clients, Linearizable and NoAlarm say what it
--     means for the verdicts.
--   Fuzzer/Random, Fuzzer/Driver: `random.rs`, and `fuzz_test` of `main.rs`. Fuzzer/Outside has
--     the interfaces of the crates `rand` and `bit_vec` and of the client processes, which the model
--     takes as parameters. Driver/Invariant, Steps and Turns keep the invariant of the loop, and
--     Driver/Verdict compares its verdicts. Driver/Traces relates the variables of the loop to the
--     responses that it harvested, KnownKeys and Driver/Known follow the keys of the updates, and
--     Driver/Flying has the calls that are on the fly when a test fails, and Driver/Alarm says why it
--     fails. Fuzzer/Main is `main`, with Main/Pools on the keys that it
--     generates and Main/Failed on its verdict. Fuzzer/Forward hands the calls to the reference
--     client.
--
-- Conventions. Results of fallible code are `Result`; code with a loop that may not end, or a call
-- that may panic, returns an `Outcome`, where `spin` means that the fuel ran out. A reader is the
-- text that is still to come and what comes after it, the end of the file or an I/O error. The
-- `debug_assert!`s of the sources are not part of the release build that the recipes run, and not
-- of the model. Timestamps and counters wrap at 2^64, as `u64` and `usize` do there.
--
-- Fuel. `read_next_line` has a round for each character that is left and one more; a SCAN response
-- one for each entry and one more. The loop of `fuzz_test` makes at most two rounds for each
-- operation. `feeder_thread` needs a round for each character of its input and one more. In System
-- each part has a round for each character of its pipe, and one more. `gen_rand_client` draws
-- until it hits a fitting client, for which no number of draws is enough in general; its fuel
-- stays a parameter.
--
-- Not modelled: spawning and killing processes and threads, the sleeps, argument parsing and
-- printing, the P model, the report scripts and the recipes.
pub mod Prelude
pub mod Text
pub mod Io
pub mod BTree
pub mod BTreeSet
pub mod HashMap
pub mod Runner
pub mod Service
pub mod RefCli
pub mod Protocol
pub mod Bencher
pub mod Fuzzer
