-- ===== src/Fuzzer/Scenarios.antt =====
-- The theorems on the checker's verdicts at concrete responses and a concrete client.
use madkv.Prelude.{
  true, false, length, length-replicate, ℕ, ◌≡◌, refl, inl, inr, none, some, List, [], ◌∷◌, arith,
  All,
}
use madkv.Prelude.Results.{ok, done}
use madkv.Text.{Text, text_eq, codes}
use madkv.HashMap
use madkv.HashMap.{HashMap}
use madkv.Runner.Resp.{KvResp}
use madkv.Fuzzer.Outside.{Clients}
use madkv.Fuzzer.Random
use madkv.Fuzzer.History.Spans.{History}
use madkv.Fuzzer.History.Update.{apply_update, new}
use madkv.Fuzzer.History.Pushed.{update_at}
use madkv.Runner.Call.{update_info}
use madkv.Fuzzer.History.Whole.{Ack, run}
use madkv.Fuzzer.History.Decides.{entries}
use madkv.Fuzzer.History.Complete.{complete}
use madkv.Fuzzer.History.Online.{KnownKey, Judged}
use madkv.Fuzzer.History.Offline.{run-offline}
use madkv.Fuzzer.History.Sequential.{Linearization}
use madkv.Fuzzer.History.NoAlarm.{KnownResp, run-linearizable}
use madkv.Fuzzer.Driver.{Loop}
use madkv.Fuzzer.Driver.Flying.{Explanation}
use madkv.Fuzzer.Main.{Args, gen_keys, conflict_key}
use madkv.Fuzzer.Main.Pools.{IsPool, gen_keys-pools}
use madkv.Fuzzer.Samples.{a, acks, counter, flags, no_stats}

abbrev pools : List (List Text)
pools = (a ∷ []) ∷ []

acks-KnownKey : All (λ (b : Ack). KnownKey (new 2 pools).spans b.update_info) acks
unfolding new HashMap.get HashMap.insert HashMap.contains_key text_eq
acks-KnownKey = ((_, refl), (tt, ((_, refl), tt)))

acks-KnownResp : All (λ (b : Ack). KnownResp (new 2 pools).spans b.resp) acks
unfolding new HashMap.get HashMap.insert HashMap.contains_key text_eq
acks-KnownResp = ((_, refl), ((_, refl), ((_, refl), tt)))

run-offline_example :
    Judged (complete (new 2 pools).spans acks) (entries acks) (run apply_update (new 2 pools) acks)
run-offline_example = run-offline 2 pools acks (omega arith) acks-KnownKey

-- The calls in the order of their responses.
acks-Linearization : Linearization acks acks
unfolding text_eq update_at
acks-Linearization = record {
  all_of = (inl refl, (inr (inl refl), (inr (inr (inl refl)), tt)));
  only_of = (inl refl, (inr (inl refl), (inr (inr (inl refl)), tt)));
  legal = (refl, (refl, (refl, tt)));
  ordered = omega arith;
}

run-linearizable_example : (h : History) × (run apply_update (new 2 pools) acks ≡ done (none, h))
run-linearizable_example =
    run-linearizable 2 pools acks acks (omega arith) acks-Linearization (omega arith) (omega arith)
      acks-KnownKey acks-KnownResp

-- Clients that answer every call as a GET that has found a value that nobody wrote.
abbrev liar : Clients
liar = record {
  World = ℕ;
  send_call = λ w cidx call. ok w;
  wait_resp = λ w cidx. ok (KvResp.get a (some (codes "zz")), w);
  stop = λ w cidx. ok w;
}

-- The first client's PUT is on the fly, and the second's GET has come back with its value.
abbrev put_on_the_fly : Loop counter flags liar
put_on_the_fly = record {
  flying = true ∷ false ∷ [];
  timestamp = 3;
  call_memo = (1, some (a, some (codes "x"))) ∷ (0, none) ∷ [];
  ops_called = 2;
  ops_waited = 1;
  stats = no_stats;
  rng = 0;
  world = 0;
}

abbrev seen_put : Ack
seen_put = record {
  cidx = 1;
  ts_call = 2;
  ts_resp = 3;
  resp = KvResp.get a (some (codes "x"));
  update_info = none;
}

abbrev late_put : Ack
late_put = record {
  cidx = 0;
  ts_call = 1;
  ts_resp = 4;
  resp = KvResp.put a false;
  update_info = some (a, some (codes "x"));
}

-- A later response to the PUT explains the GET.
seen_put-Explanation :
    Explanation counter flags liar (new 2 pools).spans put_on_the_fly (seen_put ∷ [])
unfolding new HashMap.insert HashMap.contains_key text_eq update_at
seen_put-Explanation = record {
  later = late_put ∷ [];
  completes = (record { on_the_fly = refl; memo = refl; is_later = omega arith; about = refl }, tt);
  apart = (tt, tt);
  seq = late_put ∷ seen_put ∷ [];
  linear = record {
    all_of = (inr (inl refl), (inl refl, tt));
    only_of = (inr (inl refl), (inl refl, tt));
    legal = (refl, (refl, tt));
    ordered = ((omega arith, tt), (tt, tt));
  };
}

abbrev two_each : Args
two_each = record { num_clis = 2; num_keys = 2; num_ops = 1000; conflict = true }

gen_keys-pools_example :
    (length (gen_keys counter two_each 2 0).0 ≡ 2)
    × All (IsPool 2) (gen_keys counter two_each 2 0).0
gen_keys-pools_example =
    gen_keys-pools counter (λ s len. length-replicate len 97) two_each 2 0 (omega arith)

numbered : conflict_key 42 ≡ codes "key00042"
unfolding conflict_key
numbered = refl

abbrev one_each : Args
one_each = record { num_clis = 1; num_keys = 1; num_ops = 1000; conflict = true }
