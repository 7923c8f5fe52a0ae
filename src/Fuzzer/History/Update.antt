-- ===== src/Fuzzer/History/Update.antt =====
-- The operations of `History` in runner/src/bin/fuzzer/history.rs. The `debug_assert!`s are not
-- part of a release build.
use madkv.Prelude.{
  ℕ, zero, suc, ◌&&◌, List, [], ◌∷◌, ◌++◌, map, Option, none, some, if◌then◌else◌, ltb, length, set,
  replicate,
}
use madkv.Prelude.Results.{Outcome, done, panic}
use madkv.Text.{Text}
use madkv.Runner.Error.{RunnerError}
use madkv.Runner.Resp.{KvResp}
use madkv.HashMap
use madkv.HashMap.{HashMap}
use madkv.Fuzzer.History.Spans.{
  UpdateSpan, QueuedSpan, KeySpans, History, u64_max, trim_key, min_or,
}
use madkv.Fuzzer.History.Check.{check_call}

-- The deletion at time 0 with which every client's history of a key starts.
abbrev pub dummy : UpdateSpan
dummy = record { ts_call = 0; ts_resp = 0; value = none }

unfoldable pub add_key : ℕ → HashMap KeySpans → Text → HashMap KeySpans
add_key num_clis spans key =
    if HashMap.contains_key spans key
    then spans
    else HashMap.insert spans key (replicate num_clis (dummy ∷ []))

-- The loops of `new`: over one client's keys, and over the clients.
unfoldable pub add_keys : ℕ → HashMap KeySpans → List Text → HashMap KeySpans
unfolding add_key
add_keys num_clis spans [] = spans
add_keys num_clis spans (key ∷ cli_keys) = add_keys num_clis (add_key num_clis spans key) cli_keys

unfoldable pub add_pools : ℕ → HashMap KeySpans → List (List Text) → HashMap KeySpans
unfolding add_keys
add_pools num_clis spans [] = spans
add_pools num_clis spans (cli_keys ∷ keys) =
    add_pools num_clis (add_keys num_clis spans cli_keys) keys

unfoldable pub new : ℕ → List (List Text) → History
unfolding add_pools
new num_clis keys = record {
  queue = [];
  spans = add_pools num_clis [] keys;
  maxtr = replicate num_clis 0;
}

unfoldable pub add_to_queue : History → ℕ → ℕ → KvResp → History
add_to_queue h ts_call ts_resp resp = record h {
  queue = h.queue ++ record { ts_call = ts_call; ts_resp = ts_resp; resp = resp } ∷ [];
}

unfoldable pub queue_len : History → ℕ
queue_len h = length h.queue

-- `key_spans[cidx].push_back(span)`
unfoldable pub push_span : KeySpans → ℕ → UpdateSpan → KeySpans
push_span [] cidx span = []
push_span (cli_spans ∷ key_spans) zero span = (cli_spans ++ span ∷ []) ∷ key_spans
push_span (cli_spans ∷ key_spans) (suc cidx) span = cli_spans ∷ push_span key_spans cidx span

-- The loop that pops checkable results: the response whose check failed, and the rest of the queue.
unfoldable pub pop_checkable :
    HashMap KeySpans → ℕ → List QueuedSpan → Option KvResp × List QueuedSpan
pop_checkable spans min_coming_ts [] = (none, [])
pop_checkable spans min_coming_ts (entry ∷ queue) =
    let rest = pop_checkable spans min_coming_ts queue in
    if ltb entry.ts_resp min_coming_ts
    then if check_call spans entry then rest else (some entry.resp, queue)
    else (none, entry ∷ queue)

-- `Some(resp)` becomes the return value `Some(Some(resp))`.
abbrev pub failed_check : Option KvResp → Option (Option KvResp)
failed_check none = none
failed_check (some resp) = some (some resp)

-- The body of `apply_update` for a known key. An index out of range panics.
unfoldable pub update_known :
    History
    → KeySpans
    → ℕ
    → Text
    → UpdateSpan
    → Outcome RunnerError (Option (Option KvResp) × History)
unfolding push_span pop_checkable
update_known h key_spans cidx key span =
    let maxtr = set h.maxtr cidx span.ts_resp in
    let min_coming_ts = min_or 0 maxtr in
    let min_queued_ts = min_or u64_max (map (λ e. e.ts_call) h.queue) in
    let trimmed = trim_key min_coming_ts min_queued_ts (push_span key_spans cidx span) in
    let spans = HashMap.insert h.spans key trimmed in
    let popped = pop_checkable spans min_coming_ts h.queue in
    if ltb cidx (length key_spans) && ltb cidx (length h.maxtr)
    then done (failed_check popped.0, record { queue = popped.1; spans = spans; maxtr = maxtr })
    else panic

unfoldable pub apply_update :
    History
    → ℕ
    → ℕ
    → ℕ
    → Text
    → Option Text
    → Outcome RunnerError (Option (Option KvResp) × History)
unfolding update_known
apply_update h cidx ts_call ts_resp key value = elim (HashMap.get h.spans key) [
  | none ↦ done (some none, h)
  | some key_spans ↦
      update_known h key_spans cidx key
        (record { ts_call = ts_call; ts_resp = ts_resp; value = value })
]
