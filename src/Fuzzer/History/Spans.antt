-- ===== src/Fuzzer/History/Spans.antt =====
-- The data of runner/src/bin/fuzzer/history.rs, and its two loops over one client's history: the
-- search from the back that all checks share, and the trimming at the front.
use madkv.Prelude.{
  ℕ, ◌-◌, ◌^◌, min, Bool, true, false, ◌&&◌, List, [], ◌∷◌, Option, if◌then◌else◌, ltb,
}
use mathlib.Core.List.{reverse}
use madkv.Text.{Text}
use madkv.Runner.Resp.{KvResp}
use madkv.HashMap.{HashMap}

pub record UpdateSpan : Type 0 where
  pub ts_call : ℕ
  pub ts_resp : ℕ
  pub value : Option Text

pub record QueuedSpan : Type 0 where
  pub ts_call : ℕ
  pub ts_resp : ℕ
  pub resp : KvResp

-- A `VecDeque` is a list, its front first. A key has a deque for each client.
abbrev pub ClientSpans : Type 0
ClientSpans = List UpdateSpan

abbrev pub KeySpans : Type 0
KeySpans = List ClientSpans

pub record History : Type 0 where
  pub queue : List QueuedSpan
  pub spans : HashMap KeySpans
  pub maxtr : List ℕ

abbrev pub u64_max : ℕ
u64_max = 2 ^ 64 - 1

-- The inner loop of the four checks, over the spans newest first: `true` is its `return true`,
-- and `false` its `break` or its end.
unfoldable pub search_back : (Option Text → Bool) → ℕ → ℕ → ClientSpans → Bool
search_back matches ts_call ts_resp [] = false
search_back matches ts_call ts_resp (span ∷ older) =
    let rest = search_back matches ts_call ts_resp older in
    if ltb span.ts_call ts_resp && matches span.value
    then true
    else if ltb span.ts_resp ts_call
    then false
    else rest

-- `cli_spans.iter().rev()`
abbrev pub search_client : (Option Text → Bool) → ℕ → ℕ → ClientSpans → Bool
search_client matches ts_call ts_resp cli_spans =
    search_back matches ts_call ts_resp (reverse cli_spans)

-- The outer loop of the four checks.
unfoldable pub search_key : (Option Text → Bool) → ℕ → ℕ → KeySpans → Bool
search_key matches ts_call ts_resp [] = false
search_key matches ts_call ts_resp (cli_spans ∷ key_spans) =
    if search_client matches ts_call ts_resp cli_spans
    then true
    else search_key matches ts_call ts_resp key_spans

-- The loop that sets `keep_ts`, over the spans newest first.
unfoldable pub find_keep : ℕ → ℕ → ClientSpans → ℕ
find_keep min_coming_ts min_queued_ts [] = 0
find_keep min_coming_ts min_queued_ts (span ∷ older) =
    let rest = find_keep min_coming_ts min_queued_ts older in
    if ltb span.ts_resp min_coming_ts && ltb span.ts_resp min_queued_ts then span.ts_call else rest

-- The loop of `pop_front`, which leaves at least one span.
unfoldable pub drop_stale : ℕ → ClientSpans → ClientSpans
drop_stale keep_ts [] = []
drop_stale keep_ts (span ∷ []) = span ∷ []
drop_stale keep_ts (span ∷ next ∷ newer) =
    let rest = drop_stale keep_ts (next ∷ newer) in
    if ltb span.ts_resp keep_ts then rest else span ∷ next ∷ newer

unfoldable pub trim_client : ℕ → ℕ → ClientSpans → ClientSpans
unfolding find_keep drop_stale
trim_client min_coming_ts min_queued_ts cli_spans =
    drop_stale (find_keep min_coming_ts min_queued_ts (reverse cli_spans)) cli_spans

-- The loop over `key_spans.iter_mut()`.
unfoldable pub trim_key : ℕ → ℕ → KeySpans → KeySpans
unfolding trim_client
trim_key min_coming_ts min_queued_ts [] = []
trim_key min_coming_ts min_queued_ts (cli_spans ∷ key_spans) =
    trim_client min_coming_ts min_queued_ts cli_spans
    ∷ trim_key min_coming_ts min_queued_ts key_spans

min_from : ℕ → List ℕ → ℕ
min_from x [] = x
min_from x (y ∷ ys) = min x (min_from y ys)

-- `iter().min().unwrap_or(default)`
unfoldable pub min_or : ℕ → List ℕ → ℕ
unfolding min_from
min_or default [] = default
min_or default (x ∷ xs) = min_from x xs
