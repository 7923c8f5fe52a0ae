-- ===== src/RefCli/Main.antt =====
-- `handle_kv_call` and `main` of refcli/src/main.rs.
use madkv.Prelude.{ℕ, zero, suc, [], Bool, true, false, is_some, if◌then◌else◌}
use madkv.Prelude.Results.{Outcome, done, spin, panic, lift, ◌>>=◌}
use madkv.Text.{Text, text_lt, trim}
use madkv.Io.{Reader, Writer}
use madkv.BTree
use madkv.BTree.{BTree, contains_key, insert, remove, range}
use madkv.RefCli.Types.{KvCall, KvResp, IoError}
use madkv.RefCli.Input.{skip_blank, parse_input_call}
use madkv.RefCli.Output.{write_response}

abbrev pub State : Type 0
State = BTree Text

-- `BTreeMap::range` panics where the start of the range is above its end.
unfoldable pub handle_kv_call : KvCall → State → Outcome IoError (KvResp × State)
handle_kv_call (KvCall.put key value) state =
    done (KvResp.put key (contains_key state key), insert state key value)
handle_kv_call (KvCall.swap key value) state =
    done (KvResp.swap key (BTree.get state key), insert state key value)
handle_kv_call (KvCall.get key) state = done (KvResp.get key (BTree.get state key), state)
handle_kv_call (KvCall.scan key_start key_end) state =
    if text_lt key_end key_start
    then panic
    else done (KvResp.scan key_start key_end (range state key_start key_end), state)
handle_kv_call (KvCall.delete key) state =
    done (KvResp.delete key (is_some (BTree.get state key)), remove state key)
handle_kv_call KvCall.stop state = done (KvResp.stop, state)

-- `matches!(resp, KvResp::Stop)`
abbrev pub is_stop : KvResp → Bool
is_stop KvResp.stop = true
is_stop _ = false

pub record Client : Type 0 where
  pub stdin : Reader
  pub stdout : Writer
  pub state : State

-- One iteration of the outer loop of `main`, with its `to_stop`.
unfoldable pub serve_call : ℕ → Client → Outcome IoError (Bool × Client)
unfolding handle_kv_call
serve_call fuel c = do
  (stdin, buffer) ← skip_blank fuel c.stdin []
  call ← lift (parse_input_call (trim buffer))
  (resp, state) ← handle_kv_call call c.state
  stdout ← lift (write_response resp c.stdout)
  done (is_stop resp, record { stdin = stdin; stdout = stdout; state = state })

-- The outer loop of `main`; `lines` is the fuel of the inner one.
unfoldable pub main_loop : ℕ → ℕ → Client → Outcome IoError Client
unfolding serve_call
main_loop lines zero c = spin
main_loop lines (suc fuel) c = do
  (to_stop, c') ← serve_call lines c
  let again = main_loop lines fuel c'
  if to_stop then done c' else again
