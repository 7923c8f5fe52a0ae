-- ===== src/Runner/Call.antt =====
-- `KvCall` of runner/src/ioapi.rs: the calls that the runner writes to a client process.
use madkv.Prelude.{◌∷◌, [], ◌++◌, Option, none, some}
use madkv.Prelude.Results.{Result}
use madkv.Text.{Text, codes}
use madkv.Io.{Writer, write_line}
use madkv.Runner.Error.{RunnerError, from_io}

pub data KvCall : Type 0 where
  put swap : Text → Text → KvCall
  get : Text → KvCall
  scan : Text → Text → KvCall
  delete : Text → KvCall
  stop : KvCall

-- `writeln!` of a keyword, one or two arguments.
abbrev one_arg : Text → Text → Text
one_arg word key = word ++ (32 ∷ key ++ (10 ∷ []))

abbrev two_args : Text → Text → Text → Text
two_args word key value = word ++ (32 ∷ key ++ (32 ∷ value ++ (10 ∷ [])))

-- The line that each arm of `into_write` formats.
unfoldable pub call_line : KvCall → Text
call_line (put key value) = two_args (codes "PUT") key value
call_line (swap key value) = two_args (codes "SWAP") key value
call_line (get key) = one_arg (codes "GET") key
call_line (scan key_start key_end) = two_args (codes "SCAN") key_start key_end
call_line (delete key) = one_arg (codes "DELETE") key
call_line stop = codes "STOP" ++ (10 ∷ [])

unfoldable pub into_write : KvCall → Writer → Result RunnerError Writer
unfolding call_line
into_write call writer = from_io (write_line writer (call_line call))

-- The value update that a call makes: `none` if it only reads, and with the value `none` for a
-- deletion.
unfoldable pub update_info : KvCall → Option (Text × Option Text)
update_info (put key value) = some (key, some value)
update_info (swap key value) = some (key, some value)
update_info (delete key) = some (key, none)
update_info _ = none
