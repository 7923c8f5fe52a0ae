-- ===== src/Runner/Error.antt =====
-- runner/src/error.rs: the runner's one error type.
use madkv.Prelude.{◌++◌}
use madkv.Prelude.Results.{Result, ok, err}
use madkv.Text.{Text, codes}

pub data RunnerError : Type 0 where
  io parse chan : Text → RunnerError
  join : RunnerError

-- `fmt` of `impl Display`
unfoldable pub fmt : RunnerError → Text
fmt (io msg) = codes "io error: " ++ msg
fmt (parse msg) = codes "parse error: " ++ msg
fmt (chan msg) = codes "chan error: " ++ msg
fmt join = codes "thread join error"

-- `From<io::Error>`, which `?` applies to the result of an I/O call
abbrev pub from_io {ℓ} : {A : Type ℓ} → Result Text A → Result RunnerError A
from_io (ok a) = ok a
from_io (err message) = err (io message)
