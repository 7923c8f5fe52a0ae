-- ===== src/RefCli/Types.antt =====
-- The calls and responses of refcli/src/main.rs, and its errors.
use madkv.Prelude.{Bool, Option, List}
use madkv.Text.{Text}

pub data KvCall : Type 0 where
  put swap : Text → Text → KvCall
  get : Text → KvCall
  scan : Text → Text → KvCall
  delete : Text → KvCall
  stop : KvCall

pub data KvResp : Type 0 where
  put : Text → Bool → KvResp
  swap : Text → Option Text → KvResp
  get : Text → Option Text → KvResp
  scan : Text → Text → List (Text × Text) → KvResp
  delete : Text → Bool → KvResp
  stop : KvResp

-- An `io::Error` by its kind: `InvalidInput` of this program, or what a read or write returned.
pub data IoError : Type 0 where
  invalid_input other : Text → IoError
