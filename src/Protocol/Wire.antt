-- ===== src/Protocol/Wire.antt =====
-- The calls and responses whose line form can be read back, and the correspondence between the
-- types of the runner and of the reference client.
use madkv.Prelude.{◌≡◌, true, false, ◌&&◌, Option, none, some, All}
use madkv.Text.{Text, codes, text_eq, is_word}
use madkv.Runner.Call
use madkv.Runner.Resp
use madkv.RefCli.Types

-- A segment that survives the line form.
abbrev pub IsWord : Text → Type 0
IsWord s = is_word s ≡ true

abbrev pub IsWireCall : Call.KvCall → Type 0
IsWireCall (Call.KvCall.put key value) = IsWord key × IsWord value
IsWireCall (Call.KvCall.swap key value) = IsWord key × IsWord value
IsWireCall (Call.KvCall.get key) = IsWord key
IsWireCall (Call.KvCall.scan key_start key_end) = IsWord key_start × IsWord key_end
IsWireCall (Call.KvCall.delete key) = IsWord key
IsWireCall Call.KvCall.stop = Unit

unfoldable pub to_client : Call.KvCall → Types.KvCall
to_client (Call.KvCall.put key value) = Types.KvCall.put key value
to_client (Call.KvCall.swap key value) = Types.KvCall.swap key value
to_client (Call.KvCall.get key) = Types.KvCall.get key
to_client (Call.KvCall.scan key_start key_end) = Types.KvCall.scan key_start key_end
to_client (Call.KvCall.delete key) = Types.KvCall.delete key
to_client Call.KvCall.stop = Types.KvCall.stop

-- A value that is read back: a word other than the word for a missing value.
abbrev pub IsWireValue : Text → Type 0
IsWireValue v = IsWord v × (text_eq v (codes "null") ≡ false)

abbrev pub IsWireOption : Option Text → Type 0
IsWireOption none = Unit
IsWireOption (some v) = IsWireValue v

-- An entry whose line is not the one that ends the response.
abbrev pub IsWireEntry : Text × Text → Type 0
IsWireEntry (k, v) =
    IsWord k × IsWord v × ((text_eq k (codes "SCAN") && text_eq v (codes "END")) ≡ false)

abbrev pub IsWireResp : Types.KvResp → Type 0
IsWireResp (Types.KvResp.put key found) = IsWord key
IsWireResp (Types.KvResp.swap key old_value) = IsWord key × IsWireOption old_value
IsWireResp (Types.KvResp.get key value) = IsWord key × IsWireOption value
IsWireResp (Types.KvResp.scan key_start key_end entries) =
    IsWord key_start × IsWord key_end × All IsWireEntry entries
IsWireResp (Types.KvResp.delete key found) = IsWord key
IsWireResp Types.KvResp.stop = Unit

unfoldable pub to_runner : Types.KvResp → Resp.KvResp
to_runner (Types.KvResp.put key found) = Resp.KvResp.put key found
to_runner (Types.KvResp.swap key old_value) = Resp.KvResp.swap key old_value
to_runner (Types.KvResp.get key value) = Resp.KvResp.get key value
to_runner (Types.KvResp.scan key_start key_end entries) = Resp.KvResp.scan key_start key_end entries
to_runner (Types.KvResp.delete key found) = Resp.KvResp.delete key found
to_runner Types.KvResp.stop = Resp.KvResp.stop
