-- ===== src/Protocol/Values.antt =====
-- Calls whose values can be read back keep the reference client's responses readable.
use madkv.Prelude.{Option, none, some, All, All-map, Bool-cases, inl, inr, if◌then◌else◌}
use madkv.Prelude.Results.{Ensures}
use madkv.Text.{Text, text_lt}
use madkv.BTree
use madkv.BTree.Entries.{insert-All, remove-All, range-All, OfSome, get-OfSome}
use madkv.Runner.Call
use madkv.RefCli.Types.{KvResp}
use madkv.RefCli.Main.{State, handle_kv_call}
use madkv.Protocol.Wire.{IsWireCall, IsWireValue, IsWireOption, IsWireEntry, IsWireResp, to_client}

-- The value of a PUT or SWAP can be read back, in a GET as in a SCAN.
abbrev pub IsStorable : Call.KvCall → Type 0
IsStorable (Call.KvCall.put key value) = IsWireEntry (key, value) × IsWireValue value
IsStorable (Call.KvCall.swap key value) = IsWireEntry (key, value) × IsWireValue value
IsStorable c = IsWireCall c

IsStorable-IsWireCall : (c : Call.KvCall) → IsStorable c → IsWireCall c
IsStorable-IsWireCall (Call.KvCall.put key value) h = (h.0.0, h.0.1)
IsStorable-IsWireCall (Call.KvCall.swap key value) h = (h.0.0, h.0.1)
IsStorable-IsWireCall (Call.KvCall.get key) h = h
IsStorable-IsWireCall (Call.KvCall.scan key_start key_end) h = h
IsStorable-IsWireCall (Call.KvCall.delete key) h = h
IsStorable-IsWireCall Call.KvCall.stop h = h

-- A state whose entries can all be read back.
abbrev pub IsWireState : State → Type 0
IsWireState s = All (λ e. IsWireEntry e × IsWireValue e.1) s

abbrev IsWireAnswer : KvResp × State → Type 0
IsWireAnswer (resp, s') = IsWireResp resp × IsWireState s'

OfSome-IsWireOption : (o : Option Text) → OfSome IsWireValue o → IsWireOption o
OfSome-IsWireOption none h = tt
OfSome-IsWireOption (some v) h = h

get-IsWireOption : (s : State) (key : Text) → IsWireState s → IsWireOption (BTree.get s key)
get-IsWireOption s key h =
    OfSome-IsWireOption (BTree.get s key) (get-OfSome IsWireValue s key (All-map (λ e p. p.1) s h))

pub handle_kv_call-IsWireAnswer :
    (c : Call.KvCall) (s : State)
    → IsStorable c
    → IsWireState s
    → Ensures IsWireAnswer (handle_kv_call (to_client c) s)
unfolding handle_kv_call to_client
handle_kv_call-IsWireAnswer (Call.KvCall.put key value) s c h =
    (c.0.0, insert-All _ s key value h c)
handle_kv_call-IsWireAnswer (Call.KvCall.swap key value) s c h =
    ((c.0.0, get-IsWireOption s key h), insert-All _ s key value h c)
handle_kv_call-IsWireAnswer (Call.KvCall.get key) s c h = ((c, get-IsWireOption s key h), h)
handle_kv_call-IsWireAnswer (Call.KvCall.scan key_start key_end) s c h =
    elim (Bool-cases (text_lt key_end key_start)) [
      | inl e ↦ rw (e, if◌then◌else◌) tt
      | inr e ↦
          rw (e, if◌then◌else◌)
            ((c.0, c.1, All-map (λ e p. p.0) _ (range-All _ s key_start key_end h)), h)
    ]
handle_kv_call-IsWireAnswer (Call.KvCall.delete key) s c h = (c, remove-All _ s key h)
handle_kv_call-IsWireAnswer Call.KvCall.stop s c h = (tt, h)
