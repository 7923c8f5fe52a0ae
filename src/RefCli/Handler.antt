-- ===== src/RefCli/Handler.antt =====
-- `handle_kv_call` against an abstract map from keys to values.
use madkv.Prelude.{◌≡◌, refl, false, ◌&&◌, Option, none, some, List, if◌then◌else◌, arith, is_some}
use madkv.Prelude.Results.{done}
use madkv.Text.{Text, text_eq, text_lt, text_le}
use madkv.BTree
use madkv.BTree.Laws.{get-insert, get-remove, get-range, contains_key-eq-is_some}
use madkv.BTree.Sorted.{IsSorted, insert-IsSorted, remove-IsSorted, range-IsSorted}
use madkv.RefCli.Types.{KvCall, KvResp}
use madkv.RefCli.Main.{State, handle_kv_call}

abbrev pub View : Type 0
View = Text → Option Text

abbrev pub SameView : View → View → Type 0
SameView m m' = (j : Text) → m j ≡ m' j

-- The view with the value of one key replaced.
unfoldable pub assign : View → Text → Option Text → View
assign m key o = λ j. if text_eq key j then o else m j

-- The specification of a call: its response, and the view after it.
abbrev pub Answered : View → KvCall → KvResp → View → Type 0
Answered m (KvCall.put key value) resp m' =
    (resp ≡ KvResp.put key (is_some (m key))) × SameView m' (assign m key (some value))
Answered m (KvCall.swap key value) resp m' =
    (resp ≡ KvResp.swap key (m key)) × SameView m' (assign m key (some value))
Answered m (KvCall.get key) resp m' = (resp ≡ KvResp.get key (m key)) × SameView m' m
Answered m (KvCall.scan key_start key_end) resp m' =
    (entries : List (Text × Text)) × (resp ≡ KvResp.scan key_start key_end entries)
    × IsSorted entries
    × SameView (BTree.get entries)
        (λ j. if text_le key_start j && text_lt j key_end then m j else none)
    × SameView m' m
Answered m (KvCall.delete key) resp m' =
    (resp ≡ KvResp.delete key (is_some (m key))) × SameView m' (assign m key none)
Answered m KvCall.stop resp m' = (resp ≡ KvResp.stop) × SameView m' m

-- The range of a scan does not begin after its end.
abbrev pub IsForward : KvCall → Type 0
IsForward (KvCall.scan key_start key_end) = text_lt key_end key_start ≡ false
IsForward _ = Unit

-- On a sorted state, every call but a scan with its end before its start is answered as the
-- abstract map says, and leaves a sorted state. A scan of that map leaves out its end key, which the
-- checker and the README count in.
pub handle_kv_call-Answered :
    (c : KvCall) (s : State)
    → IsSorted s
    → IsForward c
    → (resp : KvResp) × (s' : State) × (handle_kv_call c s ≡ done (resp, s'))
      × Answered (BTree.get s) c resp (BTree.get s')
      × IsSorted s'
unfolding handle_kv_call assign
handle_kv_call-Answered (KvCall.put key value) s sorted f = (
  KvResp.put key (is_some (BTree.get s key)),
  BTree.insert s key value,
  rw contains_key-eq-is_some,
  (refl, λ j. get-insert s key j value),
  insert-IsSorted s key value sorted,
)
handle_kv_call-Answered (KvCall.swap key value) s sorted f = (
  KvResp.swap key (BTree.get s key),
  BTree.insert s key value,
  refl,
  (refl, λ j. get-insert s key j value),
  insert-IsSorted s key value sorted,
)
handle_kv_call-Answered (KvCall.get key) s sorted f =
    (KvResp.get key (BTree.get s key), s, refl, (refl, λ j. refl), sorted)
handle_kv_call-Answered (KvCall.scan key_start key_end) s sorted f =
    let entries = BTree.range s key_start key_end in
    (
      KvResp.scan key_start key_end entries,
      s,
      rw f,
      (
        entries,
        refl,
        range-IsSorted s key_start key_end sorted,
        λ j. get-range s key_start key_end j,
        λ j. refl,
      ),
      sorted,
    )
handle_kv_call-Answered (KvCall.delete key) s sorted f = (
  KvResp.delete key (is_some (BTree.get s key)),
  BTree.remove s key,
  ground arith,
  (refl, λ j. get-remove s key j),
  remove-IsSorted s key sorted,
)
handle_kv_call-Answered KvCall.stop s sorted f = (KvResp.stop, s, refl, (refl, λ j. refl), sorted)
