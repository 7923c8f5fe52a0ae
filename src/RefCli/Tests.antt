-- ===== src/RefCli/Tests.antt =====
-- The reference client at concrete inputs.
use madkv.Prelude.{◌≡◌, refl, none, [], ◌∷◌}
use madkv.Prelude.Results.{done, fail}
use madkv.Text.{Text, codes, text_eq, text_lt, is_whitespace, split_whitespace, trim}
use madkv.Io.{read_line, write_line}
use madkv.BTree
use madkv.BTree.Sorted.{IsSorted}
use madkv.RefCli.Types.{KvCall, KvResp, invalid_input}
use madkv.RefCli.Input.{parse_input_call, expect_next_seg, invalid_line, skip_blank}
use madkv.RefCli.Output.{write_response}
use madkv.RefCli.Main.{State, Client, handle_kv_call, main_loop}
use madkv.RefCli.Handler.{Answered, handle_kv_call-Answered}

abbrev session : Text
session = codes "PUT b 2\nSWAP b 3\n\n  GET   b\nPUT a 1\nSCAN a c\nDELETE a\nGET a\nSTOP\n"

abbrev replies : Text
replies =
    codes
      "PUT b not_found\nSWAP b 2\nGET b 3\nPUT a not_found\nSCAN a c BEGIN\n  a 1\n  b 3\nSCAN END\nDELETE a found\nGET a null\nSTOP\n"

abbrev client : Text → Client
client text = record {
  stdin = record { pending = text; fault = none };
  stdout = record { written = []; fault = none };
  state = [];
}

serves :
    main_loop 3 9 (client session)
    ≡ done (record {
      stdin = record { pending = []; fault = none };
      stdout = record { written = replies; fault = none };
      state = (codes "b", codes "3") ∷ [];
    })
unfolding main_loop skip_blank read_line write_line parse_input_call expect_next_seg
    split_whitespace trim is_whitespace text_eq text_lt BTree.get BTree.insert BTree.contains_key
    BTree.remove BTree.range write_response
serves = refl

unknown :
    main_loop 3 9 (client (codes "GTE b\n"))
    ≡ fail (invalid_input (codes "invalid input line: GTE b"))
unfolding main_loop skip_blank read_line parse_input_call invalid_line split_whitespace trim
    is_whitespace text_eq
unknown = refl

abbrev two : State
two = (codes "a", codes "1") ∷ (codes "b", codes "2") ∷ []

two-IsSorted : IsSorted two
unfolding text_lt
two-IsSorted = ((refl, tt), (tt, tt))

handle_kv_call-Answered_example :
    (resp : KvResp) × (s' : State) × (handle_kv_call (KvCall.scan (codes "a") (codes "b")) two
      ≡ done (resp, s'))
    × Answered (BTree.get two) (KvCall.scan (codes "a") (codes "b")) resp (BTree.get s')
    × IsSorted s'
handle_kv_call-Answered_example =
    handle_kv_call-Answered (KvCall.scan (codes "a") (codes "b")) two two-IsSorted
      (unfold text_lt in refl)
