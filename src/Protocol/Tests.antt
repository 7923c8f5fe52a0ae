-- ===== src/Protocol/Tests.antt =====
-- The theorems on the protocol at concrete calls, responses and inputs.
use madkv.Prelude.{ℕ, List, All, ◌≡◌, ◌≢◌, refl, false, none, some, [], ◌∷◌, ◌++◌, arith}
use madkv.Prelude.Results.{ok, done, spin}
use madkv.Text.{Text, codes, is_whitespace, is_word, split_whitespace, text_eq, text_lt, trim}
use madkv.Io.{Writer}
use madkv.BTree
use madkv.HashMap
use madkv.Runner.Call
use madkv.Runner.Call.{into_write, call_line}
use madkv.Runner.Resp.{from_read, read_next_line}
use madkv.RefCli.Types
use madkv.RefCli.Input.{skip_blank, parse_input_call}
use madkv.RefCli.Output.{write_response}
use madkv.RefCli.Main.{State, handle_kv_call, main_loop}
use madkv.Fuzzer.History.Spans.{KeySpans, search_key, search_back}
use madkv.Fuzzer.History.Check.{check_get, check_scan, value_matches}
use madkv.Protocol.Wire.{to_client, to_runner, IsWireCall, IsWireResp}
use madkv.Protocol.Calls.{into_write-parse}
use madkv.Protocol.Resps.{resp_fuel, write_response-from_read}
use madkv.Protocol.Blank.{input, read_next_line-hangs, read_next_line-halts}
use madkv.Protocol.Session.{AllAnswered, IsServed, at, calls_text, resps_text, main_loop-session}
use madkv.Protocol.Lines.{resp_text}
use madkv.BTree.Sorted.{IsSorted}
use madkv.Protocol.ScanEnd.{scan_end-rejected}

abbrev empty : Writer
empty = record { written = []; fault = none }

abbrev put_k1 : Call.KvCall
put_k1 = Call.KvCall.put (codes "k1") (codes "v1")

put_k1-IsWireCall : IsWireCall put_k1
unfolding is_word is_whitespace
put_k1-IsWireCall = (refl, refl)

into_write-parse_example :
    (line : Text) × (into_write put_k1 empty ≡ ok (record empty { written = [] ++ line }))
    × (skip_blank 1 (record { pending = line ++ codes "STOP\n"; fault = none }) []
        ≡ done (record { pending = codes "STOP\n"; fault = none }, line))
    × (parse_input_call (trim line) ≡ ok (to_client put_k1))
into_write-parse_example =
    into_write-parse 0 put_k1 empty (codes "STOP\n") none put_k1-IsWireCall refl

abbrev scanned : Types.KvResp
scanned =
    Types.KvResp.scan (codes "a") (codes "c") ((codes "a", codes "1") ∷ (codes "b", codes "2") ∷ [])

scanned-IsWireResp : IsWireResp scanned
unfolding is_word is_whitespace text_eq
scanned-IsWireResp = (refl, refl, ((refl, refl, refl), ((refl, refl, refl), tt)))

write_response-from_read_example :
    (text line : Text) × (write_response scanned empty ≡ ok (record empty { written = [] ++ text }))
    × (from_read 3 (record { pending = text ++ codes "STOP\n"; fault = none }) []
        ≡ done (to_runner scanned, record { pending = codes "STOP\n"; fault = none }, line))
write_response-from_read_example =
    write_response-from_read 3 scanned empty (codes "STOP\n") [] none scanned-IsWireResp refl
      (unfold resp_fuel in omega arith)

blank : split_whitespace (codes " \n\n") ≡ []
unfolding split_whitespace is_whitespace
blank = refl

read_next_line-hangs_example : read_next_line 7 (input (codes " \n\n")) [] ≡ spin
read_next_line-hangs_example = read_next_line-hangs 7 (codes " \n\n") [] blank

not_blank : split_whitespace (codes "\nSTOP\n") ≢ []
unfolding split_whitespace is_whitespace
not_blank e = cc e

read_next_line-halts_example :
    (size : ℕ) × (after text : Text) × (read_next_line 7 (input (codes "\nSTOP\n")) []
      ≡ done (size, input after, text))
    × (split_whitespace text ≢ [])
read_next_line-halts_example = read_next_line-halts 7 (codes "\nSTOP\n") [] (omega arith) not_blank

-- One client wrote `1` to the key `b` at times 1 to 2.
abbrev wrote_b : KeySpans
wrote_b = (record { ts_call = 1; ts_resp = 2; value = some (codes "1") } ∷ []) ∷ []

scans_nothing :
    handle_kv_call (Types.KvCall.scan (codes "a") (codes "b")) ((codes "b", codes "1") ∷ [])
    ≡ done (Types.KvResp.scan (codes "a") (codes "b") [], (codes "b", codes "1") ∷ [])
unfolding handle_kv_call BTree.range text_lt
scans_nothing = refl

scan_end-rejected_example :
    check_scan ((codes "b", wrote_b) ∷ []) 3 4 (codes "a") (codes "b") [] ≡ false
scan_end-rejected_example =
    scan_end-rejected ((codes "b", codes "1") ∷ []) (codes "a") (codes "b") []
      ((codes "b", codes "1") ∷ []) 3 4 ((codes "b", wrote_b) ∷ []) wrote_b scans_nothing
      (unfold HashMap.get text_eq in refl)
      (unfold check_get search_key search_back value_matches in refl)

abbrev two_calls : List Call.KvCall
two_calls = put_k1 ∷ Call.KvCall.get (codes "k") ∷ []

two_calls-IsServed : All IsServed two_calls
unfolding is_word is_whitespace to_client
two_calls-IsServed = (((refl, refl), tt, tt), ((refl, tt, tt), tt))

main_loop-session_example :
    (rs : List Types.KvResp) × (s' : State) × AllAnswered [] two_calls rs s'
    × IsSorted s'
    × (main_loop 1 3 (at none (calls_text two_calls ++ (call_line Call.stop ++ [])) [] [])
        ≡ done (at none [] ([] ++ (resps_text rs ++ resp_text Types.KvResp.stop)) s'))
main_loop-session_example = main_loop-session none 0 two_calls [] [] [] two_calls-IsServed tt
