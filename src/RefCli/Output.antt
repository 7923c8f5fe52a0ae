-- ===== src/RefCli/Output.antt =====
-- How refcli/src/main.rs writes a response.
use madkv.Prelude.{◌∷◌, [], ◌++◌, Bool, Option, none, some, List, if◌then◌else◌}
use madkv.Prelude.Results.{Result, ok, and_then}
use madkv.Text.{Text, codes}
use madkv.Io.{Writer, write_line}
use madkv.RefCli.Types.{KvResp, put, swap, get, scan, delete, stop, IoError}
use madkv.RefCli.Input.{from_io}

abbrev line_with : Text → Text → Text → Text
line_with word key value = word ++ (32 ∷ key ++ (32 ∷ value ++ (10 ∷ [])))

abbrev pub found_word : Bool → Text
found_word found = if found then codes "found" else codes "not_found"

abbrev pub value_or_null : Option Text → Text
value_or_null none = codes "null"
value_or_null (some value) = value

-- The loop over the entries of a SCAN response, with a `writeln!` for each.
unfoldable pub write_entries : List (Text × Text) → Writer → Result IoError Writer
write_entries [] stdout = ok stdout
write_entries ((k, v) ∷ entries) stdout =
    and_then (from_io (write_line stdout (32 ∷ 32 ∷ k ++ (32 ∷ v ++ (10 ∷ [])))))
      λ stdout'. write_entries entries stdout'

unfoldable pub write_response : KvResp → Writer → Result IoError Writer
unfolding write_entries
write_response (put key found) stdout =
    from_io (write_line stdout (line_with (codes "PUT") key (found_word found)))
write_response (swap key old_value) stdout =
    from_io (write_line stdout (line_with (codes "SWAP") key (value_or_null old_value)))
write_response (get key value) stdout =
    from_io (write_line stdout (line_with (codes "GET") key (value_or_null value)))
write_response (scan key_start key_end entries) stdout =
    and_then
      (from_io (
        write_line stdout (codes "SCAN" ++ (32 ∷ key_start ++ (32 ∷ key_end ++ codes " BEGIN\n")))))
      λ begun.
        and_then (write_entries entries begun)
          λ listed. from_io (write_line listed (codes "SCAN END\n"))
write_response (delete key found) stdout =
    from_io (write_line stdout (line_with (codes "DELETE") key (found_word found)))
write_response stop stdout = from_io (write_line stdout (codes "STOP\n"))
