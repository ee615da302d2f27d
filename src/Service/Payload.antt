-- ===== src/Service/Payload.antt =====
-- Payloads: lines `name=value`. components/mem_service/mem_service_wire_payload.h, and the readers of
-- mem_service_daemon.c. A reader answers the text that it writes to `out`; `none` is false.
pub mod Fields
pub mod Values
use mem_service.Base.{
  ℕ, zero, suc, ◌+◌, ◌-◌, ◌*◌, ◌%◌, ◌^◌, Bool, true, false, not, ◌&&◌, ◌||◌, Option, none, some,
  List, [], ◌∷◌, ◌++◌, ltb, leb, ◌==◌, if◌then◌else◌, length, take, drop, get_elem?, bit_xor,
}
use mem_service.Base.Text.{Text, c_str, text_eq, strcmp_eq, codes}

-- The lines of a text: what stands before each newline, and what stands after the last.
unfoldable pub cons_line : ℕ → List Text → List Text
cons_line c [] = (c ∷ []) ∷ []
cons_line c (l ∷ ls) = (c ∷ l) ∷ ls

unfoldable pub lines : Text → List Text
lines [] = [] ∷ []
lines (c ∷ cs) = if c == b'\n' then [] ∷ lines cs else cons_line c (lines cs)

unfoldable pub byte_is : Option ℕ → ℕ → Bool
byte_is none c = false
byte_is (some d) c = d == c

-- `line_len > name_len && strncmp(cursor, name, name_len) == 0 && cursor[name_len] == '='`
abbrev pub names_field : Text → Text → Bool
names_field name line =
    text_eq (take (length name) line) name && byte_is (get_elem? line (length name)) b'='

abbrev pub non_empty : Text → Option Text
non_empty [] = none
non_empty (c ∷ cs) = some (c ∷ cs)

abbrev pub value_of : Text → ℕ → Text → Option Text
value_of name out_len line = non_empty (take (out_len - 1) (drop (length name + 1) line))

unfoldable pub first_value : Text → ℕ → List Text → Option Text
first_value name out_len [] = none
first_value name out_len (l ∷ ls) =
    let rest = first_value name out_len ls in
    if names_field name l then value_of name out_len l else rest

unfoldable pub wire_payload_get_string : Text → Text → ℕ → Option Text
wire_payload_get_string payload name out_len =
    if out_len == 0 then none else first_value (c_str name) out_len (lines (c_str payload))

unfoldable pub payload_get_string : Text → Text → ℕ → Option Text
payload_get_string payload name out_len = wire_payload_get_string payload name out_len

unfoldable pub has_byte : ℕ → Text → Bool
has_byte c [] = false
has_byte c (d ∷ ds) = d == c || has_byte c ds

-- The header of a payload ends at the first line that is no field.
unfoldable pub first_header_value : Text → ℕ → List Text → Option Text
first_header_value name out_len [] = none
first_header_value name out_len (l ∷ ls) =
    let rest = first_header_value name out_len ls in
    if not (has_byte b'=' l)
    then none
    else if names_field name l && not (has_byte b'=' name)
    then value_of name out_len l
    else rest

unfoldable pub payload_get_header_string : Text → Text → ℕ → Option Text
payload_get_header_string payload name out_len =
    if out_len == 0 then none else first_header_value (c_str name) out_len (lines (c_str payload))

-- `none` is -1; the payload is then to be thrown away.
unfoldable pub wire_payload_append_field : Text → ℕ → Text → Text → Option Text
wire_payload_append_field payload payload_len name value =
    let text = c_str payload ++ (c_str name ++ (b'=' ∷ (c_str value ++ (b'\n' ∷ [])))) in
    if payload_len == 0
    then none
    else if length (c_str value) == 0
    then some (c_str payload)
    else if leb payload_len (length text)
    then none
    else some text

-- FNV-1a of 32 bits, and 0 for no bytes.
unfoldable pub fnv32_from : ℕ → List ℕ → ℕ
fnv32_from hash [] = hash
fnv32_from hash (b ∷ bs) = fnv32_from (bit_xor hash b * 16777619 % 2 ^ 32) bs

unfoldable pub wire_checksum : List ℕ → ℕ
wire_checksum [] = 0
wire_checksum (b ∷ bs) = fnv32_from 2166136261 (b ∷ bs)
