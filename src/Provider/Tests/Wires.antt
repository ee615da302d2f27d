-- ===== src/Provider/Tests/Wires.antt =====
-- The theorems of the wire form and of the checksum at a region of the tests.
use mem_service.Base.{ℕ, ◌≡◌, refl, some, List, [], ◌∷◌, All, length, arith}
use mem_service.Base.Text.{c_str, NoNul}
use mem_service.Provider.Types.{memory_kind_valid}
use mem_service.Provider.Registry.{identity_char, identity_chars, identity_text_valid}
use mem_service.Provider.Wire.{encode, decode, decoded}
use mem_service.Provider.Wire.Words.{IsByte, put_u32, put_u64, get_u32, get_u64}
use mem_service.Provider.Wire.RoundTrip.{canonical, decode-encode}
use mem_service.Provider.Wire.Reencode.{name_bytes, encode-decode}
use mem_service.Provider.Tests.{test_remote}

-- The header, "shm", the two bytes of the descriptor.
abbrev test_wire : List ℕ
test_wire =
    77 ∷ 83 ∷ 82 ∷ 80 ∷ 0 ∷ 0 ∷ 0 ∷ 1 ∷ 0 ∷ 0 ∷ 0 ∷ 3 ∷ 0 ∷ 0 ∷ 0 ∷ 2 ∷ 0 ∷ 0 ∷ 0 ∷ 1 ∷ 0 ∷ 0 ∷ 0
    ∷ 0 ∷ 0 ∷ 0 ∷ 0 ∷ 0 ∷ 0 ∷ 0 ∷ 0 ∷ 64 ∷ b's' ∷ b'h' ∷ b'm' ∷ 8 ∷ 9 ∷ []

encoded : encode test_remote 192 ≡ some test_wire
unfolding encode identity_text_valid identity_chars identity_char c_str memory_kind_valid put_u32
    put_u64
encoded = refl

decode-encode_example : decode test_wire ≡ some (canonical test_remote)
decode-encode_example = decode-encode test_remote 192 (omega arith) refl encoded

read_back : decode test_wire ≡ some test_remote
unfolding decode decoded identity_text_valid identity_chars identity_char c_str memory_kind_valid
    get_u32 get_u64
read_back = refl

test_wire-IsByte : All IsByte test_wire
test_wire-IsByte = ground arith

test_wire-NoNul : NoNul (name_bytes test_wire)
unfolding get_u32
test_wire-NoNul = ground arith

encode-decode_example : encode test_remote (length test_wire) ≡ some test_wire
encode-decode_example = encode-decode test_wire test_wire-IsByte test_wire-NoNul read_back
