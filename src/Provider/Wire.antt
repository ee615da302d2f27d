-- ===== src/Provider/Wire.antt =====
-- The wire form of a remote region in components/mem_service/mem_service_provider.c: a header of
-- 32 bytes in big-endian words, the provider's name, the descriptor. The bytes that `encode` writes
-- and `decode` reads are a list; `none` is the return code -1.
pub mod Words
pub mod RoundTrip
pub mod Reencode
use mem_service.Base.{
  ℕ, ◌+◌, ◌-◌, ◌*◌, ◌/◌, ◌%◌, ◌^◌, Bool, true, false, not, Option, none, some, List, [], ◌∷◌, ◌++◌,
  ltb, leb, ◌==◌, ◌!=◌, if◌then◌else◌, any_of, length, take, drop, replicate,
}
use mem_service.Base.Text.{Text, c_str, strlen, padded}
use mem_service.Provider.Types.{
  Descriptor, RemoteRegion, memory_kind_valid, provider_name_len, provider_descriptor_len,
  region_wire_version, region_wire_max_len,
}
use mem_service.Provider.Registry.{identity_text_valid}
use Words.{put_u32, put_u64, get_u32, get_u64}

abbrev pub region_wire_magic : ℕ
region_wire_magic = 0x4d535250

abbrev pub header_len : ℕ
header_len = 32

abbrev pub encode_conditions : RemoteRegion → List Bool
encode_conditions remote =
    not (identity_text_valid remote.provider_name provider_name_len)
    ∷ (remote.len == 0)
    ∷ not (memory_kind_valid remote.memory_kind)
    ∷ (remote.descriptor.len == 0)
    ∷ ltb provider_descriptor_len remote.descriptor.len
    ∷ []

abbrev pub wire_len : RemoteRegion → ℕ
wire_len remote = header_len + strlen remote.provider_name + remote.descriptor.len

abbrev pub encode_bounds : RemoteRegion → ℕ → List Bool
encode_bounds remote wire_capacity =
    ltb wire_capacity (wire_len remote) ∷ ltb region_wire_max_len (wire_len remote) ∷ []

-- The header: bytes 20 to 23 stay 0.
abbrev pub header : ℕ → ℕ → ℕ → ℕ → List ℕ
header provider_len descriptor_len memory_kind region_len =
    put_u32 region_wire_magic
    ++ (put_u32 region_wire_version
        ++ (put_u32 provider_len
            ++ (put_u32 descriptor_len
                ++ (put_u32 memory_kind ++ (replicate 4 0 ++ put_u64 region_len)))))

-- The bytes written, whose number is `*wire_len_out`.
unfoldable pub encode : RemoteRegion → ℕ → Option (List ℕ)
encode remote wire_capacity =
    let provider_len = strlen remote.provider_name in
    if any_of (encode_conditions remote)
    then none
    else if any_of (encode_bounds remote wire_capacity)
    then none
    else some (
        header (provider_len % 2 ^ 32) remote.descriptor.len (remote.memory_kind % 2 ^ 32)
          remote.len
        ++ (c_str remote.provider_name ++ take remote.descriptor.len remote.descriptor.bytes))

abbrev pub frame_conditions : List ℕ → List Bool
frame_conditions wire =
    ltb (length wire) header_len
    ∷ ltb region_wire_max_len (length wire)
    ∷ (get_u32 wire != region_wire_magic)
    ∷ (get_u32 (drop 4 wire) != region_wire_version)
    ∷ (get_u32 (drop 20 wire) != 0)
    ∷ []

abbrev pub field_conditions : List ℕ → List Bool
field_conditions wire =
    let provider_len = get_u32 (drop 8 wire) in
    let descriptor_len = get_u32 (drop 12 wire) in
    (provider_len == 0)
    ∷ leb provider_name_len provider_len
    ∷ (descriptor_len == 0)
    ∷ ltb provider_descriptor_len descriptor_len
    ∷ (header_len + provider_len + descriptor_len != length wire)
    ∷ (get_u64 (drop 24 wire) == 0)
    ∷ not (memory_kind_valid (get_u32 (drop 16 wire)))
    ∷ []

-- The region that `decode` builds: the arrays are zeroed, and their fronts copied from the wire.
unfoldable pub decoded : List ℕ → RemoteRegion
decoded wire =
    let provider_len = get_u32 (drop 8 wire) in
    let descriptor_len = get_u32 (drop 12 wire) in
    record {
      provider_name = padded provider_name_len (take provider_len (drop header_len wire));
      len = get_u64 (drop 24 wire);
      memory_kind = get_u32 (drop 16 wire);
      descriptor = record {
        len = descriptor_len;
        bytes =
            padded provider_descriptor_len
              (take descriptor_len (drop provider_len (drop header_len wire)));
      };
    }

unfoldable pub decode : List ℕ → Option RemoteRegion
decode wire =
    if any_of (frame_conditions wire)
    then none
    else if any_of (field_conditions wire)
    then none
    else if identity_text_valid (decoded wire).provider_name provider_name_len
    then some (decoded wire)
    else none
