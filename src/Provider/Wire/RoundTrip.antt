-- ===== src/Provider/Wire/RoundTrip.antt =====
-- Reading back what was written.
use mem_service.Base.{
  ℕ, ◌+◌, ◌-◌, ◌%◌, ◌^◌, ◌<◌, ◌≤◌, ◌≡◌, ◌≢◌, refl, sym, subst, ap, ◌∙◌, true, some, List, ◌++◌,
  any_of, any_of-AllFalse, AllFalse-any_of, AllFalse, length, take, drop, arith, guard-some,
  length-append, length-take, length-take-le, take-append_exact, drop-append_exact, take_all,
}
use mem_service.Base.Text.{Text, c_str, strlen, padded, c_str-append_zeroes, c_str-NoNul}
use mem_service.Provider.Types.{
  RemoteRegion, memory_kind_valid, provider_name_len, provider_descriptor_len, region_wire_version,
}
use mem_service.Provider.Registry.{identity_text_valid}
use mem_service.Provider.Wire.Words.{put_u32, put_u64, get_u32, get_u64}
use mem_service.Provider.Wire.{
  region_wire_magic, header_len, encode_conditions, encode_bounds, header, encode, frame_conditions,
  field_conditions, decoded, decode,
}

-- The five fields of a header, and what follows it.
pub record HeaderFields (wire : List ℕ) (a b c d : ℕ) (payload : List ℕ) : Type 0 where
  pub magic : get_u32 wire ≡ region_wire_magic
  pub version : get_u32 (drop 4 wire) ≡ region_wire_version
  pub provider_len : get_u32 (drop 8 wire) ≡ a
  pub descriptor_len : get_u32 (drop 12 wire) ≡ b
  pub memory_kind : get_u32 (drop 16 wire) ≡ c
  pub reserved : get_u32 (drop 20 wire) ≡ 0
  pub region_len : get_u64 (drop 24 wire) ≡ d
  pub rest : drop header_len wire ≡ payload
  pub total : length wire ≡ header_len + length payload

header-HeaderFields :
    (a b c d : ℕ) (payload : List ℕ)
    → a < 2 ^ 32
    → b < 2 ^ 32
    → c < 2 ^ 32
    → d < 2 ^ 64
    → HeaderFields (header a b c d ++ payload) a b c d payload
unfolding put_u32 put_u64 get_u32 get_u64
header-HeaderFields a b c d payload ha hb hc hd = record {
  magic = refl;
  version = refl;
  provider_len = omega arith;
  descriptor_len = omega arith;
  memory_kind = omega arith;
  reserved = refl;
  region_len = omega arith;
  rest = refl;
  total = omega arith;
}

-- The region as its wire form keeps it: the arrays hold zeroes behind the name and the descriptor.
unfoldable pub canonical : RemoteRegion → RemoteRegion
canonical remote = record remote {
  provider_name = padded provider_name_len (c_str remote.provider_name);
  descriptor = record {
    len = remote.descriptor.len;
    bytes = padded provider_descriptor_len (take remote.descriptor.len remote.descriptor.bytes);
  };
}

-- What `encode` checks of a region.
pub record Encodable (remote : RemoteRegion) : Type 0 where
  pub name_valid : identity_text_valid remote.provider_name provider_name_len ≡ true
  pub some_bytes : remote.len ≢ 0
  pub kind_valid : memory_kind_valid remote.memory_kind ≡ true
  pub described : remote.descriptor.len ≢ 0
  pub descriptor_fits : remote.descriptor.len ≤ provider_descriptor_len

payload : RemoteRegion → List ℕ
payload remote = c_str remote.provider_name ++ take remote.descriptor.len remote.descriptor.bytes

encode-some :
    (remote : RemoteRegion) (capacity : ℕ) {wire : List ℕ}
    → encode remote capacity ≡ some wire
    → Encodable remote
      × (wire
          ≡ header
              (strlen remote.provider_name % 2 ^ 32)
              remote.descriptor.len
              (remote.memory_kind % 2 ^ 32)
              remote.len
            ++ payload remote)
unfolding encode payload
encode-some remote capacity h =
    let (good, h') = guard-some (any_of (encode_conditions remote)) _ h in
    let (_, written) = guard-some (any_of (encode_bounds remote capacity)) _ h' in
    let c = any_of-AllFalse (encode_conditions remote) good in
    (
      record {
        name_valid = ground arith;
        some_bytes = ground arith;
        kind_valid = ground arith;
        described = ground arith;
        descriptor_fits = ground arith;
      },
      cc written,
    )

decode_passed :
    (wire : List ℕ)
    → AllFalse (frame_conditions wire)
    → AllFalse (field_conditions wire)
    → identity_text_valid (decoded wire).provider_name provider_name_len ≡ true
    → decode wire ≡ some (decoded wire)
unfolding decode
decode_passed wire frame fields valid = rw (
  AllFalse-any_of (frame_conditions wire) frame,
  AllFalse-any_of (field_conditions wire) fields,
  valid,
)

strlen_valid : (s : Text) (n : ℕ) → identity_text_valid s n ≡ true → (strlen s < n) × (0 < strlen s)
unfolding identity_text_valid
strlen_valid s n h = (ground arith, ground arith)

kind_bound : (k : ℕ) → memory_kind_valid k ≡ true → k < 4
unfolding memory_kind_valid
kind_bound k h = ground arith

canonical_name_valid :
    (remote : RemoteRegion)
    → identity_text_valid remote.provider_name provider_name_len ≡ true
    → identity_text_valid (canonical remote).provider_name provider_name_len ≡ true
unfolding identity_text_valid canonical
canonical_name_valid remote h =
    rw
      (c_str-append_zeroes (c_str remote.provider_name)
        (provider_name_len - length (c_str remote.provider_name))
        (c_str-NoNul remote.provider_name))
      h

abbrev Fields : RemoteRegion → List ℕ → Type 0
Fields remote wire =
    HeaderFields wire (strlen remote.provider_name) remote.descriptor.len remote.memory_kind
      remote.len (payload remote)

decoded-canonical :
    (remote : RemoteRegion) (wire : List ℕ)
    → remote.descriptor.len ≤ length remote.descriptor.bytes
    → Fields remote wire
    → decoded wire ≡ canonical remote
unfolding decoded canonical payload
decoded-canonical remote wire full f = rw (
  f.provider_len,
  f.descriptor_len,
  f.memory_kind,
  f.region_len,
  f.rest,
  take-append_exact (strlen remote.provider_name) (c_str remote.provider_name)
      (take remote.descriptor.len remote.descriptor.bytes) refl,
  drop-append_exact (strlen remote.provider_name) (c_str remote.provider_name)
      (take remote.descriptor.len remote.descriptor.bytes) refl,
  take_all remote.descriptor.len (take remote.descriptor.len remote.descriptor.bytes)
      (length-take-le remote.descriptor.len remote.descriptor.bytes),
)

length-payload :
    (remote : RemoteRegion)
    → remote.descriptor.len ≤ length remote.descriptor.bytes
    → length (payload remote) ≡ strlen remote.provider_name + remote.descriptor.len
unfolding payload
length-payload remote full = omega (
  arith,
  length-append (c_str remote.provider_name) (take remote.descriptor.len remote.descriptor.bytes),
  length-take remote.descriptor.len remote.descriptor.bytes full,
)

frame_accepted :
    (remote : RemoteRegion) (wire : List ℕ)
    → Encodable remote
    → remote.descriptor.len ≤ length remote.descriptor.bytes
    → Fields remote wire
    → AllFalse (frame_conditions wire)
frame_accepted remote wire e full f =
    let size = length-payload remote full in
    let (short, named) = strlen_valid remote.provider_name provider_name_len e.name_valid in
    (ground arith, (ground arith, (ground arith, (ground arith, (ground arith, tt)))))

Fields-accepted :
    (remote : RemoteRegion) (wire : List ℕ)
    → Encodable remote
    → remote.descriptor.len ≤ length remote.descriptor.bytes
    → Fields remote wire
    → AllFalse (field_conditions wire)
Fields-accepted remote wire e full f =
    let size = length-payload remote full in
    let (short, named) = strlen_valid remote.provider_name provider_name_len e.name_valid in
    rw (f.provider_len, f.descriptor_len, f.memory_kind, f.region_len, e.kind_valid)
      (
        ground arith,
        (
          ground arith,
          (ground arith, (ground arith, (ground arith, (ground arith, (ground arith, tt))))),
        ),
      )

-- Whatever `encode` wrote, `decode` reads back as the region in canonical form: its name up to the
-- NUL, its length, its kind, and the descriptor's bytes that count. The region's length is a
-- `uint64_t`, and its descriptor's bytes are the whole array.
pub decode-encode :
    (remote : RemoteRegion) (capacity : ℕ) {wire : List ℕ}
    → remote.len < 2 ^ 64
    → length remote.descriptor.bytes ≡ provider_descriptor_len
    → encode remote capacity ≡ some wire
    → decode wire ≡ some (canonical remote)
decode-encode remote capacity small full h =
    let (e, written) = encode-some remote capacity h in
    let (short, named) = strlen_valid remote.provider_name provider_name_len e.name_valid in
    let kind = kind_bound remote.memory_kind e.kind_valid in
    let fits : remote.descriptor.len ≤ length remote.descriptor.bytes =
      omega (arith, e.descriptor_fits) in
    let name_word : strlen remote.provider_name % 2 ^ 32 ≡ strlen remote.provider_name =
      omega arith in
    let kind_word : remote.memory_kind % 2 ^ 32 ≡ remote.memory_kind = omega arith in
    let fields =
      header-HeaderFields (strlen remote.provider_name) remote.descriptor.len remote.memory_kind
        remote.len (payload remote) (omega arith) (omega (arith, e.descriptor_fits)) (omega arith)
        small in
    let f : Fields remote _ =
      subst (Fields remote) (sym (rw (name_word, kind_word) at written)) fields in
    let same = decoded-canonical remote _ fits f in
    decode_passed _ (frame_accepted remote _ e fits f) (Fields-accepted remote _ e fits f)
      (rw same (canonical_name_valid remote e.name_valid))
    ∙ ap some same
