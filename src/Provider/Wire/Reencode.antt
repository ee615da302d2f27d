-- ===== src/Provider/Wire/Reencode.antt =====
-- Writing back what was read: `decode` accepts the wire forms that `encode` writes, and no other,
-- but for a NUL inside the name.
use mem_service.Base.{
  ℕ, ◌+◌, ◌%◌, ◌^◌, ◌<◌, ◌≤◌, ◌≡◌, ◌≢◌, refl, sym, subst, ap, ◌∙◌, true, some, List, ◌++◌, any_of,
  any_of-AllFalse, AllFalse-any_of, AllFalse, guard-some, test-some, length, take, drop, replicate,
  All, All-drop, arith, length-take, length-drop, append_assoc, drop-drop, take-append_exact,
  take-append-drop, take_all,
}
use mem_service.Base.Text.{c_str, strlen, NoNul, c_str-append_zeroes}
use mem_service.Provider.Types.{
  RemoteRegion, memory_kind_valid, provider_name_len, provider_descriptor_len, region_wire_version,
  region_wire_max_len,
}
use mem_service.Provider.Registry.{identity_text_valid}
use mem_service.Provider.Wire.Words.{
  put_u32, put_u64, get_u32, get_u64, IsByte, put_u32-get_u32, put_u64-get_u64, get_u32_bound,
}
use mem_service.Provider.Wire.{
  region_wire_magic, header_len, encode_conditions, encode_bounds, header, encode, frame_conditions,
  field_conditions, decoded, decode,
}

abbrev name_len : List ℕ → ℕ
name_len wire = get_u32 (drop 8 wire)

abbrev desc_len : List ℕ → ℕ
desc_len wire = get_u32 (drop 12 wire)

-- The bytes of the wire that hold the provider's name.
abbrev pub name_bytes : List ℕ → List ℕ
name_bytes wire = take (name_len wire) (drop header_len wire)

abbrev desc_bytes : List ℕ → List ℕ
desc_bytes wire = take (desc_len wire) (drop (name_len wire) (drop header_len wire))

-- What `decode` has checked of a wire that it accepts.
record Accepted (wire : List ℕ) (remote : RemoteRegion) : Type 0 where
  long_enough : header_len ≤ length wire
  short_enough : length wire ≤ region_wire_max_len
  magic : get_u32 wire ≡ region_wire_magic
  version : get_u32 (drop 4 wire) ≡ region_wire_version
  reserved : get_u32 (drop 20 wire) ≡ 0
  named : name_len wire ≢ 0
  name_fits : name_len wire < provider_name_len
  described : desc_len wire ≢ 0
  descriptor_fits : desc_len wire ≤ provider_descriptor_len
  exact : header_len + name_len wire + desc_len wire ≡ length wire
  some_bytes : get_u64 (drop 24 wire) ≢ 0
  kind_valid : memory_kind_valid (get_u32 (drop 16 wire)) ≡ true
  name_valid : identity_text_valid (decoded wire).provider_name provider_name_len ≡ true
  result : remote ≡ decoded wire

decode-some :
    (wire : List ℕ) {remote : RemoteRegion} → decode wire ≡ some remote → Accepted wire remote
unfolding decode
decode-some wire h =
    let (frame, h') = guard-some (any_of (frame_conditions wire)) _ h in
    let (fields, h'') = guard-some (any_of (field_conditions wire)) _ h' in
    let (valid, built) =
      test-some (identity_text_valid (decoded wire).provider_name provider_name_len) _ h'' in
    let c = any_of-AllFalse (frame_conditions wire) frame in
    let d = any_of-AllFalse (field_conditions wire) fields in
    record {
      long_enough = ground arith;
      short_enough = ground arith;
      magic = ground arith;
      version = ground arith;
      reserved = ground arith;
      named = ground arith;
      name_fits = ground arith;
      described = ground arith;
      descriptor_fits = ground arith;
      exact = ground arith;
      some_bytes = ground arith;
      kind_valid = ground arith;
      name_valid = valid;
      result = cc built;
    }

-- The word at `k`, as bytes, in front of what follows it.
word_at :
    (k : ℕ) (wire : List ℕ)
    → k + 4 ≤ length wire
    → All IsByte wire
    → put_u32 (get_u32 (drop k wire)) ++ drop (k + 4) wire ≡ drop k wire
word_at k wire h b =
    rw (← drop-drop 4 k wire)
      (put_u32-get_u32 (drop k wire) (omega (arith, length-drop k wire)) (All-drop IsByte k wire b))

header_regroup :
    (a b c d : ℕ) (rest : List ℕ)
    → header a b c d ++ rest
      ≡ put_u32 region_wire_magic
        ++ (put_u32 region_wire_version
            ++ (put_u32 a ++ (put_u32 b ++ (put_u32 c ++ (replicate 4 0 ++ (put_u64 d ++ rest))))))
header_regroup a b c d rest = simp append_assoc

header_read :
    (wire : List ℕ)
    → header_len ≤ length wire
    → All IsByte wire
    → get_u32 wire ≡ region_wire_magic
    → get_u32 (drop 4 wire) ≡ region_wire_version
    → get_u32 (drop 20 wire) ≡ 0
    → header (name_len wire) (desc_len wire) (get_u32 (drop 16 wire)) (get_u64 (drop 24 wire))
        ++ drop header_len wire
      ≡ wire
header_read wire h b m v r =
    let region : put_u64 (get_u64 (drop 24 wire)) ++ drop 32 wire ≡ drop 24 wire =
      rw (← drop-drop 8 24 wire) (
        put_u64-get_u64 (drop 24 wire) (omega (arith, length-drop 24 wire))
          (All-drop IsByte 24 wire b)) in
    let zeroes : replicate 4 0 ++ drop 24 wire ≡ drop 20 wire =
      zero_word ∙ rw r at (word_at 20 wire (omega arith) b) in
    rw
      (
        header_regroup (name_len wire) (desc_len wire) (get_u32 (drop 16 wire))
            (get_u64 (drop 24 wire)) (drop 32 wire),
        region,
        zeroes,
        word_at 16 wire (omega arith) b,
        word_at 12 wire (omega arith) b,
        word_at 8 wire (omega arith) b,
        ← m,
        ← v,
        word_at 4 wire (omega arith) b,
      )
      (put_u32-get_u32 wire (omega arith) b)
  where
    zero_word : replicate 4 0 ++ drop 24 wire ≡ put_u32 0 ++ drop 24 wire
    zero_word = unfold put_u32 in refl

payload_read :
    (wire : List ℕ)
    → header_len + name_len wire + desc_len wire ≡ length wire
    → name_bytes wire ++ desc_bytes wire ≡ drop header_len wire
payload_read wire h =
    let body = drop header_len wire in
    rw
      (take_all (desc_len wire) (drop (name_len wire) body)
        (omega (arith, length-drop (name_len wire) body, length-drop header_len wire)))
      (take-append-drop (name_len wire) body)

decoded_name :
    (wire : List ℕ) → NoNul (name_bytes wire) → c_str (decoded wire).provider_name ≡ name_bytes wire
unfolding decoded
decoded_name wire h = c_str-append_zeroes (name_bytes wire) _ h

decoded_descriptor :
    (wire : List ℕ)
    → header_len + name_len wire + desc_len wire ≡ length wire
    → take (desc_len wire) (decoded wire).descriptor.bytes ≡ desc_bytes wire
unfolding decoded
decoded_descriptor wire h = take-append_exact (desc_len wire) (desc_bytes wire) _ (
    length-take (desc_len wire) (drop (name_len wire) (drop header_len wire)) (
      omega
        (arith, length-drop (name_len wire) (drop header_len wire), length-drop header_len wire)))

encode_conditions-decoded :
    (wire : List ℕ) {remote : RemoteRegion}
    → Accepted wire remote
    → AllFalse (encode_conditions (decoded wire))
unfolding decoded
encode_conditions-decoded wire a =
    let valid = a.name_valid in
    let kind = a.kind_valid in
    (ground arith, (ground arith, (ground arith, (ground arith, (ground arith, tt)))))

encode_passed :
    (remote : RemoteRegion) (capacity : ℕ)
    → AllFalse (encode_conditions remote)
    → AllFalse (encode_bounds remote capacity)
    → encode remote capacity
      ≡ some (
          header
            (strlen remote.provider_name % 2 ^ 32)
            remote.descriptor.len
            (remote.memory_kind % 2 ^ 32)
            remote.len
          ++ (c_str remote.provider_name ++ take remote.descriptor.len remote.descriptor.bytes))
unfolding encode
encode_passed remote capacity c b = rw (
  AllFalse-any_of (encode_conditions remote) c,
  AllFalse-any_of (encode_bounds remote capacity) b,
)

strlen-decoded :
    (wire : List ℕ) {remote : RemoteRegion}
    → Accepted wire remote
    → NoNul (name_bytes wire)
    → strlen (decoded wire).provider_name ≡ name_len wire
strlen-decoded wire a no_nul =
    ap length (decoded_name wire no_nul)
    ∙ length-take (name_len wire) (drop header_len wire)
        (omega (arith, a.exact, length-drop header_len wire))

encode_bounds-decoded :
    (wire : List ℕ) {remote : RemoteRegion}
    → Accepted wire remote
    → strlen (decoded wire).provider_name ≡ name_len wire
    → AllFalse (encode_bounds (decoded wire) (length wire))
unfolding decoded
encode_bounds-decoded wire a e = rw e (ground arith, (ground arith, tt))

written_decoded :
    (wire : List ℕ) {remote : RemoteRegion}
    → Accepted wire remote
    → All IsByte wire
    → NoNul (name_bytes wire)
    → header
          (strlen (decoded wire).provider_name % 2 ^ 32)
          (decoded wire).descriptor.len
          ((decoded wire).memory_kind % 2 ^ 32)
          (decoded wire).len
        ++ (c_str (decoded wire).provider_name
            ++ take (decoded wire).descriptor.len (decoded wire).descriptor.bytes)
      ≡ wire
unfolding decoded
written_decoded wire a bytes no_nul =
    rw (strlen-decoded wire a no_nul, decoded_name wire no_nul, small, kind)
      (rw (decoded_descriptor wire a.exact, payload_read wire a.exact)
        (header_read wire a.long_enough bytes a.magic a.version a.reserved))
  where
    small : name_len wire % 2 ^ 32 ≡ name_len wire
    small = omega (arith, a.name_fits)

    kind : get_u32 (drop 16 wire) % 2 ^ 32 ≡ get_u32 (drop 16 wire)
    kind = omega (arith, get_u32_bound (drop 16 wire) (All-drop IsByte 16 wire bytes))

-- A wire of bytes that `decode` accepts, with no NUL among the bytes of the name, is what `encode`
-- writes for the region that was read, given room for it.
pub encode-decode :
    (wire : List ℕ) {remote : RemoteRegion}
    → All IsByte wire
    → NoNul (name_bytes wire)
    → decode wire ≡ some remote
    → encode remote (length wire) ≡ some wire
encode-decode wire bytes no_nul h =
    let a = decode-some wire h in
    subst (λ r. encode r (length wire) ≡ some wire) (sym a.result)
      (encode_passed (decoded wire) (length wire) (encode_conditions-decoded wire a)
          (encode_bounds-decoded wire a (strlen-decoded wire a no_nul))
        ∙ ap some (written_decoded wire a bytes no_nul))
