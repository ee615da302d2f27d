-- ===== src/Provider/Wire/Words.antt =====
-- Big-endian words on the wire, of `uint32_t` and `uint64_t` values.
use mem_service.Base.{
  ℕ, ◌+◌, ◌*◌, ◌/◌, ◌%◌, ◌^◌, ◌<◌, ◌≡◌, refl, List, [], ◌∷◌, ◌++◌, arith, length, length-drop, ap,
  ◌≤◌, All, All-drop, drop, drop-drop, append_assoc,
}

-- The four low bytes of a value, highest first; each is the cast `(uint8_t)`.
unfoldable pub put_u32 : ℕ → List ℕ
put_u32 value =
    (value / 2 ^ 24 % 2 ^ 8)
    ∷ (value / 2 ^ 16 % 2 ^ 8)
    ∷ (value / 2 ^ 8 % 2 ^ 8)
    ∷ (value % 2 ^ 8)
    ∷ []

-- The bytes are shifted into places that do not overlap, so `|` is `+`. Less than four bytes are
-- never read.
unfoldable pub get_u32 : List ℕ → ℕ
get_u32 (a ∷ b ∷ c ∷ d ∷ rest) = a * 2 ^ 24 + b * 2 ^ 16 + c * 2 ^ 8 + d
get_u32 _ = 0

unfoldable pub put_u64 : ℕ → List ℕ
put_u64 value = put_u32 (value / 2 ^ 32 % 2 ^ 32) ++ put_u32 (value % 2 ^ 32)

unfoldable pub get_u64 : List ℕ → ℕ
get_u64 wire = get_u32 wire * 2 ^ 32 + get_u32 (drop 4 wire)

pub get_u32-put_u32 :
    (value : ℕ) (rest : List ℕ) → value < 2 ^ 32 → get_u32 (put_u32 value ++ rest) ≡ value
unfolding get_u32 put_u32
get_u32-put_u32 value rest h = omega arith

pub length-put_u32 : (value : ℕ) → length (put_u32 value) ≡ 4
unfolding put_u32
length-put_u32 value = refl

pub length-put_u64 : (value : ℕ) → length (put_u64 value) ≡ 8
unfolding put_u64 put_u32
length-put_u64 value = refl

pub get_u64-put_u64 :
    (value : ℕ) (rest : List ℕ) → value < 2 ^ 64 → get_u64 (put_u64 value ++ rest) ≡ value
unfolding get_u64 put_u64 get_u32 put_u32
get_u64-put_u64 value rest h = omega arith

abbrev pub IsByte : ℕ → Type 0
IsByte b = b < 2 ^ 8

word_bytes :
    (a b c d : ℕ)
    → IsByte a
    → IsByte b
    → IsByte c
    → IsByte d
    → put_u32 (a * 2 ^ 24 + b * 2 ^ 16 + c * 2 ^ 8 + d) ≡ a ∷ b ∷ c ∷ d ∷ []
unfolding put_u32
word_bytes a b c d ha hb hc hd = ground arith

-- A word that was read is written back as the bytes that it was read from.
pub put_u32-get_u32 :
    (wire : List ℕ)
    → 4 ≤ length wire
    → All IsByte wire
    → put_u32 (get_u32 wire) ++ drop 4 wire ≡ wire
unfolding get_u32
put_u32-get_u32 [] h b = absurd (omega arith)
put_u32-get_u32 (w ∷ []) h b = absurd (omega arith)
put_u32-get_u32 (w ∷ x ∷ []) h b = absurd (omega arith)
put_u32-get_u32 (w ∷ x ∷ y ∷ []) h b = absurd (omega arith)
put_u32-get_u32 (w ∷ x ∷ y ∷ z ∷ rest) h b =
    ap (λ s. s ++ rest) (word_bytes w x y z b.0 b.1.0 b.1.1.0 b.1.1.1.0)

pub get_u32_bound : (wire : List ℕ) → All IsByte wire → get_u32 wire < 2 ^ 32
unfolding get_u32
get_u32_bound [] b = omega arith
get_u32_bound (w ∷ []) b = omega arith
get_u32_bound (w ∷ x ∷ []) b = omega arith
get_u32_bound (w ∷ x ∷ y ∷ []) b = omega arith
get_u32_bound (w ∷ x ∷ y ∷ z ∷ rest) b = omega arith

pub put_u64-get_u64 :
    (wire : List ℕ)
    → 8 ≤ length wire
    → All IsByte wire
    → put_u64 (get_u64 wire) ++ drop 8 wire ≡ wire
unfolding put_u64 get_u64
put_u64-get_u64 wire h b =
    let lo = get_u32_bound (drop 4 wire) (All-drop IsByte 4 wire b) in
    let hi = get_u32_bound wire b in
    let top : (get_u32 wire * 2 ^ 32 + get_u32 (drop 4 wire)) / 2 ^ 32 % 2 ^ 32 ≡ get_u32 wire =
      omega arith in
    let bottom : (get_u32 wire * 2 ^ 32 + get_u32 (drop 4 wire)) % 2 ^ 32 ≡ get_u32 (drop 4 wire) =
      omega arith in
    rw
      (
        top,
        bottom,
        append_assoc,
        ← drop-drop 4 4 wire,
        put_u32-get_u32 (drop 4 wire) (omega (arith, length-drop 4 wire))
            (All-drop IsByte 4 wire b),
      )
      (put_u32-get_u32 wire (omega arith) b)
