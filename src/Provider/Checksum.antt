-- ===== src/Provider/Checksum.antt =====
-- mem_service_provider_checksum64 of components/mem_service/mem_service_provider.c: 64-bit FNV-1a.
use mem_service.Base.{
  ℕ, zero, suc, ◌+◌, ◌*◌, ◌%◌, ◌^◌, ◌<◌, ◌≡◌, refl, ◌&&◌, List, [], ◌∷◌, ◌++◌, ◌==◌, ◌!=◌,
  if◌then◌else◌, bit_xor, arith,
}

abbrev pub fnv_offset : ℕ
fnv_offset = 1469598103934665603

abbrev pub fnv_prime : ℕ
fnv_prime = 1099511628211

-- `checksum ^= byte; checksum *= prime;` on a `uint64_t`.
unfoldable pub fnv_step : ℕ → ℕ → ℕ
fnv_step checksum byte = bit_xor checksum byte * fnv_prime % 2 ^ 64

unfoldable pub fnv_from : ℕ → List ℕ → ℕ
fnv_from checksum [] = checksum
fnv_from checksum (b ∷ bs) = fnv_from (fnv_step checksum b) bs

unfoldable pub checksum64 : List ℕ → ℕ
checksum64 bytes = fnv_from fnv_offset bytes

-- The `len` bytes of memory from an address on.
unfoldable pub read_bytes : (ℕ → ℕ) → ℕ → ℕ → List ℕ
read_bytes memory address zero = []
read_bytes memory address (suc len) = memory address ∷ read_bytes memory (address + 1) len

-- The checksum of `len` bytes at a pointer, which is NULL at 0.
unfoldable pub checksum64_at : (ℕ → ℕ) → ℕ → ℕ → ℕ
checksum64_at memory address len =
    if address == 0 && len != 0 then 0 else checksum64 (read_bytes memory address len)

fnv_from-append :
    (checksum : ℕ) (xs ys : List ℕ)
    → fnv_from checksum (xs ++ ys) ≡ fnv_from (fnv_from checksum xs) ys
unfolding fnv_from
fnv_from-append checksum [] ys = refl
fnv_from-append checksum (x ∷ xs) ys = fnv_from-append (fnv_step checksum x) xs ys

fnv_from_bound : (checksum : ℕ) (bs : List ℕ) → checksum < 2 ^ 64 → fnv_from checksum bs < 2 ^ 64
unfolding fnv_from fnv_step
fnv_from_bound checksum [] h = h
fnv_from_bound checksum (b ∷ bs) h = fnv_from_bound (fnv_step checksum b) bs (omega arith)

-- A checksum is a `uint64_t`, and that of a range is that of its first part, continued over the rest.
pub checksum64_streams :
    (xs ys : List ℕ)
    → (checksum64 (xs ++ ys) ≡ fnv_from (checksum64 xs) ys) × (checksum64 (xs ++ ys) < 2 ^ 64)
unfolding checksum64
checksum64_streams xs ys =
    (fnv_from-append fnv_offset xs ys, fnv_from_bound fnv_offset (xs ++ ys) (omega arith))
