-- ===== src/Service/Keys/Fits.antt =====
-- The guard of mem_service_build_two_part_key against the sizes that it computes with.
use mem_service.Base.{
  ℕ, ◌+◌, ◌≤◌, ◌≡◌, ◌≢◌, true, none, some, ◌++◌, if◌then◌else◌, Bool-cases, inl, inr, refl, ltb,
  leb, any_of, arith,
}
use mem_service.Base.Text.{Text, strlen, c_str}
use mem_service.Service.Keys.{size_max, two_part_key_refused, build_two_part_key}

-- On sizes the guard is a comparison of the sum without wrapping.
two_part_key_refused_iff :
    (prefix_len first_len middle_len second_len out_len : ℕ)
    → prefix_len ≤ size_max
    → first_len ≤ size_max
    → middle_len ≤ size_max
    → second_len ≤ size_max
    → out_len ≤ size_max
    → prefix_len + first_len + middle_len + second_len ≢ size_max
    → any_of (two_part_key_refused prefix_len first_len middle_len second_len out_len)
      ≡ leb out_len (prefix_len + first_len + middle_len + second_len)
two_part_key_refused_iff prefix_len first_len middle_len second_len out_len p f m s o n =
    ground arith

-- For texts whose lengths are sizes, and add up to another size than the greatest, the guard, whose
-- sums may wrap, refuses exactly the keys that do not fit the array with their NUL. A key that it lets
-- through is copied whole: no copy leaves the array.
pub build_two_part_key_lem :
    (prefix first middle second : Text) (out_len : ℕ)
    → strlen prefix ≤ size_max
    → strlen first ≤ size_max
    → strlen middle ≤ size_max
    → strlen second ≤ size_max
    → out_len ≤ size_max
    → strlen prefix + strlen first + strlen middle + strlen second ≢ size_max
    → let refused = any_of (
        two_part_key_refused
          (strlen prefix)
          (strlen first)
          (strlen middle)
          (strlen second)
          out_len) in
      (refused ≡ leb out_len (strlen prefix + strlen first + strlen middle + strlen second))
      × (build_two_part_key prefix first middle second out_len ≡ (
          if refused
          then none
          else some (c_str prefix ++ (c_str first ++ (c_str middle ++ c_str second)))))
unfolding build_two_part_key
build_two_part_key_lem prefix first middle second out_len p f m s o n =
    let total = strlen prefix + strlen first + strlen middle + strlen second in
    let exact =
      two_part_key_refused_iff (strlen prefix) (strlen first) (strlen middle) (strlen second)
        out_len p f m s o n in
    (
      exact,
      elim (Bool-cases (leb out_len total)) [
        | inl over ↦ rw (exact, over) refl
        | inr fits ↦
            let within : ltb total out_len ≡ true = ground (arith, fits) in
            rw (exact, fits, within) refl
      ],
    )
