-- ===== src/Service/Keys.antt =====
-- The names of records: components/mem_service/mem_service_keys.c. `none` is -1; the text that is
-- written before the NUL is the result.
pub mod Distinct
pub mod Fits
use mem_service.Base.{
  ℕ, ◌+◌, ◌-◌, ◌%◌, ◌^◌, Bool, Option, none, some, List, [], ◌∷◌, ◌++◌, ltb, ◌==◌, if◌then◌else◌,
  any_of,
}
use mem_service.Base.Text.{Text, c_str, strlen, codes}

abbrev pub size_max : ℕ
size_max = 2 ^ 64 - 1

-- A sum of sizes.
abbrev pub size_add : ℕ → ℕ → ℕ
size_add a b = (a + b) % 2 ^ 64

abbrev pub two_part_key_refused : ℕ → ℕ → ℕ → ℕ → ℕ → List Bool
two_part_key_refused prefix_len first_len middle_len second_len out_len =
    let two = size_add prefix_len first_len in
    let three = size_add two middle_len in
    (out_len == 0)
    ∷ (ltb (size_max - first_len) prefix_len)
    ∷ (ltb (size_max - middle_len) two)
    ∷ (ltb (size_max - second_len) three)
    ∷ (ltb out_len (size_add (size_add three second_len) 1))
    ∷ []

-- Copies that would leave the array have no result.
unfoldable pub build_two_part_key : Text → Text → Text → Text → ℕ → Option Text
build_two_part_key prefix first middle second out_len =
    if any_of
      (two_part_key_refused (strlen prefix) (strlen first) (strlen middle) (strlen second) out_len)
    then none
    else if ltb (strlen prefix + strlen first + strlen middle + strlen second) out_len
    then some (c_str prefix ++ (c_str first ++ (c_str middle ++ c_str second)))
    else none

unfoldable pub build_prefix_key_from_parts_checked : Text → Text → ℕ → Option Text
build_prefix_key_from_parts_checked request_id prefix_group out_len =
    build_two_part_key (codes "request/") request_id (codes "/prefix/") prefix_group out_len

unfoldable pub build_group_key_from_parts_checked : Text → Text → ℕ → Option Text
build_group_key_from_parts_checked request_id group_id out_len =
    build_two_part_key (codes "request/") request_id (codes "/prefix-group/") group_id out_len

unfoldable pub build_block_key_from_hash_checked : Text → ℕ → Option Text
build_block_key_from_hash_checked block_hash out_len =
    build_two_part_key (codes "block/") block_hash [] [] out_len

pub record BlockCtx : Type 0 where
  pub request_id : Text
  pub prefix_group : Text
  pub group_id : Text
  pub block_hash : Text
  pub placement_node : ℕ
  pub placement_level : ℕ
  pub hot_segment_id : ℕ
  pub result_segment_id : ℕ

unfoldable pub build_group_key : BlockCtx → ℕ → Option Text
build_group_key ctx out_len = build_group_key_from_parts_checked ctx.request_id ctx.group_id out_len

unfoldable pub build_prefix_key : BlockCtx → ℕ → Option Text
build_prefix_key ctx out_len =
    build_prefix_key_from_parts_checked ctx.request_id ctx.prefix_group out_len

unfoldable pub build_block_key : BlockCtx → ℕ → Option Text
build_block_key ctx out_len = build_block_key_from_hash_checked ctx.block_hash out_len

-- The builders that return nothing leave the empty text where the key does not fit.
unfoldable pub or_empty : Option Text → Text
or_empty none = []
or_empty (some key) = key

unfoldable pub build_prefix_key_from_parts : Text → Text → ℕ → Text
build_prefix_key_from_parts request_id prefix_group out_len =
    or_empty (build_prefix_key_from_parts_checked request_id prefix_group out_len)

unfoldable pub build_group_key_from_parts : Text → Text → ℕ → Text
build_group_key_from_parts request_id group_id out_len =
    or_empty (build_group_key_from_parts_checked request_id group_id out_len)

unfoldable pub build_block_key_from_hash : Text → ℕ → Text
build_block_key_from_hash block_hash out_len =
    or_empty (build_block_key_from_hash_checked block_hash out_len)
