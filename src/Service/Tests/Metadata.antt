-- ===== src/Service/Tests/Metadata.antt =====
-- Keys, and the metadata operations on a table of four records.
use mem_service.Base.{
  any_of, leb, arith, ◌+◌, ◌≡◌, ◌≢◌, refl, none, some, [], ◌++◌, if◌then◌else◌, arith,
}
use mem_service.Base.Text.{c_str, strlen, codes}
use mem_service.Service.Keys.{
  BlockCtx, two_part_key_refused, build_two_part_key, build_prefix_key, build_group_key,
  build_block_key, build_prefix_key_from_parts_checked, build_group_key_from_parts_checked,
  build_block_key_from_hash_checked,
}
use mem_service.Service.Keys.Fits.{build_two_part_key_lem}
use mem_service.Service.Keys.Distinct.{IdNoSlash, build_prefix_key-injective, keys_apart}
use mem_service.Service.Tests.{test_ctx}

abbrev pub other_ctx : BlockCtx
other_ctx = record test_ctx { placement_node = 7 }

pub block_key : build_block_key test_ctx 96 ≡ some (codes "block/h")
unfolding build_block_key build_block_key_from_hash_checked build_two_part_key c_str
block_key = refl

prefix_key : build_prefix_key test_ctx 96 ≡ some (codes "request/r1/prefix/p")
unfolding build_prefix_key build_prefix_key_from_parts_checked build_two_part_key c_str
prefix_key = refl

group_key : build_group_key test_ctx 96 ≡ some (codes "request/r1/prefix-group/g")
unfolding build_group_key build_group_key_from_parts_checked build_two_part_key c_str
group_key = refl

len_block : strlen (codes "block/") ≡ 6
unfolding c_str
len_block = refl

len_h : strlen (codes "h") ≡ 1
unfolding c_str
len_h = refl

len_none : strlen [] ≡ 0
unfolding c_str
len_none = refl

-- Seven characters and the NUL do not fit seven bytes.
build_two_part_key_lem_example :
    let refused = any_of (
      two_part_key_refused
        (strlen (codes "block/"))
        (strlen (codes "h"))
        (strlen [])
        (strlen [])
        7) in
    (refused ≡ leb 7 (strlen (codes "block/") + strlen (codes "h") + strlen [] + strlen []))
    × (build_two_part_key (codes "block/") (codes "h") [] [] 7 ≡ (
        if refused
        then none
        else some (c_str (codes "block/") ++ (c_str (codes "h") ++ (c_str [] ++ c_str [])))))
build_two_part_key_lem_example =
    build_two_part_key_lem (codes "block/") (codes "h") [] [] 7 (omega (arith, len_block))
      (omega (arith, len_h)) (omega (arith, len_none)) (omega (arith, len_none)) (omega arith)
      (λ e. absurd (omega (arith, len_block, len_h, len_none, e)))

pub test_ctx-IdNoSlash : IdNoSlash test_ctx
unfolding c_str
test_ctx-IdNoSlash = ground arith

build_prefix_key-injective_example :
    (c_str test_ctx.request_id ≡ c_str other_ctx.request_id)
    × (c_str test_ctx.prefix_group ≡ c_str other_ctx.prefix_group)
unfolding build_prefix_key
build_prefix_key-injective_example =
    build_prefix_key-injective test_ctx other_ctx (codes "request/r1/prefix/p") test_ctx-IdNoSlash
      test_ctx-IdNoSlash prefix_key prefix_key

keys_apart_example :
    (codes "request/r1/prefix/p" ≢ codes "request/r1/prefix-group/g")
    × (codes "request/r1/prefix/p" ≢ codes "block/h")
    × (codes "request/r1/prefix-group/g" ≢ codes "block/h")
keys_apart_example =
    keys_apart test_ctx test_ctx test_ctx test_ctx-IdNoSlash test_ctx-IdNoSlash prefix_key group_key
      block_key
