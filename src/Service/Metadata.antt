-- ===== src/Service/Metadata.antt =====
-- Records of prefixes, prefix groups and blocks: the static functions of
-- components/mem_service/mem_service_metadata.c, and its predicates on records.
mod Stored
pub mod Flows
pub mod Puts
pub mod Groups
pub mod Evolves
pub mod Histories
pub mod Reachable
pub mod Results
pub mod Answers
pub mod Owners
pub mod Ownership
pub mod Steps
pub mod Bootstrap
unfoldable pub use Stored.*
use mem_service.Base.{
  ℕ, ◌+◌, ◌%◌, ◌^◌, Bool, true, false, not, ◌&&◌, ◌||◌, Option, none, some, List, [], ◌∷◌, ltb, leb,
  ◌==◌, ◌!=◌, if◌then◌else◌, any_of, all_of, set, find_slot,
}
use mem_service.Base.Text.{Text, strncmp_eq, snprintf_text, codes}
use mem_service.Service.{
  Record, MemService, zero_record, kind_request_prefix, kind_prefix_group, kind_block_meta,
}
use mem_service.Service.Records.{write_record, alloc_record, find_record, has_member, add_member}
use mem_service.Service.Keys.{BlockCtx, build_group_key}

-- The return codes -1, 0, 1 and 2.
pub data Rc : Type 0 where
  failed done unchanged not_owner : Rc

-- The functions that update a record look it up, refuse another kind, leave it alone where it is
-- up to date, and else write it and count the version up.
unfoldable pub update_slot :
    MemService → Option (ℕ × Record) → ℕ → (Record → Bool) → (Record → Record) → Rc × MemService
update_slot svc none kind current next = (failed, svc)
update_slot svc (some (i, r)) kind current next =
    if r.kind != kind
    then (failed, svc)
    else if current r
    then (unchanged, svc)
    else (done, write_record svc i (bump_version (next r)))

abbrev pub result_is_stale : ℕ → Record → Bool
result_is_stale last_result_segment r =
    r.last_result_segment != 0 && leb last_result_segment r.last_result_segment

abbrev pub result_next : ℕ → ℕ → Record → Record
result_next last_result_segment next_state r = record r {
  last_result_segment = last_result_segment;
  state = next_state;
}

unfoldable pub update_block_result : MemService → Text → ℕ → ℕ → Rc × MemService
update_block_result svc key last_result_segment next_state =
    update_slot svc (find_record svc key) kind_block_meta (result_is_stale last_result_segment)
      (result_next last_result_segment next_state)

abbrev pub prefix_is_current : BlockCtx → Record → Record → Bool
prefix_is_current ctx block r =
    all_of (
      (r.last_result_segment != 0)
      ∷ (strncmp_eq 96 r.block_hash block.block_hash)
      ∷ (ltb block.last_result_segment r.last_result_segment)
      ∷ [])
    || all_of (
        (r.last_result_segment == block.last_result_segment)
        ∷ (r.placement_node == ctx.placement_node)
        ∷ (r.placement_level == ctx.placement_level)
        ∷ (r.hot_segment_id == block.hot_segment_id)
        ∷ (r.state == block.state)
        ∷ (strncmp_eq 96 r.block_hash block.block_hash)
        ∷ [])

abbrev pub follow_block : Record → Record → Record
follow_block block r = record r {
  placement_node = block.placement_node;
  placement_level = block.placement_level;
  hot_segment_id = block.hot_segment_id;
  state = block.state;
  last_result_segment = block.last_result_segment;
  block_hash = snprintf_text 96 block.block_hash;
}

unfoldable pub update_prefix_result : MemService → Text → BlockCtx → Record → Rc × MemService
update_prefix_result svc key ctx block =
    update_slot svc (find_record svc key) kind_request_prefix (prefix_is_current ctx block)
      (follow_block block)

abbrev pub placement_of : Record → Placement
placement_of r = record {
  placement_node = r.placement_node;
  placement_level = r.placement_level;
  hot_segment_id = r.hot_segment_id;
  state = r.state;
  last_result_segment = r.last_result_segment;
}

abbrev pub put_group_of : MemService → BlockCtx → Record → Option Text → Bool × MemService
put_group_of svc ctx block none = (false, svc)
put_group_of svc ctx block (some group_key) =
    put_prefix_group svc group_key ctx.request_id ctx.group_id block.block_hash (placement_of block)

unfoldable pub update_prefix_group_from_block : MemService → BlockCtx → Record → Bool × MemService
update_prefix_group_from_block svc ctx block = put_group_of svc ctx block (build_group_key ctx 96)

unfoldable pub update_block_view : MemService → Text → ℕ → ℕ → Rc × MemService
update_block_view svc key hot_segment_id placement_level =
    update_slot svc (find_record svc key) kind_block_meta
      (λ r. r.hot_segment_id == hot_segment_id && r.placement_level == placement_level)
      λ r. record r { hot_segment_id = hot_segment_id; placement_level = placement_level }

abbrev pub owner_is_current : ℕ → ℕ → ℕ → Record → Bool
owner_is_current placement_node placement_level hot_segment_id r = all_of (
    (r.placement_node == placement_node)
    ∷ (r.placement_level == placement_level)
    ∷ (r.hot_segment_id == hot_segment_id)
    ∷ [])

abbrev pub owner_next : ℕ → ℕ → ℕ → Record → Record
owner_next placement_node placement_level hot_segment_id r = record r {
  placement_node = placement_node;
  placement_level = placement_level;
  hot_segment_id = hot_segment_id;
}

unfoldable pub update_block_owner : MemService → Text → ℕ → ℕ → ℕ → Rc × MemService
update_block_owner svc key placement_node placement_level hot_segment_id =
    update_slot svc (find_record svc key) kind_block_meta
      (owner_is_current placement_node placement_level hot_segment_id)
      (owner_next placement_node placement_level hot_segment_id)

abbrev pub prefix_match_tests : Record → Record → List Bool
prefix_match_tests prefix_meta block_meta =
    (prefix_meta.kind == kind_request_prefix)
    ∷ (block_meta.kind == kind_block_meta)
    ∷ (prefix_meta.last_result_segment != 0)
    ∷ (block_meta.last_result_segment != 0)
    ∷ (strncmp_eq 96 prefix_meta.block_hash block_meta.block_hash)
    ∷ (prefix_meta.hot_segment_id == block_meta.hot_segment_id)
    ∷ (prefix_meta.placement_node == block_meta.placement_node)
    ∷ (prefix_meta.placement_level == block_meta.placement_level)
    ∷ (prefix_meta.state == block_meta.state)
    ∷ []

unfoldable pub prefix_matches_block_meta : Record → Record → Bool
prefix_matches_block_meta prefix_meta block_meta =
    all_of (prefix_match_tests prefix_meta block_meta)

abbrev pub group_cover_tests : Record → Record → Record → List Bool
group_cover_tests group_meta primary aux =
    (group_meta.kind == kind_prefix_group)
    ∷ (primary.kind == kind_block_meta)
    ∷ (aux.kind == kind_block_meta)
    ∷ (leb 2 group_meta.member_count)
    ∷ (group_meta.last_result_segment != 0)
    ∷ (has_member group_meta primary.block_hash)
    ∷ (has_member group_meta aux.block_hash)
    ∷ []

unfoldable pub group_covers_blocks : Record → Record → Record → Bool
group_covers_blocks group_meta primary aux = all_of (group_cover_tests group_meta primary aux)

unfoldable pub kvcache_state_name : ℕ → Text
kvcache_state_name state =
    if state == 0
    then codes "missing"
    else if state == 1
    then codes "filled"
    else if state == 2
    then codes "hot"
    else if state == 3
    then codes "reloaded"
    else codes "unknown"
