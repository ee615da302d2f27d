-- ===== src/Service/Metadata/Stored.antt =====
-- Records that are put: the static functions mem_service_put_request_prefix, _put_prefix_group and
-- _put_block_meta of components/mem_service/mem_service_metadata.c.
use mem_service.Base.{
  ℕ, ◌+◌, ◌%◌, ◌^◌, Bool, true, false, not, ◌&&◌, ◌||◌, Option, none, some, List, [], ◌∷◌, ltb,
  ◌!=◌, if◌then◌else◌, any_of,
}
use mem_service.Base.Text.{Text, snprintf_text}
use mem_service.Service.{
  Record, MemService, zero_record, kind_request_prefix, kind_prefix_group, kind_block_meta,
}
use mem_service.Service.Records.{write_record, alloc_record, find_record, add_member}

-- `rec = find_record(svc, key); if (!rec) rec = alloc_record(svc);`
abbrev pub found_or : Option (ℕ × Record) → MemService → Option ((ℕ × Record) × MemService)
found_or none svc = alloc_record svc
found_or (some slot) svc = some (slot, svc)

-- A record that is put replaces what its slot held.
abbrev pub put_in : Option ((ℕ × Record) × MemService) → MemService → Record → Bool × MemService
put_in none svc r = (false, svc)
put_in (some ((i, _), svc')) svc r = (true, write_record svc' i r)

unfoldable pub put_record : MemService → Text → Record → Bool × MemService
put_record svc key r = put_in (found_or (find_record svc key) svc) svc r

abbrev pub request_prefix_record : Text → Text → Text → Text → Text → Record
request_prefix_record key request_id prefix_group group_id block_hash = record zero_record {
  in_use = true;
  kind = kind_request_prefix;
  key = snprintf_text 96 key;
  request_id = snprintf_text 64 request_id;
  prefix_group = snprintf_text 64 prefix_group;
  group_id = snprintf_text 64 group_id;
  block_hash = snprintf_text 96 block_hash;
  version = 1;
}

unfoldable pub put_request_prefix :
    MemService → Text → Text → Text → Text → Text → Bool × MemService
put_request_prefix svc key request_id prefix_group group_id block_hash =
    put_record svc key (request_prefix_record key request_id prefix_group group_id block_hash)

-- The last arguments of the functions on prefix groups and blocks, as one value.
pub record Placement : Type 0 where
  pub placement_node : ℕ
  pub placement_level : ℕ
  pub hot_segment_id : ℕ
  pub state : ℕ
  pub last_result_segment : ℕ

abbrev pub new_group : Text → Text → Text → Record
new_group key request_id group_id = record zero_record {
  in_use = true;
  kind = kind_prefix_group;
  key = snprintf_text 96 key;
  request_id = snprintf_text 64 request_id;
  group_id = snprintf_text 64 group_id;
  version = 1;
}

-- The record of the group, and whether it is new.
abbrev pub new_group_in :
    Option ((ℕ × Record) × MemService) → Record → Option (Bool × (ℕ × Record) × MemService)
new_group_in none r = none
new_group_in (some ((i, _), svc)) r = some (true, (i, r), write_record svc i r)

abbrev pub group_slot :
    Option (ℕ × Record) → MemService → Record → Option (Bool × (ℕ × Record) × MemService)
group_slot (some slot) svc r = some (false, slot, svc)
group_slot none svc r = new_group_in (alloc_record svc) r

abbrev pub placed_otherwise : Record → Placement → List Bool
placed_otherwise r p =
    (r.placement_node != p.placement_node)
    ∷ (r.placement_level != p.placement_level)
    ∷ (r.hot_segment_id != p.hot_segment_id)
    ∷ (r.state != p.state)
    ∷ (r.last_result_segment != p.last_result_segment)
    ∷ []

abbrev pub place : Placement → Record → Record
place p r = record r {
  placement_node = p.placement_node;
  placement_level = p.placement_level;
  hot_segment_id = p.hot_segment_id;
  state = p.state;
  last_result_segment = p.last_result_segment;
}

abbrev pub bump_version : Record → Record
bump_version r = record r { version = (r.version + 1) % 2 ^ 64 }

unfoldable pub update_group : Bool → Record → Placement → Record
update_group is_new r p =
    let changed = is_new || any_of (placed_otherwise r p) in
    let placed = if any_of (placed_otherwise r p) then place p r else r in
    if changed && (not is_new && ltb 0 placed.version) then bump_version placed else placed

abbrev pub put_group_member : Bool → ℕ → MemService → Option Record → Placement → Bool × MemService
put_group_member is_new i svc none p = (false, svc)
put_group_member is_new i svc (some r) p = (true, write_record svc i (update_group is_new r p))

unfoldable pub put_group_at :
    MemService → Option (Bool × (ℕ × Record) × MemService) → Text → Placement → Bool × MemService
put_group_at svc none block_hash p = (false, svc)
put_group_at svc (some (is_new, (i, r), svc')) block_hash p =
    if r.kind != kind_prefix_group
    then (false, svc')
    else put_group_member is_new i svc' (add_member r block_hash) p

unfoldable pub put_prefix_group :
    MemService → Text → Text → Text → Text → Placement → Bool × MemService
put_prefix_group svc key request_id group_id block_hash p =
    put_group_at svc (group_slot (find_record svc key) svc (new_group key request_id group_id))
      block_hash p

-- The placement without its last member, which a new block does not have.
abbrev pub block_meta_record : Text → Text → Text → Text → Text → ℕ → ℕ → ℕ → ℕ → Record
block_meta_record key request_id prefix_group group_id block_hash node level hot_segment_id state =
    record zero_record {
      in_use = true;
      kind = kind_block_meta;
      key = snprintf_text 96 key;
      request_id = snprintf_text 64 request_id;
      prefix_group = snprintf_text 64 prefix_group;
      group_id = snprintf_text 64 group_id;
      block_hash = snprintf_text 96 block_hash;
      placement_node = node;
      placement_level = level;
      hot_segment_id = hot_segment_id;
      state = state;
      version = 1;
    }

unfoldable pub put_block_meta :
    MemService → Text → Text → Text → Text → Text → ℕ → ℕ → ℕ → ℕ → Bool × MemService
put_block_meta svc key request_id prefix_group group_id block_hash node level hot_segment_id state =
    put_record svc key (
      block_meta_record key request_id prefix_group group_id block_hash node level hot_segment_id
        state)
