-- ===== src/Service/Tests/Blocks.antt =====
-- A block that is bootstrapped, updated and handed off, on a table of four records.
use mem_service.Base.{◌≤◌, ◌<◌, ◌≡◌, ◌≢◌, refl, true, some, List, [], ◌∷◌, All, find_slot, arith}
use mem_service.Base.Text.{strlen, c_str, codes, text_eq, snprintf_text}
use mem_service.Service.{Record, MemService, init, zero_record, kind_block_meta, state_reloaded}
use mem_service.Service.Keys.{
  build_two_part_key, build_prefix_key, build_group_key, build_block_key,
  build_prefix_key_from_parts_checked, build_group_key_from_parts_checked,
  build_block_key_from_hash_checked,
}
use mem_service.Service.Records.{
  alloc_in, alloc_record, find_record, get_record, contains_hash, has_member, append_member,
  add_member,
}
use mem_service.Service.Metadata.{
  not_owner, unchanged, put_record, put_request_prefix, update_group, put_group_at,
  put_prefix_group, put_block_meta, update_slot, update_block_result, update_prefix_result,
  update_prefix_group_from_block, update_block_owner,
}
use mem_service.Service.Metadata.Flows.{
  Reply, ok, stop, bootstrap_kvcache, update_owned_block, apply_block_result, handoff_block_owner,
}
use mem_service.Service.Records.Valid.{IsValid}
use mem_service.Service.Metadata.Reachable.{
  Update, bootstrap, block_result, block_owner, prefix_metadata, operate_all, operate,
  operate_all-IsValid, metadata-IsValid,
}
use mem_service.Service.Metadata.Results.{
  perform_all, perform_all-Forward, apply_block_result-stale,
}
use mem_service.Service.Metadata.Bootstrap.{Bootstrapped, bootstrap_kvcache_lem}
use mem_service.Service.Metadata.Owners.{Elsewhere, perform_all-Stays}
use mem_service.Service.Metadata.Ownership.{handoff_block_owner_lem}
use mem_service.Service.Tests.Metadata.{test_ctx-IdNoSlash, block_key, other_ctx}
use mem_service.Service.Tests.{empty_service, empty_service-IsValid, test_ctx}

abbrev boot : Reply Record × MemService
boot = bootstrap_kvcache test_ctx empty_service

abbrev booted : MemService
booted = boot.1

abbrev answer : Reply Record → Record
answer (ok r) = r
answer (stop rc) = zero_record

booted_lem : boot ≡ (ok (answer boot.0), booted)
unfolding bootstrap_kvcache build_prefix_key build_group_key build_block_key
    build_prefix_key_from_parts_checked build_group_key_from_parts_checked
    build_block_key_from_hash_checked build_two_part_key c_str put_prefix_group alloc_record
    find_record alloc_in find_slot text_eq snprintf_text update_group put_group_at put_record
    put_request_prefix put_block_meta update_slot update_block_result update_prefix_result
    update_prefix_group_from_block get_record has_member contains_hash append_member add_member
booted_lem = refl

booted-IsValid : IsValid booted
unfolding operate operate_all
booted-IsValid = operate_all-IsValid (bootstrap test_ctx ∷ []) empty_service empty_service-IsValid

abbrev first : Record
first = answer boot.0

bootstrap_kvcache_lem_example : Bootstrapped test_ctx first booted
bootstrap_kvcache_lem_example =
    bootstrap_kvcache_lem test_ctx empty_service empty_service-IsValid test_ctx-IdNoSlash booted_lem

found : get_record booted (codes "block/h") ≡ some first
unfolding bootstrap_kvcache build_prefix_key build_group_key build_block_key
    build_prefix_key_from_parts_checked build_group_key_from_parts_checked
    build_block_key_from_hash_checked build_two_part_key c_str put_prefix_group alloc_record
    find_record alloc_in find_slot text_eq snprintf_text update_group put_group_at put_record
    put_request_prefix put_block_meta update_slot update_block_result update_prefix_result
    update_prefix_group_from_block get_record has_member contains_hash append_member add_member
found = refl

at_first :
    (first.kind ≡ kind_block_meta) × (first.placement_node ≡ 1) × (first.last_result_segment ≡ 4)
unfolding bootstrap_kvcache build_prefix_key build_group_key build_block_key
    build_prefix_key_from_parts_checked build_group_key_from_parts_checked
    build_block_key_from_hash_checked build_two_part_key c_str put_prefix_group alloc_record
    find_record alloc_in find_slot text_eq snprintf_text update_group put_group_at put_record
    put_request_prefix put_block_meta update_slot update_block_result update_prefix_result
    update_prefix_group_from_block get_record has_member contains_hash append_member add_member
at_first = (refl, refl, refl)

metadata-IsValid_example : IsValid (operate_all (bootstrap test_ctx ∷ []) (init true true true).1)
metadata-IsValid_example = metadata-IsValid true true true (bootstrap test_ctx ∷ [])

abbrev updates : List Update
updates = block_result test_ctx 9 state_reloaded ∷ block_result test_ctx 8 state_reloaded ∷ []

perform_all-Forward_example :
    (r' : Record) × (get_record (perform_all updates booted) (codes "block/h") ≡ some r')
    × (r'.kind ≡ kind_block_meta)
    × (first.last_result_segment ≤ r'.last_result_segment)
perform_all-Forward_example =
    perform_all-Forward updates booted (codes "block/h") booted-IsValid found at_first.0

away : first.placement_node ≢ other_ctx.placement_node
away same = absurd (let x = at_first.1 in ground (arith, x, same))

zero_record-fits : strlen zero_record.block_hash < 96
unfolding c_str
zero_record-fits = omega arith

-- A result by another node, which is refused, and a prefix that follows its block.
abbrev elsewhere : List Update
elsewhere =
    block_result other_ctx 9 state_reloaded
    ∷ prefix_metadata test_ctx zero_record zero_record-fits
    ∷ []

elsewhere-Elsewhere : All (Elsewhere 1) elsewhere
unfolding Elsewhere
elsewhere-Elsewhere = ((λ x. absurd (ground (arith, x))), (tt, tt))

perform_all-Stays_example :
    (r' : Record) × (get_record (perform_all elsewhere booted) (codes "block/h") ≡ some r')
    × (r'.kind ≡ kind_block_meta)
    × (r'.placement_node ≡ 1)
perform_all-Stays_example =
    perform_all-Stays elsewhere booted (codes "block/h") 1 booted-IsValid elsewhere-Elsewhere found
      at_first.0 at_first.1

apply_block_result-stale_example :
    apply_block_result test_ctx 3 state_reloaded booted ≡ (stop unchanged, booted)
apply_block_result-stale_example =
    apply_block_result-stale test_ctx booted (codes "block/h") 3 state_reloaded block_key found
      at_first.1 at_first.0 (λ x. absurd (let y = at_first.2 in ground (arith, x, y)))
      (let y = at_first.2 in omega (arith, y))

abbrev handed : Reply Record × MemService
handed = handoff_block_owner test_ctx 5 6 7 booted

handed_lem : handed ≡ (ok (answer handed.0), handed.1)
unfolding bootstrap_kvcache handoff_block_owner update_owned_block update_block_owner
    build_prefix_key build_group_key build_block_key build_prefix_key_from_parts_checked
    build_group_key_from_parts_checked build_block_key_from_hash_checked build_two_part_key c_str
    put_prefix_group alloc_record find_record alloc_in find_slot text_eq snprintf_text update_group
    put_group_at put_record put_request_prefix put_block_meta update_slot update_block_result
    update_prefix_result update_prefix_group_from_block get_record has_member contains_hash
    append_member add_member
handed_lem = refl

-- What is asked of the node that gave the block away is refused.
abbrev elsewhere_after : List Update
elsewhere_after = block_result test_ctx 9 state_reloaded ∷ block_owner test_ctx 1 2 3 ∷ []

elsewhere_after-Elsewhere : All (Elsewhere 5) elsewhere_after
unfolding Elsewhere
elsewhere_after-Elsewhere =
    ((λ x. absurd (ground (arith, x))), ((λ x. absurd (ground (arith, x))), tt))

handoff_block_owner_lem_example :
    ((answer handed.0).placement_node ≡ 5)
    × ((answer handed.0).placement_level ≡ 6)
    × ((answer handed.0).hot_segment_id ≡ 7)
    × (get_record handed.1 (codes "block/h") ≡ some (answer handed.0))
    × ((now : Record) × (get_record (perform_all elsewhere_after handed.1) (codes "block/h")
          ≡ some now)
        × (now.kind ≡ kind_block_meta)
        × (now.placement_node ≡ 5))
    × (update_owned_block test_ctx
          (λ svc key. update_block_result svc key 9 state_reloaded)
          (perform_all elsewhere_after handed.1)
        ≡ (stop not_owner, perform_all elsewhere_after handed.1))
handoff_block_owner_lem_example =
    handoff_block_owner_lem test_ctx 5 6 7 booted (codes "block/h") elsewhere_after test_ctx
      (λ svc key. update_block_result svc key 9 state_reloaded) booted-IsValid block_key handed_lem
      elsewhere_after-Elsewhere block_key (λ x. absurd (ground (arith, x)))
