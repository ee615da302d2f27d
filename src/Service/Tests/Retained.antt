-- ===== src/Service/Tests/Retained.antt =====
-- Retention over two checkpoints, and the ring of audit events.
use mem_service.Base.{
  ℕ, ◌≤◌, ◌≡◌, refl, sym, subst, min, ◌⊎◌, Bool, true, false, Option, none, some, List, [],
  find_slot, count, get_elem?, arith,
}
use mem_service.Base.Text.{Text, c_str, codes, text_eq, snprintf_text}
use mem_service.Service.{Record, MemService, zero_record, kind_training_artifact}
use mem_service.Service.Records.{alloc_in, alloc_record, find_record}
use mem_service.Service.Records.Valid.{IsValid, RecordValid}
use mem_service.Service.Metadata.{put_record}
use mem_service.Service.Metadata.Puts.{PutResult, put_record_lem}
use mem_service.Service.Metadata.Reachable.{stored-RecordValid, snprintf_key}
use mem_service.Service.Payload.{
  payload_get_string, wire_payload_get_string, first_value, lines, cons_line, byte_is,
}
use mem_service.Service.Idempotency.{prune_idempotency_for_record_key, prune_slot}
use mem_service.Service.Retention.{
  Kept, Retained, record_is_checkpoint, count_checkpoint_records, oldest_from,
  record_matches_retention_kind, count_retained_kind_records, find_oldest_record_index,
  record_has_payload_block, referenced_but, payload_block_is_referenced,
  gc_payload_block_if_orphaned, retire, retain_loop, apply_checkpoint_retention,
  apply_record_retention, expire_loop,
}
use mem_service.Service.Retention.Oldest.{NoneOlder, oldest_from_lem}
use mem_service.Service.Retention.Oldest.Limit.{
  apply_checkpoint_retention-Ends, apply_record_retention-Ends,
}
use mem_service.Service.Retention.Blocks.{Unreferenced, apply_record_retention-Unreferenced}
use mem_service.Service.Tests.{empty_service, empty_service-IsValid}

-- A checkpoint, of a payload block of its own.
abbrev pub checkpoint : Text → ℕ → Record
checkpoint key version = record zero_record {
  in_use = true;
  kind = kind_training_artifact;
  key = snprintf_text 96 key;
  artifact_kind = snprintf_text 64 (codes "checkpoint");
  object_payload_kind = 64;
  object_payload_checksum = version;
  object_publish_monotonic_ms = version;
  version = version;
}

pub checkpoint-RecordValid : (key : Text) (version : ℕ) → RecordValid (checkpoint key version)
unfolding snprintf_text c_str
checkpoint-RecordValid key version = stored-RecordValid (checkpoint key version) [] refl refl refl

pub put-IsValid :
    (svc : MemService) (key : Text) (r : Record) (x : Bool × MemService)
    → PutResult svc key (λ b. b ≡ r) x
    → RecordValid r
    → IsValid svc
    → IsValid x.1
unfolding PutResult
put-IsValid svc key r (true, t) (b, p, same) good v = p.kept v (subst RecordValid (sym same) good)
put-IsValid svc key r (false, t) same good v = subst IsValid (sym same) v

abbrev one : MemService
one = (put_record empty_service (codes "a") (checkpoint (codes "a") 5)).1

abbrev two : MemService
two = (put_record one (codes "b") (checkpoint (codes "b") 4)).1

two-IsValid : IsValid two
unfolding c_str
two-IsValid =
    let a = checkpoint (codes "a") 5 in
    let b = checkpoint (codes "b") 4 in
    put-IsValid one (codes "b") b _
      (put_record_lem one (codes "b") b refl (snprintf_key (codes "b") (omega arith)))
      (checkpoint-RecordValid (codes "b") 4)
      (put-IsValid empty_service (codes "a") a _
        (put_record_lem empty_service (codes "a") a refl (snprintf_key (codes "a") (omega arith)))
        (checkpoint-RecordValid (codes "a") 5) empty_service-IsValid)

two_checkpoints : count_checkpoint_records two ≡ 2
unfolding count_checkpoint_records record_is_checkpoint count put_record find_record find_slot
    alloc_record alloc_in text_eq snprintf_text c_str
two_checkpoints = refl

apply_checkpoint_retention-Ends_example :
    (pruned : Bool) × (gone : List Record) × (svc' : MemService) × (apply_checkpoint_retention 2 two
        1
        (codes "/s")
      ≡ some (pruned, (gone, svc')))
    × IsValid svc'
    × (count_checkpoint_records svc' ≡ min (count_checkpoint_records two) 1)
apply_checkpoint_retention-Ends_example =
    apply_checkpoint_retention-Ends 2 two 1 (codes "/s") two-IsValid (omega arith)
      (omega (arith, two_checkpoints))

abbrev pub every : Kept
every = record { kind = 0; tenant_enabled = false; tenant = 0 }

two_retained : count (record_matches_retention_kind every) two.records ≡ 2
unfolding record_matches_retention_kind count put_record find_record find_slot alloc_record alloc_in
    text_eq snprintf_text c_str
two_retained = refl

apply_record_retention-Ends_example :
    (pruned : Bool) × (gone : List Record) × (svc' : MemService) × (apply_record_retention 2 two 1
        100 every 50
        (codes "/s")
      ≡ some (pruned, (gone, svc')))
    × IsValid svc'
    × (count (record_matches_retention_kind every) svc'.records ≤ 1)
apply_record_retention-Ends_example =
    apply_record_retention-Ends every 2 two 1 100 50 (codes "/s") two-IsValid (omega arith)
      (omega (arith, two_retained))

-- One is given up for the limit of one record; nothing is too old.
abbrev retained_of : Option (Bool × Retained) → Bool × Retained
retained_of none = (false, ([], two))
retained_of (some r) = r

abbrev retained : Bool × Retained
retained = retained_of (apply_record_retention 2 two 1 100 every 50 (codes "/s"))

retained_lem :
    apply_record_retention 2 two 1 100 every 50 (codes "/s")
    ≡ some (retained.0, (retained.1.0, retained.1.1))
unfolding apply_record_retention retain_loop retire expire_loop count_retained_kind_records
    find_oldest_record_index oldest_from record_matches_retention_kind count put_record find_record
    find_slot alloc_record alloc_in text_eq snprintf_text c_str prune_idempotency_for_record_key
    gc_payload_block_if_orphaned record_has_payload_block payload_block_is_referenced referenced_but
    prune_slot payload_get_string wire_payload_get_string first_value lines cons_line byte_is
retained_lem = refl

apply_record_retention-Unreferenced_example : Unreferenced retained.1.0 retained.1.1
apply_record_retention-Unreferenced_example =
    apply_record_retention-Unreferenced 2 two 1 100 every 50 (codes "/s") retained_lem

oldest_from_lem_example :
    ((oldest_from record_is_checkpoint 0 none two.records ≡ none)
      × (count record_is_checkpoint two.records ≡ 0))
    ⊎ ((j : ℕ) × (r : Record) × (oldest_from record_is_checkpoint 0 none two.records ≡ some (j, r))
        × (get_elem? two.records j ≡ some r)
        × (record_is_checkpoint r ≡ true)
        × NoneOlder record_is_checkpoint two.records r)
oldest_from_lem_example = oldest_from_lem record_is_checkpoint two.records
