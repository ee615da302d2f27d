-- ===== src/Service/Tests.antt =====
-- Small services that the tests run on: tables of four records.
pub mod Metadata
pub mod Blocks
pub mod Requests
pub mod Retained
pub mod Audited
pub mod Operations
use mem_service.Base.{
  ℕ, ◌≡◌, sym, refl, true, false, List, [], ◌∷◌, length, length-replicate, replicate, arith,
}
use mem_service.Base.Text.{codes}
use mem_service.Service.{Record, MemService, zero_record, zero_idempotency, zero_event}
use mem_service.Service.Keys.{BlockCtx}
use mem_service.Service.Records.Valid.{IsValid}
use mem_service.Service.Metadata.Reachable.{zero-unused, zero-unheld, zero-RecordValid}

abbrev pub service_of : List Record → ℕ → MemService
service_of records record_count = record {
  control_plane_ready = true;
  provider_registry_ready = true;
  durable_ready = true;
  enforce_expected_context = true;
  record_count = record_count;
  audit_next_sequence = 1;
  audit_event_count = 0;
  metrics = record { idempotency_replay_count = 0; idempotency_conflict_count = 0 };
  records = records;
  idempotency_records = replicate 2 zero_idempotency;
  audit_events = replicate 256 zero_event;
}

abbrev pub empty_service : MemService
empty_service = service_of (replicate 4 zero_record) 0

pub empty_service-IsValid : IsValid empty_service
empty_service-IsValid = record {
  counted = sym (zero-unused 4);
  bounded = omega (arith, length-replicate 4 zero_record);
  unique = λ k. omega (arith, zero-unheld k 4);
  each = zero-RecordValid 4;
}

abbrev pub test_ctx : BlockCtx
test_ctx = record {
  request_id = codes "r1";
  prefix_group = codes "p";
  group_id = codes "g";
  block_hash = codes "h";
  placement_node = 1;
  placement_level = 2;
  hot_segment_id = 3;
  result_segment_id = 4;
}
