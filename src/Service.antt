-- ===== src/Service.antt =====
-- The state of a service: struct mem_service and its parts (components/mem_service/mem_service.h),
-- and mem_service_init of mem_service_metadata.c. Character arrays are lists of bytes; kinds and
-- states are the numbers of their enums, since a record that is copied in may hold any; an `int64_t` is its bit pattern.
pub mod Records
pub mod Keys
pub mod Metadata
pub mod Payload
pub mod Idempotency
pub mod Retention
pub mod Audit
pub mod Operation
mod Tests
use mem_service.Base.{ℕ, ◌%◌, ◌^◌, Bool, true, false, not, List, [], ◌∷◌, replicate, any_of}
use mem_service.Base.Text.{Text}

abbrev pub max_records : ℕ
max_records = 1024

abbrev pub max_group_members : ℕ
max_group_members = 4

abbrev pub max_idempotency_records : ℕ
max_idempotency_records = 64

abbrev pub idempotency_key_len : ℕ
idempotency_key_len = 96

abbrev pub idempotency_response_len : ℕ
idempotency_response_len = 4096

abbrev pub max_audit_events : ℕ
max_audit_events = 256

abbrev pub kind_prefix_group : ℕ
kind_prefix_group = 1

abbrev pub kind_request_prefix : ℕ
kind_request_prefix = 2

abbrev pub kind_block_meta : ℕ
kind_block_meta = 3

abbrev pub kind_training_artifact : ℕ
kind_training_artifact = 16

abbrev pub state_missing : ℕ
state_missing = 0

abbrev pub state_filled : ℕ
state_filled = 1

abbrev pub state_hot : ℕ
state_hot = 2

abbrev pub state_reloaded : ℕ
state_reloaded = 3

-- An array of bytes after `memset`.
abbrev pub zeroes : ℕ → Text
zeroes n = replicate n 0

pub record Record : Type 0 where
  pub in_use : Bool
  pub kind : ℕ
  pub key : Text
  pub request_id : Text
  pub prefix_group : Text
  pub group_id : Text
  pub block_hash : Text
  pub session_id : Text
  pub model_key : Text
  pub artifact_kind : Text
  pub artifact_id : Text
  pub placement_node : ℕ
  pub placement_level : ℕ
  pub hot_segment_id : ℕ
  pub state : ℕ
  pub version : ℕ
  pub last_result_segment : ℕ
  pub object_owner_node : ℕ
  pub object_payload_kind : ℕ
  pub object_backing_offset : ℕ
  pub object_backing_len : ℕ
  pub object_payload_checksum : ℕ
  pub object_backend_kind : ℕ
  pub object_backend_node : ℕ
  pub object_backend_device_cna : ℕ
  pub object_backend_flags : ℕ
  pub object_backend_block_hi : ℕ
  pub object_backend_block_lo : ℕ
  pub object_backend_block_version : ℕ
  pub object_backend_block_offset : ℕ
  pub object_backend_block_bytes : ℕ
  pub object_backend_block_checksum : ℕ
  pub object_publish_monotonic_ms : ℕ
  pub object_publish_supernode_ms : ℕ
  pub object_publish_supernode_offset_ms : ℕ
  pub member_count : ℕ
  pub member_block_hashes : List Text

abbrev pub zero_record : Record
zero_record = record {
  in_use = false;
  kind = 0;
  key = zeroes 96;
  request_id = zeroes 64;
  prefix_group = zeroes 64;
  group_id = zeroes 64;
  block_hash = zeroes 96;
  session_id = zeroes 64;
  model_key = zeroes 64;
  artifact_kind = zeroes 64;
  artifact_id = zeroes 96;
  placement_node = 0;
  placement_level = 0;
  hot_segment_id = 0;
  state = state_missing;
  version = 0;
  last_result_segment = 0;
  object_owner_node = 0;
  object_payload_kind = 0;
  object_backing_offset = 0;
  object_backing_len = 0;
  object_payload_checksum = 0;
  object_backend_kind = 0;
  object_backend_node = 0;
  object_backend_device_cna = 0;
  object_backend_flags = 0;
  object_backend_block_hi = 0;
  object_backend_block_lo = 0;
  object_backend_block_version = 0;
  object_backend_block_offset = 0;
  object_backend_block_bytes = 0;
  object_backend_block_checksum = 0;
  object_publish_monotonic_ms = 0;
  object_publish_supernode_ms = 0;
  object_publish_supernode_offset_ms = 0;
  member_count = 0;
  member_block_hashes = replicate max_group_members (zeroes 96);
}

pub record IdempotencyRecord : Type 0 where
  pub in_use : Bool
  pub key : Text
  pub operation : ℕ
  pub request_checksum : ℕ
  pub status : ℕ
  pub response_len : ℕ
  pub response : Text

abbrev pub zero_idempotency : IdempotencyRecord
zero_idempotency = record {
  in_use = false;
  key = zeroes idempotency_key_len;
  operation = 0;
  request_checksum = 0;
  status = 0;
  response_len = 0;
  response = zeroes idempotency_response_len;
}

pub record AuditEvent : Type 0 where
  pub in_use : Bool
  pub sequence : ℕ
  pub monotonic_ms : ℕ
  pub operation : ℕ
  pub status : ℕ
  pub request_checksum : ℕ
  pub response_checksum : ℕ
  pub idempotency_replay : ℕ
  pub key : Text
  pub session_id : Text
  pub model_key : Text
  pub artifact_kind : Text
  pub artifact_id : Text
  pub idempotency_key : Text
  pub version : ℕ
  pub checksum : ℕ

abbrev pub zero_event : AuditEvent
zero_event = record {
  in_use = false;
  sequence = 0;
  monotonic_ms = 0;
  operation = 0;
  status = 0;
  request_checksum = 0;
  response_checksum = 0;
  idempotency_replay = 0;
  key = zeroes 96;
  session_id = zeroes 64;
  model_key = zeroes 64;
  artifact_kind = zeroes 64;
  artifact_id = zeroes 96;
  idempotency_key = zeroes idempotency_key_len;
  version = 0;
  checksum = 0;
}

-- Of struct mem_service_metrics, the counters that the functions of this part change.
pub record Metrics : Type 0 where
  pub idempotency_replay_count : ℕ
  pub idempotency_conflict_count : ℕ

-- The registry of providers, the member `providers`, is that of Provider/Registry.
pub record MemService : Type 0 where
  pub control_plane_ready : Bool
  pub provider_registry_ready : Bool
  pub durable_ready : Bool
  pub enforce_expected_context : Bool
  pub record_count : ℕ
  pub audit_next_sequence : ℕ
  pub audit_event_count : ℕ
  pub metrics : Metrics
  pub records : List Record
  pub idempotency_records : List IdempotencyRecord
  pub audit_events : List AuditEvent

-- The answer is `true` for 0. The set-up of the registry, which comes last, does not fail.
unfoldable pub init : Bool → Bool → Bool → Bool × MemService
init control_plane_ready provider_registry_ready durable_ready = (
  not (
      any_of
        ((not control_plane_ready) ∷ (not provider_registry_ready) ∷ (not durable_ready) ∷ [])),
  record {
    control_plane_ready = control_plane_ready;
    provider_registry_ready = provider_registry_ready;
    durable_ready = durable_ready;
    enforce_expected_context = true;
    record_count = 0;
    audit_next_sequence = 1;
    audit_event_count = 0;
    metrics = record { idempotency_replay_count = 0; idempotency_conflict_count = 0 };
    records = replicate max_records zero_record;
    idempotency_records = replicate max_idempotency_records zero_idempotency;
    audit_events = replicate max_audit_events zero_event;
  },
)
