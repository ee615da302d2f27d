-- ===== src/Service/Tests/Operations.antt =====
-- A request that is handled, by a handler that puts one record, and that comes again.
use mem_service.Base.{ℕ, ◌≡◌, refl, false, Option, none, some, [], length, count, find_slot, arith}
use mem_service.Base.Text.{Text, c_str, codes, text_eq, snprintf_text}
use mem_service.Service.{MemService}
use mem_service.Service.Records.{alloc_in, alloc_record, find_record}
use mem_service.Service.Records.Valid.{IsValid}
use mem_service.Service.Metadata.{put_record}
use mem_service.Service.Metadata.Puts.{put_record_lem}
use mem_service.Service.Metadata.Reachable.{snprintf_key}
use mem_service.Service.Payload.{
  payload_get_string, payload_get_header_string, wire_payload_get_string, cons_line, lines, byte_is,
  first_value, has_byte, first_header_value,
}
use mem_service.Service.Idempotency.{
  operation_mutates, find_idempotency_record, alloc_idempotency_record, payload_get_idempotency_key,
  attempt_key, try_idempotency_replay, complete_idempotency_record,
}
use mem_service.Service.Retention.{
  apply_record_retention, retain_loop, expire_loop, count_retained_kind_records,
  record_matches_retention_kind,
}
use mem_service.Service.Audit.{
  should_audit_operation, append_audit_event, append_event, apply_audit_retention,
}
use mem_service.Service.Operation.{
  Limits, Handler, Served, Seen, estimate_new_record_count, retain_checkpoints, retain_records,
  retain_after, run, run_attempt, audited, handle_operation,
}
use mem_service.Service.Operation.Once.{handle_operation_once}
use mem_service.Service.Operation.Ends.{handle_operation-Ends}
use mem_service.Service.Tests.{empty_service, empty_service-IsValid}
use mem_service.Service.Tests.Requests.{request, let_through}
use mem_service.Service.Tests.Retained.{checkpoint, checkpoint-RecordValid, put-IsValid, every}

abbrev test_limits : Limits
test_limits = record {
  max_records = 0;
  max_payload_bytes = 0;
  max_audit_events = 8;
  max_checkpoint_records = 0;
  max_retained_records = 3;
  max_retained_record_age_ms = 0;
  retained = every;
}

abbrev seen : Seen
seen = record { wall_ms = 5; audit_ms = 6; failure_ms = 7; save_failed = false }

abbrev handler : Handler
handler svc operation payload =
    (0, (codes "status=ok\n", (put_record svc (codes "k") (checkpoint (codes "k") 1)).1))

-- It must not be run the second time.
abbrev other_handler : Handler
other_handler svc operation payload = (9, (codes "status=unsupported\n", svc))

abbrev parse : Text → ℕ
parse text = length text

abbrev served_of : Option Served → Served
served_of none = (0, ([], empty_service))
served_of (some served) = served

abbrev first : Served
first =
    served_of (handle_operation 3 parse handler test_limits [] seen 256 empty_service 16 request)

handled :
    handle_operation 3 parse handler test_limits [] seen 256 empty_service 16 request
    ≡ some (0, (codes "status=ok\n", first.1.1))
unfolding handle_operation run_attempt run retain_after retain_checkpoints retain_records audited
    estimate_new_record_count append_audit_event append_event apply_audit_retention
    apply_record_retention retain_loop expire_loop count_retained_kind_records
    record_matches_retention_kind try_idempotency_replay operation_mutates
    payload_get_idempotency_key payload_get_header_string payload_get_string wire_payload_get_string
    first_value c_str lines cons_line first_header_value has_byte byte_is text_eq
    find_idempotency_record alloc_idempotency_record find_slot attempt_key
    complete_idempotency_record put_record find_record alloc_record alloc_in snprintf_text count
    should_audit_operation
handled = refl

alone :
    (handler empty_service 16 request).1.1.idempotency_records ≡ empty_service.idempotency_records
unfolding put_record find_record find_slot alloc_record alloc_in
alone = refl

response_len : length (c_str (codes "status=ok\n")) ≡ 10
unfolding c_str
response_len = refl

handle_operation_once_example :
    (last : MemService) × (handle_operation 1 parse other_handler test_limits [] seen 256 first.1.1
        16 request
      ≡ some (0, (c_str (codes "status=ok\n"), last)))
    × (last.records ≡ first.1.1.records)
handle_operation_once_example =
    handle_operation_once 3 1 parse handler other_handler test_limits test_limits [] seen seen 256
      empty_service 16 request let_through alone handled (omega (arith, response_len))
      (omega (arith, response_len)) refl

handler-IsValid : (s : MemService) → IsValid s → IsValid (handler s 16 request).1.1
unfolding c_str
handler-IsValid s v =
    let r = checkpoint (codes "k") 1 in
    put-IsValid s (codes "k") r _
      (put_record_lem s (codes "k") r refl (snprintf_key (codes "k") (omega arith)))
      (checkpoint-RecordValid (codes "k") 1) v

handle_operation-Ends_example :
    (end : Served) × (handle_operation 1025 parse handler test_limits [] seen 256 empty_service 16
        request
      ≡ some end)
    × IsValid end.1.1
handle_operation-Ends_example =
    handle_operation-Ends 1025 parse handler test_limits [] seen 256 empty_service 16 request
      (omega arith) empty_service-IsValid handler-IsValid
