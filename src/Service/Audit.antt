-- ===== src/Service/Audit.antt =====
-- The audit log, a ring of the last events: the audit functions of
-- components/mem_service/mem_service_daemon.c. The text of mem_service_audit_log is left out; the
-- events that it lists are not.
pub mod Ring
pub mod Pruned
pub mod History
pub mod Kept
pub mod Log
use mem_service.Base.{
  ℕ, zero, suc, ◌+◌, ◌-◌, ◌%◌, ◌^◌, Bool, true, false, not, ◌&&◌, ◌||◌, Option, none, some, List,
  [], ◌∷◌, ltb, leb, ◌==◌, if◌then◌else◌, any_of, set, find_slot, count, map, is_none,
}
use mem_service.Base.Text.{Text, c_str, codes, snprintf_text}
use mem_service.Service.{AuditEvent, MemService, zero_event, max_audit_events, idempotency_key_len}
use mem_service.Service.Payload.{payload_get_header_string, wire_checksum}
use mem_service.Service.Idempotency.{operation_mutates, idempotency_request_checksum}

unfoldable pub audit_first_sequence : MemService → ℕ
audit_first_sequence svc =
    if svc.audit_event_count == 0 || svc.audit_next_sequence == 0
    then 1
    else if leb svc.audit_next_sequence svc.audit_event_count
    then 1
    else svc.audit_next_sequence - svc.audit_event_count

unfoldable pub find_audit_sequence : MemService → ℕ → Option (ℕ × AuditEvent)
find_audit_sequence svc sequence =
    if sequence == 0
    then none
    else find_slot (λ event. event.in_use && event.sequence == sequence) svc.audit_events

unfoldable pub keep_event : ℕ → AuditEvent → AuditEvent
keep_event first_kept event =
    if event.in_use && ltb event.sequence first_kept then zero_event else event

abbrev pub first_kept_sequence : MemService → ℕ → ℕ
first_kept_sequence svc max_events =
    if ltb max_events svc.audit_next_sequence then svc.audit_next_sequence - max_events else 1

abbrev pub retention_refused : MemService → ℕ → List Bool
retention_refused svc max_events =
    (max_events == 0)
    ∷ (leb max_audit_events max_events)
    ∷ (leb svc.audit_event_count max_events)
    ∷ (svc.audit_next_sequence == 0)
    ∷ []

unfoldable pub is_pruned : ℕ → AuditEvent → Bool
is_pruned first_kept event = event.in_use && ltb event.sequence first_kept

unfoldable pub apply_audit_retention : MemService → ℕ → Bool × MemService
apply_audit_retention svc max_events =
    if any_of (retention_refused svc max_events) then (false, svc) else (
      leb 1 (count (is_pruned (first_kept_sequence svc max_events)) svc.audit_events),
      record svc {
        audit_event_count =
            count
              (λ event.
                event.in_use && not (ltb event.sequence (first_kept_sequence svc max_events)))
              svc.audit_events;
        audit_events = map (keep_event (first_kept_sequence svc max_events)) svc.audit_events;
      },
    )

-- What handle_operation_with_limits does after an append, where it has a limit.
abbrev pub limit_audit : ℕ → Bool × MemService → MemService
limit_audit max_events (appended, svc) =
    if appended && ltb 0 max_events then (apply_audit_retention svc max_events).1 else svc

unfoldable pub status_is_fail_closed : ℕ → Bool
status_is_fail_closed status =
    any_of ((status == 2) ∷ (status == 3) ∷ (status == 4) ∷ (status == 5) ∷ (status == 6) ∷ [])

unfoldable pub should_audit_operation : ℕ → Text → ℕ → Bool
should_audit_operation operation payload status =
    operation_mutates operation payload || status_is_fail_closed status

-- The value of the first name, or of the second; an array that neither fills is empty.
abbrev pub or_else : Option Text → Option Text → Text
or_else (some v) o = v
or_else none (some v) = v
or_else none none = []

abbrev pub audit_string : Text → Text → Text → ℕ → Text
audit_string payload primary fallback out_len =
    or_else (payload_get_header_string payload primary out_len)
      (payload_get_header_string payload fallback out_len)

abbrev pub audit_only : Text → Text → ℕ → Text
audit_only payload primary out_len =
    or_else (payload_get_header_string payload primary out_len) none

-- What is audited beside the payload: a clock, and the reader of a number, which is `strtoull`.
pub record Observed : Type 0 where
  pub monotonic_ms : ℕ
  pub operation : ℕ
  pub status : ℕ
  pub response : Text
  pub idempotency_replay : Bool

-- An array that is empty is 0.
abbrev pub parse_value : (Text → ℕ) → Text → ℕ
parse_value parse [] = 0
parse_value parse (c ∷ cs) = parse (c ∷ cs)

abbrev pub audit_u64 : (Text → ℕ) → Text → Text → Text → ℕ
audit_u64 parse payload primary fallback =
    parse_value parse (audit_string payload primary fallback 64)

unfoldable pub audit_event : (Text → ℕ) → ℕ → Text → Observed → AuditEvent
audit_event parse sequence payload seen = record {
  in_use = true;
  sequence = sequence;
  monotonic_ms = seen.monotonic_ms;
  operation = seen.operation;
  status = seen.status;
  request_checksum = idempotency_request_checksum payload;
  response_checksum = wire_checksum (c_str seen.response);
  idempotency_replay = if seen.idempotency_replay then 1 else 0;
  key = snprintf_text 96 (audit_only payload (codes "key") 96);
  session_id =
      snprintf_text 64 (audit_string payload (codes "session_id") (codes "expected_session_id") 64);
  model_key =
      snprintf_text 64 (audit_string payload (codes "model_key") (codes "expected_model_key") 64);
  artifact_kind =
      snprintf_text 64
        (audit_string payload (codes "artifact_kind") (codes "expected_artifact_kind") 64);
  artifact_id =
      snprintf_text 96
        (audit_string payload (codes "artifact_id") (codes "expected_artifact_id") 96);
  idempotency_key =
      snprintf_text idempotency_key_len
        (audit_only payload (codes "idempotency_key") idempotency_key_len);
  version = audit_u64 parse payload (codes "version") (codes "expected_version");
  checksum = audit_u64 parse payload (codes "checksum") (codes "expected_checksum");
}

abbrev pub next_sequence : MemService → ℕ
next_sequence svc = if svc.audit_next_sequence == 0 then 1 else svc.audit_next_sequence

unfoldable pub append_event : MemService → AuditEvent → MemService
append_event svc event = record svc {
  audit_events = set svc.audit_events ((next_sequence svc - 1) % max_audit_events) event;
  audit_next_sequence = (next_sequence svc + 1) % 2 ^ 64;
  audit_event_count =
      if ltb svc.audit_event_count max_audit_events
      then svc.audit_event_count + 1
      else svc.audit_event_count;
}

unfoldable pub append_audit_event : (Text → ℕ) → MemService → Text → Observed → Bool × MemService
append_audit_event parse svc payload seen =
    if not (should_audit_operation seen.operation payload seen.status)
    then (false, svc)
    else (true, append_event svc (audit_event parse (next_sequence svc) payload seen))

abbrev pub take_event : Option (ℕ × AuditEvent) → List AuditEvent → List AuditEvent
take_event none events = events
take_event (some (_, event)) events = event ∷ events

-- The events from a sequence number on, at most `emit` of them, of the `n` numbers below the next.
unfoldable pub log_from : MemService → ℕ → ℕ → ℕ → List AuditEvent
log_from svc sequence zero emit = []
log_from svc sequence (suc n) zero = []
log_from svc sequence (suc n) (suc emit) =
    let without = log_from svc (suc sequence) n (suc emit) in
    let rest = log_from svc (suc sequence) n emit in
    if is_none (find_audit_sequence svc sequence)
    then without
    else take_event (find_audit_sequence svc sequence) rest

abbrev pub clamp_events : ℕ → ℕ
clamp_events max_events =
    if max_events == 0 then 16 else if ltb 32 max_events then 32 else max_events

abbrev pub clamp_start : MemService → ℕ → ℕ
clamp_start svc start =
    if start == 0 || ltb start (audit_first_sequence svc) then audit_first_sequence svc else start

unfoldable pub audit_log : MemService → ℕ → ℕ → List AuditEvent
audit_log svc start_sequence max_events =
    log_from svc (clamp_start svc start_sequence)
      (svc.audit_next_sequence - clamp_start svc start_sequence) (clamp_events max_events)
