-- ===== src/Service/Idempotency.antt =====
-- Requests that are answered once: the idempotency functions of
-- components/mem_service/mem_service_daemon.c. The payload and the response are C strings; operations
-- and statuses are the numbers of the enums of mem_service_wire.h.
pub mod Replay
use mem_service.Base.{
  ℕ, ◌+◌, ◌-◌, ◌%◌, ◌^◌, Bool, true, false, not, ◌&&◌, ◌||◌, Option, none, some, List, [], ◌∷◌,
  ◌++◌, map, ltb, leb, ◌==◌, ◌!=◌, if◌then◌else◌, any_of, length, take, set, find_slot, is_some,
}
use mem_service.Base.Text.{Text, c_str, strcmp_eq, snprintf_text, codes, padded}
use mem_service.Service.{
  IdempotencyRecord, MemService, Metrics, zero_idempotency, idempotency_key_len,
  idempotency_response_len,
}
use mem_service.Service.Payload.{payload_get_string, payload_get_header_string, wire_checksum}

abbrev pub status_ok : ℕ
status_ok = 0

abbrev pub status_version_conflict : ℕ
status_version_conflict = 4

abbrev pub status_capacity_exceeded : ℕ
status_capacity_exceeded = 8

-- The operations from PUT_OBJECT to REGISTER_TRAINING_ARTIFACT that write.
abbrev pub writing_operations : ℕ → List Bool
writing_operations operation =
    (operation == 16)
    ∷ (operation == 32)
    ∷ (operation == 48)
    ∷ (operation == 64)
    ∷ (operation == 80)
    ∷ (operation == 96)
    ∷ []

abbrev pub action_is_commit : Option Text → Bool
action_is_commit none = false
action_is_commit (some action) = strcmp_eq action (codes "commit")

unfoldable pub operation_mutates : ℕ → Text → Bool
operation_mutates operation payload =
    if operation == 8
    then true
    else if operation == 9
    then action_is_commit (payload_get_string payload (codes "action") 32)
    else any_of (writing_operations operation)

abbrev pub idempotency_holds : Text → IdempotencyRecord → Bool
idempotency_holds key r = r.in_use && strcmp_eq r.key key

unfoldable pub find_idempotency_record : MemService → Text → Option (ℕ × IdempotencyRecord)
find_idempotency_record svc key =
    if length (c_str key) == 0
    then none
    else find_slot (idempotency_holds key) svc.idempotency_records

abbrev pub idempotency_is_free : IdempotencyRecord → Bool
idempotency_is_free r = not r.in_use

-- The slot is not marked: it is written when the operation is complete.
unfoldable pub alloc_idempotency_record : MemService → Option (ℕ × IdempotencyRecord)
alloc_idempotency_record svc = find_slot idempotency_is_free svc.idempotency_records

unfoldable pub payload_get_idempotency_key : Text → Option Text
payload_get_idempotency_key payload =
    payload_get_header_string payload (codes "idempotency_key") idempotency_key_len

unfoldable pub idempotency_request_checksum : Text → ℕ
idempotency_request_checksum payload = wire_checksum (c_str payload)

-- What the caller is told: to go on without a record, to go on and complete the record of a slot, or
-- a status and a response, after which nothing is run.
pub data Attempt : Type 0 where
  plain : Attempt
  pending : ℕ → Attempt
  answered : ℕ → Text → Attempt

abbrev pub key_response : Text → Text → ℕ → Text
key_response status key response_len =
    take (response_len - 1) (status ++ (codes "\nidempotency_key=" ++ (key ++ codes "\n")))

abbrev pub count_replay : MemService → MemService
count_replay svc = record svc {
  metrics = record (svc.metrics) {
    idempotency_replay_count = (svc.metrics.idempotency_replay_count + 1) % 2 ^ 64;
  };
}

abbrev pub count_conflict : MemService → MemService
count_conflict svc = record svc {
  metrics = record (svc.metrics) {
    idempotency_conflict_count = (svc.metrics.idempotency_conflict_count + 1) % 2 ^ 64;
  };
}

-- The copy ends at the first NUL of the stored response, for the reader of a C string.
abbrev pub replayed : IdempotencyRecord → ℕ → Text
replayed r response_len =
    c_str (
      take (if leb response_len r.response_len then response_len - 1 else r.response_len)
        r.response)

abbrev pub attempt_slot : Option (ℕ × IdempotencyRecord) → Text → ℕ → Attempt
attempt_slot none key response_len =
    answered status_capacity_exceeded
      (key_response (codes "status=capacity_exceeded") key response_len)
attempt_slot (some (i, _)) key response_len = pending i

unfoldable pub attempt_key :
    MemService → ℕ → Text → ℕ → Text → Option (ℕ × IdempotencyRecord) → Attempt × MemService
attempt_key svc operation payload response_len key none =
    (attempt_slot (alloc_idempotency_record svc) key response_len, svc)
attempt_key svc operation payload response_len key (some (_, r)) =
    if r.operation != operation || r.request_checksum != idempotency_request_checksum payload
    then (
      answered status_version_conflict
          (key_response (codes "status=version_conflict") key response_len),
      count_conflict svc,
    )
    else (answered r.status (replayed r response_len), count_replay svc)

abbrev pub attempt_with : MemService → ℕ → Text → ℕ → Option Text → Attempt × MemService
attempt_with svc operation payload response_len none = (plain, svc)
attempt_with svc operation payload response_len (some key) =
    attempt_key svc operation payload response_len key (find_idempotency_record svc key)

unfoldable pub try_idempotency_replay : MemService → ℕ → Text → ℕ → Attempt × MemService
try_idempotency_replay svc operation payload response_len =
    if not (operation_mutates operation payload)
    then (plain, svc)
    else attempt_with svc operation payload response_len (payload_get_idempotency_key payload)

abbrev pub stored_len : Text → ℕ
stored_len response =
    if leb idempotency_response_len (length (c_str response))
    then idempotency_response_len - 1
    else length (c_str response)

abbrev pub completed_record : ℕ → Text → ℕ → Text → Text → IdempotencyRecord
completed_record operation payload status response key = record {
  in_use = true;
  key = snprintf_text idempotency_key_len key;
  operation = operation;
  request_checksum = idempotency_request_checksum payload;
  status = status;
  response_len = stored_len response % 2 ^ 32;
  response = padded idempotency_response_len (take (stored_len response) (c_str response));
}

abbrev pub complete_with : MemService → ℕ → ℕ → Text → ℕ → Text → Option Text → MemService
complete_with svc i operation payload status response none = svc
complete_with svc i operation payload status response (some key) = record svc {
  idempotency_records =
      set svc.idempotency_records i (completed_record operation payload status response key);
}

unfoldable pub complete_idempotency_record : MemService → Attempt → ℕ → Text → ℕ → Text → MemService
complete_idempotency_record svc (pending i) operation payload status response =
    complete_with svc i operation payload status response (payload_get_idempotency_key payload)
complete_idempotency_record svc plain operation payload status response = svc
complete_idempotency_record svc (answered _ _) operation payload status response = svc

abbrev pub response_names : Text → Option Text → Bool
response_names record_key none = false
response_names record_key (some key) = strcmp_eq key record_key

unfoldable pub prune_slot : Text → IdempotencyRecord → IdempotencyRecord
prune_slot record_key r =
    if r.in_use && response_names record_key (payload_get_string r.response (codes "key") 96)
    then zero_idempotency
    else r

unfoldable pub prune_idempotency_for_record_key : MemService → Text → MemService
prune_idempotency_for_record_key svc record_key =
    if length (c_str record_key) == 0
    then svc
    else record svc { idempotency_records = map (prune_slot record_key) svc.idempotency_records }
