-- ===== src/Service/Tests/Requests.antt =====
-- Payloads of fields, and a request that is sent twice.
use mem_service.Base.{◌≡◌, refl, inl, true, some, List, [], ◌∷◌, find_slot, length, arith}
use mem_service.Base.Text.{Text, c_str, codes, text_eq}
use mem_service.Service.{MemService}
use mem_service.Service.Payload.{
  wire_payload_get_string, payload_get_header_string, wire_payload_append_field, cons_line, lines,
  byte_is, has_byte, first_header_value,
}
use mem_service.Service.Payload.Fields.{Field, append_all, assoc, append_all-get_string}
use mem_service.Service.Idempotency.{
  Attempt, pending, answered, operation_mutates, find_idempotency_record, alloc_idempotency_record,
  payload_get_idempotency_key, attempt_key, try_idempotency_replay, complete_idempotency_record,
  count_conflict, key_response, status_version_conflict,
}
use mem_service.Service.Idempotency.Replay.{try_idempotency_replay-conflict}
use mem_service.Service.Tests.{empty_service}

abbrev fields : List Field
fields = (codes "k", codes "v") ∷ (codes "idempotency_key", codes "i") ∷ []

abbrev pub request : Text
request = codes "k=v\nidempotency_key=i\n"

built : append_all [] 64 fields ≡ some request
unfolding append_all wire_payload_append_field c_str
built = refl

append_all-get_string_example :
    (wire_payload_get_string request (codes "idempotency_key") 96
      ≡ assoc (codes "idempotency_key") 96 fields)
    × (payload_get_header_string request (codes "idempotency_key") 96
        ≡ assoc (codes "idempotency_key") 96 fields)
append_all-get_string_example =
    append_all-get_string fields 64 (codes "idempotency_key") 96 (ground arith) (ground arith)
      (omega arith) built

keyed : payload_get_idempotency_key request ≡ some (codes "i")
unfolding payload_get_idempotency_key payload_get_header_string c_str lines cons_line
    first_header_value has_byte byte_is text_eq
keyed = refl

abbrev first : Attempt × MemService
first = try_idempotency_replay empty_service 16 request 256

pub let_through : first ≡ (pending 0, empty_service)
unfolding try_idempotency_replay operation_mutates payload_get_idempotency_key
    payload_get_header_string c_str lines cons_line first_header_value has_byte byte_is text_eq
    find_idempotency_record alloc_idempotency_record find_slot attempt_key
let_through = refl

abbrev response : Text
response = codes "status=ok\n"

abbrev completed : MemService
completed = complete_idempotency_record empty_service (pending 0) 16 request 0 response

response_len : length (c_str response) ≡ 10
unfolding c_str
response_len = refl

writes : operation_mutates 32 request ≡ true
unfolding operation_mutates
writes = refl

try_idempotency_replay-conflict_example : try_idempotency_replay completed 32 request 256 ≡ (
  answered status_version_conflict (key_response (codes "status=version_conflict") (codes "i") 256),
  count_conflict completed,
)
try_idempotency_replay-conflict_example =
    try_idempotency_replay-conflict 16 request 0 response 256 0 empty_service empty_service 32
      request (codes "i") let_through refl writes keyed keyed (inl (omega arith))
