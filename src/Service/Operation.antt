-- ===== src/Service/Operation.antt =====
-- One request from its payload to its response: mem_service_handle_operation_with_limits of
-- components/mem_service/mem_service_daemon.c. The handlers behind mem_service_dispatch_operation are
-- a parameter, which may do anything; the store, the journal and the metrics of operations are left
-- out, except whether a save failed.
pub mod Alike
pub mod Fresh
pub mod Once
pub mod Ends
use mem_service.Base.{
  ℕ, zero, suc, ◌+◌, ◌-◌, ◌/◌, ◌%◌, Bool, true, false, not, ◌&&◌, ◌||◌, Option, none, some, List,
  [], ◌∷◌, ◌++◌, ltb, leb, ◌==◌, if◌then◌else◌, take, is_none,
}
use mem_service.Base.Text.{Text, c_str, codes}
use mem_service.Service.{Record, MemService}
use mem_service.Service.Records.{find_record}
use mem_service.Service.Keys.{build_prefix_key_from_parts, build_block_key_from_hash}
use mem_service.Service.Payload.{payload_get_string}
use mem_service.Service.Idempotency.{
  Attempt, plain, pending, answered, operation_mutates, try_idempotency_replay,
  complete_idempotency_record, status_ok, status_capacity_exceeded,
}
use mem_service.Service.Retention.{
  Kept, Retained, apply_checkpoint_retention, apply_record_retention,
}
use mem_service.Service.Audit.{Observed, append_audit_event, limit_audit}

infixl 10 ◌>>=◌
abbrev pub ◌>>=◌ : {A B : Type 0} → Option A → (A → Option B) → Option B
none >>= f = none
some a >>= f = f a

-- `limits == NULL` is no limit, as 0 is for each.
pub record Limits : Type 0 where
  pub max_records : ℕ
  pub max_payload_bytes : ℕ
  pub max_audit_events : ℕ
  pub max_checkpoint_records : ℕ
  pub max_retained_records : ℕ
  pub max_retained_record_age_ms : ℕ
  pub retained : Kept

-- The number of records that a key adds.
abbrev pub one_if_new : MemService → Text → ℕ
one_if_new svc key = if is_none (find_record svc key) then 1 else 0

-- `none` is UINT64_MAX.
abbrev pub estimate_new_key_record_count : MemService → Option Text → Option ℕ
estimate_new_key_record_count svc none = none
estimate_new_key_record_count svc (some key) = some (one_if_new svc key)

abbrev pub estimate_new_kv_record_count : MemService → Option Text → Option ℕ
estimate_new_kv_record_count svc none = none
estimate_new_kv_record_count svc (some block_hash) =
    some (one_if_new svc (build_block_key_from_hash block_hash 96))

abbrev pub added : ℕ → Option ℕ → Option ℕ
added n none = none
added n (some m) = some (n + m)

abbrev pub estimate_new_prefix_record_count :
    MemService → Option Text → Option Text → Option Text → Option ℕ
estimate_new_prefix_record_count svc (some request_id) (some prefix_group) block_hash =
    added (one_if_new svc (build_prefix_key_from_parts request_id prefix_group 96))
      (estimate_new_kv_record_count svc block_hash)
estimate_new_prefix_record_count svc (some request_id) none block_hash = none
estimate_new_prefix_record_count svc none prefix_group block_hash = none

unfoldable pub estimate_new_record_count : MemService → ℕ → Text → Option ℕ
estimate_new_record_count svc operation payload =
    if operation == 16 || operation == 64 || operation == 80 || operation == 96
    then estimate_new_key_record_count svc (payload_get_string payload (codes "key") 96)
    else if operation == 48
    then estimate_new_kv_record_count svc (payload_get_string payload (codes "block_hash") 96)
    else if operation == 32
    then estimate_new_prefix_record_count svc (payload_get_string payload (codes "request_id") 64)
        (payload_get_string payload (codes "prefix_group") 64)
        (payload_get_string payload (codes "block_hash") 96)
    else if operation_mutates operation payload
    then none
    else some 0

abbrev pub exceeds_records : ℕ → ℕ → Option ℕ → Bool
exceeds_records max_records record_count none = ltb 0 max_records
exceeds_records max_records record_count (some new_records) =
    ltb 0 max_records
    && (ltb 0 new_records
        && (leb max_records record_count || ltb (max_records - record_count) new_records))

-- `%PRIu64`: at most 20 digits.
unfoldable pub digits : ℕ → ℕ → Text
digits zero n = []
digits (suc places) n =
    let high = digits places (n / 10) in
    if ltb n 10 then (b'0' + n) ∷ [] else high ++ (b'0' + n % 10) ∷ []

abbrev pub required : Option ℕ → ℕ
required none = 0
required (some n) = n

abbrev pub quota_response : ℕ → MemService → Option ℕ → ℕ → Text
quota_response max_records svc new_records response_len = take (response_len - 1) (
    codes "status=capacity_exceeded\nquota=max_records\nmax_records="
    ++ (digits 20 max_records
        ++ (codes "\nrecord_count="
            ++ (digits 20 svc.record_count
                ++ (codes "\nrequired_records="
                    ++ (digits 20 (required new_records) ++ codes "\n"))))))

-- A status, a response, and the service after.
abbrev pub Served : Type 0
Served = ℕ × (Text × MemService)

abbrev pub Handler : Type 0
Handler = MemService → ℕ → Text → Served

abbrev pub service_after : Option (Bool × Retained) → Option MemService
service_after none = none
service_after (some (pruned, (gone, svc))) = some svc

unfoldable pub retain_checkpoints : ℕ → Limits → Text → ℕ → ℕ → MemService → Option MemService
retain_checkpoints fuel limits storage_root operation status svc =
    if status == status_ok && (operation == 96 && ltb 0 limits.max_checkpoint_records)
    then service_after
        (apply_checkpoint_retention fuel svc limits.max_checkpoint_records storage_root)
    else some svc

unfoldable pub retain_records :
    ℕ → Limits → Text → ℕ → ℕ → Text → ℕ → MemService → Option MemService
retain_records fuel limits storage_root now_ms operation payload status svc =
    if status == status_ok
      && (operation_mutates operation payload
          && (ltb 0 limits.max_retained_records || ltb 0 limits.max_retained_record_age_ms))
    then service_after (
        apply_record_retention fuel svc limits.max_retained_records
          limits.max_retained_record_age_ms limits.retained now_ms storage_root)
    else some svc

-- What is seen while one request is handled: the clocks, and whether the journal or the store fails.
pub record Seen : Type 0 where
  pub wall_ms : ℕ
  pub audit_ms : ℕ
  pub failure_ms : ℕ
  pub save_failed : Bool

unfoldable pub retain_after : ℕ → Limits → Text → Seen → ℕ → Text → Served → Option Served
retain_after fuel limits storage_root seen operation payload (status, (response, svc)) = do
  checked ← retain_checkpoints fuel limits storage_root operation status svc
  kept ← retain_records fuel limits storage_root seen.wall_ms operation payload status checked
  some (status, (response, kept))

-- A request that is not answered from a record.
unfoldable pub run : ℕ → Handler → Limits → Text → Seen → ℕ → MemService → ℕ → Text → Option Served
run fuel dispatch limits storage_root seen response_len svc operation payload =
    let new_records = estimate_new_record_count svc operation payload in
    if exceeds_records limits.max_records svc.record_count new_records
    then some (
      status_capacity_exceeded,
      (quota_response limits.max_records svc new_records response_len, svc),
    )
    else retain_after fuel limits storage_root seen operation payload
        (dispatch svc operation payload)

abbrev pub completed : Attempt → ℕ → Text → Option Served → Option Served
completed attempt operation payload none = none
completed attempt operation payload (some (status, (response, svc))) =
    some (
      status,
      (response, complete_idempotency_record svc attempt operation payload status response),
    )

unfoldable pub run_attempt :
    ℕ → Handler → Limits → Text → Seen → ℕ → ℕ → Text → Attempt × MemService → Option Served
run_attempt fuel dispatch limits storage_root seen response_len operation payload
      (answered status response, svc) =
    some (status, (response, svc))
run_attempt fuel dispatch limits storage_root seen response_len operation payload (plain, svc) =
    completed plain operation payload
      (run fuel dispatch limits storage_root seen response_len svc operation payload)
run_attempt fuel dispatch limits storage_root seen response_len operation payload (pending i, svc) =
    completed (pending i) operation payload
      (run fuel dispatch limits storage_root seen response_len svc operation payload)

abbrev pub was_handled : Attempt → Bool
was_handled plain = false
was_handled (pending i) = false
was_handled (answered status response) = true

abbrev pub observed : ℕ → ℕ → ℕ → Text → Bool → Observed
observed ms operation status response handled = record {
  monotonic_ms = ms;
  operation = operation;
  status = status;
  response = response;
  idempotency_replay = handled;
}

abbrev pub status_internal : ℕ
status_internal = 10

abbrev pub failure_response : ℕ → Text
failure_response response_len = take (response_len - 1) (codes "durable_store_save_failed\n")

-- The request is audited; if that cannot be saved, a write that went well is a failure after all.
unfoldable pub audited : (Text → ℕ) → Limits → Seen → ℕ → ℕ → Text → Attempt → Served → Served
audited parse limits seen response_len operation payload attempt (status, (response, svc)) =
    let first =
      append_audit_event parse svc payload
        (observed seen.audit_ms operation status response (was_handled attempt)) in
    let kept = limit_audit limits.max_audit_events first in
    let failed = failure_response response_len in
    if first.0 && (seen.save_failed && (status == status_ok && operation_mutates operation payload))
    then (
      status_internal,
      (
        failed,
        (append_audit_event parse
            (complete_idempotency_record kept attempt operation payload status_internal failed)
            payload
            (observed seen.failure_ms operation status_internal failed (was_handled attempt))).1,
      ),
    )
    else (status, (response, kept))

unfoldable pub handle_operation :
    ℕ → (Text → ℕ) → Handler → Limits → Text → Seen → ℕ → MemService → ℕ → Text → Option Served
handle_operation fuel parse dispatch limits storage_root seen response_len svc operation payload =
    do
      let attempt = try_idempotency_replay svc operation payload response_len
      served ←
          run_attempt fuel dispatch limits storage_root seen response_len operation payload attempt
      some (audited parse limits seen response_len operation payload attempt.0 served)
