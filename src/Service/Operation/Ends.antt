-- ===== src/Service/Operation/Ends.antt =====
-- A request is answered, and leaves a valid service.
use mem_service.Base.{
  ℕ, zero, suc, ◌<◌, ◌≤◌, ◌≡◌, refl, sym, ap, ◌∙◌, inl, inr, Bool, true, false, ◌&&◌, ◌||◌, some,
  [], ltb, ◌==◌, ◌!=◌, length, count, count-le-length, Bool-cases, Option-cases, arith,
}
use mem_service.Base.Text.{Text}
use mem_service.Service.{MemService, max_records}
use mem_service.Service.Records.Valid.{IsValid}
use mem_service.Service.Idempotency.{
  Attempt, plain, pending, answered, operation_mutates, status_ok, status_capacity_exceeded,
  payload_get_idempotency_key, find_idempotency_record, idempotency_request_checksum,
  try_idempotency_replay, attempt_key, complete_idempotency_record,
}
use mem_service.Service.Retention.{
  Kept, Retained, record_is_checkpoint, count_checkpoint_records, record_matches_retention_kind,
  retain_loop, has_expired, expire_loop, apply_record_retention,
}
use mem_service.Service.Retention.Oldest.Limit.{
  apply_checkpoint_retention-Ends, apply_record_retention-Ends, expire_loop-Fewer,
}
use mem_service.Service.Audit.{append_audit_event}
use mem_service.Service.Audit.{limit_audit}
use mem_service.Service.Operation.Alike.{SameTable, append_audit_event-Alike, limit_audit-Alike}
use mem_service.Service.Operation.{
  quota_response, Limits, Handler, Served, Seen, retain_checkpoints, retain_records, retain_after,
  run, run_attempt, exceeds_records, estimate_new_record_count, audited, observed, handle_operation,
  status_internal, failure_response, was_handled,
}

-- What changes the other tables only keeps the table of records valid.
SameTable-IsValid : (s t : MemService) → SameTable s t → IsValid s → IsValid t
SameTable-IsValid s t (counts, same) v = record {
  counted = counts ∙ v.counted ∙ ap (count (λ r. r.in_use)) (sym same);
  bounded = rw same v.bounded;
  unique = rw same v.unique;
  each = rw same v.each;
}

attempt-SameTable :
    (svc : MemService) (operation : ℕ) (payload : Text) (n : ℕ)
    → SameTable svc (try_idempotency_replay svc operation payload n).1
unfolding try_idempotency_replay attempt_key
attempt-SameTable svc operation payload n =
    elim (Bool-cases (operation_mutates operation payload)) [
      | inr reads ↦ rw reads (refl, refl)
      | inl writes ↦ elim (Option-cases (payload_get_idempotency_key payload)) [
        | inl unkeyed ↦ rw (writes, unkeyed) (refl, refl)
        | inr (key, keyed) ↦ elim (Option-cases (find_idempotency_record svc key)) [
          | inl missing ↦ rw (writes, keyed, missing) (refl, refl)
          | inr ((i, r), found) ↦
              elim (Bool-cases (
                r.operation != operation
                || r.request_checksum != idempotency_request_checksum payload)) [
                  | inl other ↦ rw (writes, keyed, found, other) (refl, refl)
                  | inr same ↦ rw (writes, keyed, found, same) (refl, refl)
                ]
        ]
      ]
    ]

complete-SameTable :
    (svc : MemService) (attempt : Attempt) (operation : ℕ) (payload : Text) (status : ℕ)
    (response : Text)
    → SameTable svc (complete_idempotency_record svc attempt operation payload status response)
unfolding complete_idempotency_record
complete-SameTable svc plain operation payload status response = (refl, refl)
complete-SameTable svc (answered _ _) operation payload status response = (refl, refl)
complete-SameTable svc (pending i) operation payload status response =
    elim (Option-cases (payload_get_idempotency_key payload)) [
      | inl unkeyed ↦ rw unkeyed (refl, refl)
      | inr (key, keyed) ↦ rw keyed (refl, refl)
    ]

audited-IsValid :
    (parse : Text → ℕ) (limits : Limits) (seen : Seen) (n operation : ℕ) (payload : Text)
    (attempt : Attempt) (served : Served)
    → IsValid served.1.1
    → IsValid (audited parse limits seen n operation payload attempt served).1.1
unfolding audited
audited-IsValid parse limits seen n operation payload attempt (status, (response, svc)) v =
    let first =
      append_audit_event parse svc payload
        (observed seen.audit_ms operation status response (was_handled attempt)) in
    let kept = limit_audit limits.max_audit_events first in
    let failed = failure_response n in
    let again = complete_idempotency_record kept attempt operation payload status_internal failed in
    let v1 = SameTable-IsValid svc first.1 (append_audit_event-Alike parse svc payload _).1 v in
    let v2 = SameTable-IsValid first.1 kept (limit_audit-Alike limits first).1 v1 in
    elim (Bool-cases (
      first.0
      && (seen.save_failed && (status == status_ok && operation_mutates operation payload)))) [
        | inr saved ↦ rw saved v2
        | inl lost ↦ rw lost (
            SameTable-IsValid again _ (append_audit_event-Alike parse again payload _).1 (
              SameTable-IsValid kept again
                (complete-SameTable kept attempt operation payload status_internal failed) v2))
      ]

-- Without a limit on the number, only the age counts.
aged-Ends :
    (fuel : ℕ) (svc : MemService) (max_age : ℕ) (kept : Kept) (now : ℕ) (storage_root : Text)
    → IsValid svc
    → 1 ≤ max_age
    → (r : Bool × Retained) × (apply_record_retention (suc fuel) svc 0 max_age kept now storage_root
        ≡ some r)
      × IsValid r.1.1
unfolding apply_record_retention retain_loop
aged-Ends fuel svc max_age kept now storage_root v aged =
    let unlimited : (max_age == 0) ≡ false = ground arith in
    let on : ltb 0 max_age ≡ true = ground arith in
    let done =
      expire_loop (has_expired kept now max_age) storage_root 0 (length svc.records)
        (false, ([], svc)) in
    (
      done,
      rw (unlimited, on) refl,
      (expire_loop-Fewer kept now max_age storage_root 0 (length svc.records) false ([], svc) v).0,
    )

module _ (fuel : ℕ) (enough : max_records ≤ fuel) (limits : Limits) (storage_root : Text) where
  retain_checkpoints-Ends :
      (operation status : ℕ) (svc : MemService)
      → IsValid svc
      → (svc' : MemService) × (retain_checkpoints
            (suc fuel)
            limits
            storage_root
            operation
            status
            svc
          ≡ some svc')
        × IsValid svc'
  unfolding retain_checkpoints count_checkpoint_records
  retain_checkpoints-Ends operation status svc v =
      elim (Bool-cases
        (status == status_ok && (operation == 96 && ltb 0 limits.max_checkpoint_records))) [
          | inr off ↦ (svc, rw off refl, v)
          | inl on ↦
              let (pruned, gone, svc', ran, v', _) =
                apply_checkpoint_retention-Ends (suc fuel) svc limits.max_checkpoint_records
                  storage_root v (ground (arith, on))
                  (omega
                    (arith, enough, v.bounded, count-le-length record_is_checkpoint svc.records)) in
              (svc', rw (on, ran) refl, v')
        ]

  retain_records-Ends :
      (now_ms operation : ℕ) (payload : Text) (status : ℕ) (svc : MemService)
      → IsValid svc
      → (svc' : MemService) × (retain_records
            (suc fuel)
            limits
            storage_root
            now_ms
            operation
            payload
            status
            svc
          ≡ some svc')
        × IsValid svc'
  unfolding retain_records
  retain_records-Ends now_ms operation payload status svc v =
      elim (Bool-cases (
        status == status_ok
        && (operation_mutates operation payload
            && (ltb 0 limits.max_retained_records || ltb 0 limits.max_retained_record_age_ms)))) [
              | inr off ↦ (svc, rw off refl, v)
              | inl on ↦ elim (Bool-cases (limits.max_retained_records == 0)) [
                | inr some_max ↦
                    let (pruned, gone, svc', ran, v', _) =
                      apply_record_retention-Ends limits.retained (suc fuel) svc
                        limits.max_retained_records limits.max_retained_record_age_ms now_ms
                        storage_root v (ground (arith, some_max))
                        (omega (
                          arith,
                          enough,
                          v.bounded,
                          count-le-length (record_matches_retention_kind limits.retained)
                              svc.records,
                        )) in
                    (svc', rw (on, ran) refl, v')
                | inl no_max ↦
                    let zeroth : limits.max_retained_records ≡ 0 = ground (arith, no_max) in
                    let ((pruned, (gone, svc')), ran, v') =
                      aged-Ends fuel svc limits.max_retained_record_age_ms limits.retained now_ms
                        storage_root v (ground (arith, on, no_max)) in
                    (svc', rw (on, zeroth, ran) refl, v')
              ]
            ]

  run-Ends :
      (dispatch : Handler) (seen : Seen) (n : ℕ) (svc : MemService) (operation : ℕ) (payload : Text)
      → IsValid svc
      → IsValid (dispatch svc operation payload).1.1
      → (end : Served) × (run (suc fuel) dispatch limits storage_root seen n svc operation payload
          ≡ some end)
        × IsValid end.1.1
  unfolding run retain_after
  run-Ends dispatch seen n svc operation payload v w =
      elim (Bool-cases (
        exceeds_records limits.max_records svc.record_count
          (estimate_new_record_count svc operation payload))) [
            | inl full ↦
                let response =
                  quota_response limits.max_records svc
                    (estimate_new_record_count svc operation payload) n in
                ((status_capacity_exceeded, (response, svc)), rw full refl, v)
            | inr room ↦
                let (status, (response, s)) = dispatch svc operation payload in
                let (checked, ran, v1) = retain_checkpoints-Ends operation status s w in
                let (kept, ran', v2) =
                  retain_records-Ends seen.wall_ms operation payload status checked v1 in
                ((status, (response, kept)), rw (room, ran, ran') refl, v2)
          ]

  run_attempt-Ends :
      (dispatch : Handler) (seen : Seen) (n operation : ℕ) (payload : Text) (attempt : Attempt)
      (svc : MemService)
      → IsValid svc
      → IsValid (dispatch svc operation payload).1.1
      → (end : Served) × (run_attempt
            (suc fuel)
            dispatch
            limits
            storage_root
            seen
            n
            operation
            payload
            (attempt, svc)
          ≡ some end)
        × IsValid end.1.1
  unfolding run_attempt
  run_attempt-Ends dispatch seen n operation payload (answered status response) svc v w =
      ((status, (response, svc)), refl, v)
  run_attempt-Ends dispatch seen n operation payload plain svc v w =
      let ((status, (response, s)), ran, v') = run-Ends dispatch seen n svc operation payload v w in
      let t = complete_idempotency_record s plain operation payload status response in
      (
        (status, (response, t)),
        rw ran refl,
        SameTable-IsValid s t (complete-SameTable s plain operation payload status response) v',
      )
  run_attempt-Ends dispatch seen n operation payload (pending i) svc v w =
      let ((status, (response, s)), ran, v') = run-Ends dispatch seen n svc operation payload v w in
      let t = complete_idempotency_record s (pending i) operation payload status response in
      (
        (status, (response, t)),
        rw ran refl,
        SameTable-IsValid s t (complete-SameTable s (pending i) operation payload status response)
            v',
      )

-- On a valid service every request is answered, whatever the limits, if its handler leaves a valid
-- service wherever it is run; fuel for the records of a whole table is enough. The service is valid
-- after.
pub handle_operation-Ends :
    (fuel : ℕ) (parse : Text → ℕ) (dispatch : Handler) (limits : Limits) (storage_root : Text)
    (seen : Seen) (n : ℕ) (svc : MemService) (operation : ℕ) (payload : Text)
    → max_records < fuel
    → IsValid svc
    → ((s : MemService) → IsValid s → IsValid (dispatch s operation payload).1.1)
    → (end : Served) × (handle_operation fuel parse dispatch limits storage_root seen n svc
          operation payload
        ≡ some end)
      × IsValid end.1.1
unfolding handle_operation
handle_operation-Ends zero parse dispatch limits storage_root seen n svc operation payload enough v
      w =
    absurd (omega (arith, enough))
handle_operation-Ends (suc fuel) parse dispatch limits storage_root seen n svc operation payload
      enough v w =
    let attempt = try_idempotency_replay svc operation payload n in
    let v1 = SameTable-IsValid svc attempt.1 (attempt-SameTable svc operation payload n) v in
    let (served, ran, v2) =
      run_attempt-Ends fuel (omega (arith, enough)) limits storage_root dispatch seen n operation
        payload attempt.0 attempt.1 v1 (w attempt.1 v1) in
    (
      audited parse limits seen n operation payload attempt.0 served,
      rw ran refl,
      audited-IsValid parse limits seen n operation payload attempt.0 served v2,
    )
