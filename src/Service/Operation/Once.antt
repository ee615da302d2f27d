-- ===== src/Service/Operation/Once.antt =====
-- A request that writes, under a key of its own, is run once.
use mem_service.Base.{
  ℕ, ◌<◌, ◌≡◌, refl, sym, ap, ◌∙◌, inl, inr, true, false, ◌&&◌, none, some, List, ◌==◌, ◌!=◌,
  length, count-eq-zero, find_slot, find_slot-some, find_slot-set_fresh, find_slot-set_found,
  get_elem?_bound, Bool-cases, Option-cases, arith,
}
use mem_service.Base.Text.{Text, c_str, text_eq_refl, snprintf_text, c_str-snprintf_text}
use mem_service.Service.{MemService, IdempotencyRecord, idempotency_response_len}
use mem_service.Service.Payload.Values.{payload_get_header_string-IsValue}
use mem_service.Service.Payload.Fields.{length-ne-zero}
use mem_service.Service.Keys.Distinct.{c_str-eq_of_NoNul}
use mem_service.Service.Idempotency.{
  pending, answered, idempotency_holds, find_idempotency_record, alloc_idempotency_record,
  idempotency_is_free, operation_mutates, status_ok, payload_get_idempotency_key,
  idempotency_request_checksum, try_idempotency_replay, attempt_key, completed_record,
  complete_idempotency_record, count_replay,
}
use mem_service.Service.Idempotency.Replay.{try-pending, replayed-completed}
use mem_service.Service.Audit.{append_audit_event}
use mem_service.Service.Operation.{
  Limits, Handler, Served, Seen, run, run_attempt, audited, observed, handle_operation,
  status_internal, failure_response,
}
use mem_service.Service.Audit.{limit_audit}
use mem_service.Service.Operation.Alike.{append_audit_event-Alike, limit_audit-Alike}
use mem_service.Service.Operation.Fresh.{Fresh, find-Fresh, run-Fresh, carried}

module _ (i : ℕ) (key : Text) (operation : ℕ) (payload : Text)
    (keyed : payload_get_idempotency_key payload ≡ some key)
    (named : (length (c_str key) == 0) ≡ false) where
  -- The same request, with the record of its answer in the table.
  replay-Recorded :
      (status : ℕ) (response : Text) (svc : MemService) (n : ℕ)
      → operation_mutates operation payload ≡ true
      → find_slot (idempotency_holds key) svc.idempotency_records
        ≡ some (i, completed_record operation payload status response key)
      → length (c_str response) < idempotency_response_len
      → length (c_str response) < n
      → try_idempotency_replay svc operation payload n
        ≡ (answered status (c_str response), count_replay svc)
  unfolding try_idempotency_replay attempt_key find_idempotency_record
  replay-Recorded status response svc n writes found stored room =
      let back = replayed-completed operation payload status response key n stored room in
      let same_operation : (operation != operation) ≡ false = ground arith in
      let sum = idempotency_request_checksum payload in
      let same_sum : (sum != sum) ≡ false = ground arith in
      rw (writes, keyed, named, found, same_operation, same_sum, back) refl

module _ (i : ℕ) (key : Text) (operation : ℕ) (payload : Text)
    (keyed : payload_get_idempotency_key payload ≡ some key)
    (held : (status : ℕ) (response : Text)
      → idempotency_holds key (completed_record operation payload status response key) ≡ true) where
  -- The table has the record of the answer, in the slot of the request.
  Recorded : Served → List IdempotencyRecord → Type 0
  Recorded (status, (response, svc)) rs =
      find_slot (idempotency_holds key) rs
      ≡ some (i, completed_record operation payload status response key)

  complete-Recorded :
      (status : ℕ) (response : Text) (svc : MemService)
      → Fresh i key svc.idempotency_records
      → find_slot
          (idempotency_holds key)
          (complete_idempotency_record svc
            (pending i)
            operation
            payload
            status
            response).idempotency_records
        ≡ some (i, completed_record operation payload status response key)
  unfolding complete_idempotency_record
  complete-Recorded status response svc (within, none_held) = rw keyed (
      find_slot-set_fresh (idempotency_holds key) svc.idempotency_records i
        (completed_record operation payload status response key)
        ((count-eq-zero (idempotency_holds key) svc.idempotency_records).0 none_held) within
        (held status response))

  -- Also where the slot had an answer before.
  complete_again-Recorded :
      (status : ℕ) (response : Text) (svc : MemService) {r : IdempotencyRecord}
      → find_slot (idempotency_holds key) svc.idempotency_records ≡ some (i, r)
      → find_slot
          (idempotency_holds key)
          (complete_idempotency_record svc
            (pending i)
            operation
            payload
            status
            response).idempotency_records
        ≡ some (i, completed_record operation payload status response key)
  unfolding complete_idempotency_record
  complete_again-Recorded status response svc found = rw keyed (
      find_slot-set_found (idempotency_holds key) svc.idempotency_records
        (completed_record operation payload status response key) found (held status response))

  module _ (parse : Text → ℕ) (limits : Limits) (seen : Seen) (n : ℕ) where
    audited-Recorded :
        (served : Served)
        → Recorded served served.1.1.idempotency_records
        → let end = audited parse limits seen n operation payload (pending i) served in
          Recorded end end.1.1.idempotency_records
    unfolding audited Recorded
    audited-Recorded (status, (response, svc)) h =
        let first =
          append_audit_event parse svc payload
            (observed seen.audit_ms operation status response false) in
        let kept = limit_audit limits.max_audit_events first in
        let same : kept.idempotency_records ≡ svc.idempotency_records =
          (limit_audit-Alike limits first).0
          ∙ (append_audit_event-Alike parse svc payload
              (observed seen.audit_ms operation status response false)).0 in
        let found : find_slot (idempotency_holds key) kept.idempotency_records
            ≡ some (i, completed_record operation payload status response key) =
          ap (find_slot (idempotency_holds key)) same ∙ h in
        elim (Bool-cases (
          first.0
          && (seen.save_failed && (status == status_ok && operation_mutates operation payload)))) [
            | inr saved ↦ rw saved found
            | inl lost ↦
                let failed = failure_response n in
                let again =
                  complete_idempotency_record kept (pending i) operation payload status_internal
                    failed in
                rw lost (
                  ap (find_slot (idempotency_holds key))
                    (append_audit_event-Alike parse again payload
                      (observed seen.failure_ms operation status_internal failed false)).0
                  ∙ complete_again-Recorded status_internal failed kept found)
          ]

    run_attempt-Recorded :
        (fuel : ℕ) (dispatch : Handler) (storage_root : Text) (svc : MemService) {served : Served}
        → (dispatch svc operation payload).1.1.idempotency_records ≡ svc.idempotency_records
        → Fresh i key svc.idempotency_records
        → run_attempt fuel dispatch limits storage_root seen n operation payload (pending i, svc)
          ≡ some served
        → Recorded served served.1.1.idempotency_records
    unfolding run_attempt Recorded
    run_attempt-Recorded fuel dispatch storage_root svc {served} alone h e =
        elim (Option-cases (run fuel dispatch limits storage_root seen n svc operation payload)) [
          | inl stuck ↦ absurd (let e' : none ≡ some served = rw stuck at e in ground arith)
          | inr ((status, (response, s)), ran) ↦
              carried (λ (a : Served). Recorded a a.1.1.idempotency_records) (rw ran at e)
                (complete-Recorded status response s (
                  run-Fresh i key fuel limits storage_root dispatch seen n svc operation payload
                    alone h ran))
        ]

-- A new request whose run ended has left the record of its answer.
handled-Recorded :
    (fuel : ℕ) (parse : Text → ℕ) (dispatch : Handler) (limits : Limits) (storage_root : Text)
    (seen : Seen) (n : ℕ) (svc : MemService) (operation : ℕ) (payload : Text) {i : ℕ}
    {t : MemService} {status : ℕ} {response : Text} {after : MemService}
    → try_idempotency_replay svc operation payload n ≡ (pending i, t)
    → (dispatch svc operation payload).1.1.idempotency_records ≡ svc.idempotency_records
    → handle_operation fuel parse dispatch limits storage_root seen n svc operation payload
      ≡ some (status, (response, after))
    → (key : Text) × (payload_get_idempotency_key payload ≡ some key)
      × ((length (c_str key) == 0) ≡ false)
      × (find_slot (idempotency_holds key) after.idempotency_records
          ≡ some (i, completed_record operation payload status response key))
unfolding handle_operation payload_get_idempotency_key alloc_idempotency_record Recorded
handled-Recorded fuel parse dispatch limits storage_root seen n svc operation payload {i} {t}
      {status} {response} {after} first alone e =
    let (key, writes, keyed, missing, r, free, same) = try-pending svc operation payload n first in
    let (some_text, no_nul, fits) = payload_get_header_string-IsValue payload _ 96 keyed in
    let whole = c_str-eq_of_NoNul key no_nul in
    let named = length-ne-zero (c_str key) (λ e. some_text (sym whole ∙ e)) in
    let stored : c_str (snprintf_text 96 key) ≡ c_str key =
      c_str-snprintf_text 96 key (rw whole fits) in
    let held : (status : ℕ) (response : Text)
        → idempotency_holds key (completed_record operation payload status response key) ≡ true =
      λ status response. rw stored (text_eq_refl (c_str key)) in
    let (slot, _) = find_slot-some idempotency_is_free svc.idempotency_records free in
    let fresh : Fresh i key svc.idempotency_records =
      (get_elem?_bound svc.idempotency_records i slot, find-Fresh svc key named missing) in
    let start : try_idempotency_replay svc operation payload n ≡ (pending i, svc) =
      first ∙ ap (λ s. (pending i, s)) same in
    elim (Option-cases
      (run_attempt fuel dispatch limits storage_root seen n operation payload (pending i, svc))) [
        | inl stuck ↦ absurd (
            let e' : none ≡ some (status, (response, after)) = rw (start, stuck) at e in
            ground arith)
        | inr (served, ran) ↦ (
          key,
          keyed,
          named,
          carried
              (λ (a : Served).
                Recorded i key operation payload keyed held a a.1.1.idempotency_records)
              (rw (start, ran) at e)
              (audited-Recorded i key operation payload keyed held parse limits seen n served (
                run_attempt-Recorded i key operation payload keyed held parse limits seen n fuel
                  dispatch storage_root svc alone fresh ran)),
        )
      ]

-- A request that is answered from a record is audited, and that is all.
handle-answered :
    (fuel : ℕ) (parse : Text → ℕ) (dispatch : Handler) (limits : Limits) (storage_root : Text)
    (seen : Seen) (n : ℕ) (svc : MemService) (operation : ℕ) (payload : Text) {status : ℕ}
    {response : Text} {t : MemService}
    → try_idempotency_replay svc operation payload n ≡ (answered status response, t)
    → seen.save_failed ≡ false
    → (last : MemService) × (handle_operation fuel parse dispatch limits storage_root seen n svc
          operation payload
        ≡ some (status, (response, last)))
      × (last.records ≡ t.records)
unfolding handle_operation run_attempt audited
handle-answered fuel parse dispatch limits storage_root seen n svc operation payload {status}
      {response} {t} again saved =
    let seen_as = observed seen.audit_ms operation status response true in
    let first = append_audit_event parse t payload seen_as in
    let quiet : (first.0
          && (seen.save_failed && (status == status_ok && operation_mutates operation payload)))
        ≡ false =
      ground (arith, saved) in
    (
      limit_audit limits.max_audit_events first,
      rw (again, quiet) refl,
      (limit_audit-Alike limits first).1.1 ∙ (append_audit_event-Alike parse t payload seen_as).1.1,
    )

-- A request that is let through as new is run once. If its handler leaves the idempotency records
-- alone, then whatever became of it, a quota, retention or a failed save included, the same request is
-- given the same status and response when it comes again, if they fit and that can be saved; no
-- handler is run for it, and no record of the table changes.
pub handle_operation_once :
    (fuel fuel' : ℕ) (parse : Text → ℕ) (dispatch dispatch' : Handler) (limits limits' : Limits)
    (storage_root : Text) (seen seen' : Seen) (n : ℕ) (svc : MemService) (operation : ℕ)
    (payload : Text) {i : ℕ} {t : MemService} {status : ℕ} {response : Text} {after : MemService}
    → try_idempotency_replay svc operation payload n ≡ (pending i, t)
    → (dispatch svc operation payload).1.1.idempotency_records ≡ svc.idempotency_records
    → handle_operation fuel parse dispatch limits storage_root seen n svc operation payload
      ≡ some (status, (response, after))
    → length (c_str response) < idempotency_response_len
    → length (c_str response) < n
    → seen'.save_failed ≡ false
    → (last : MemService) × (handle_operation fuel' parse dispatch' limits' storage_root seen' n
          after operation payload
        ≡ some (status, (c_str response, last)))
      × (last.records ≡ after.records)
handle_operation_once fuel fuel' parse dispatch dispatch' limits limits' storage_root seen seen' n
      svc operation payload {i} {t} {status} {response} {after} first alone e stored room saved =
    let (key, keyed, named, found) =
      handled-Recorded fuel parse dispatch limits storage_root seen n svc operation payload first
        alone e in
    let writes = (try-pending svc operation payload n first).1 in
    handle-answered fuel' parse dispatch' limits' storage_root seen' n after operation payload
      (replay-Recorded i key operation payload keyed named status response after n writes found
        stored room)
      saved
