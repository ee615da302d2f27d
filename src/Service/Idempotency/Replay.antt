-- ===== src/Service/Idempotency/Replay.antt =====
-- A request that is sent again under its idempotency key.
use mem_service.Base.{
  ℕ, ◌%◌, ◌^◌, ◌<◌, ◌≡◌, ◌≢◌, refl, sym, ap, subst, ◌∙◌, true, false, ◌||◌, Option, none, some, [],
  leb, ◌==◌, ◌!=◌, if◌then◌else◌, length, take, take_all, take-append_exact, set, find_slot,
  find_slot-some, find_slot-set_fresh, get_elem?_bound, Bool-cases, Option-cases, inl, inr, ◌⊎◌,
  arith,
}
use mem_service.Base.Text.{
  Text, c_str, text_eq_refl, codes, snprintf_text, c_str-snprintf_text, c_str-NoNul,
}
use mem_service.Service.{IdempotencyRecord, MemService, idempotency_response_len}
use mem_service.Service.Payload.Values.{payload_get_header_string-IsValue}
use mem_service.Service.Payload.Fields.{length-ne-zero}
use mem_service.Service.Keys.Distinct.{c_str-eq_of_NoNul}
use mem_service.Service.Idempotency.{
  operation_mutates, idempotency_holds, find_idempotency_record, idempotency_is_free,
  alloc_idempotency_record, payload_get_idempotency_key, idempotency_request_checksum, Attempt,
  pending, answered, key_response, count_replay, count_conflict, replayed, attempt_key,
  try_idempotency_replay, stored_len, completed_record, complete_idempotency_record,
  status_version_conflict,
}

-- Only a request with a new key and room for its record is pending.
attempt_key-pending :
    (svc : MemService) (operation : ℕ) (payload : Text) (n : ℕ) (key : Text)
    (o : Option (ℕ × IdempotencyRecord)) {i : ℕ} {t : MemService}
    → attempt_key svc operation payload n key o ≡ (pending i, t)
    → (o ≡ none)
      × (r : IdempotencyRecord) × (alloc_idempotency_record svc ≡ some (i, r))
      × (t ≡ svc)
unfolding attempt_key
attempt_key-pending svc operation payload n key none {i} {t} e =
    elim (Option-cases (alloc_idempotency_record svc)) [
      | inl full ↦ absurd (let x = ap (λ p. p.0) (rw full at e) in ground (arith, x))
      | inr ((m, r), free) ↦
          let e' : ◌≡◌ {A = Attempt × MemService} (pending m, svc) (pending i, t) = rw free at e in
          let one : m ≡ i = let x = ap (λ p. p.0) e' in cc in
          (refl, r, free ∙ ap (λ k. some (k, r)) one, sym (ap (λ p. p.1) e'))
    ]
attempt_key-pending svc operation payload n key (some (j, r)) {i} {t} e =
    elim (Bool-cases
      (r.operation != operation || r.request_checksum != idempotency_request_checksum payload)) [
        | inl other ↦ absurd (let x = ap (λ p. p.0) (rw other at e) in ground (arith, x))
        | inr same ↦ absurd (let x = ap (λ p. p.0) (rw same at e) in ground (arith, x))
      ]

-- A request that is pending has a key, is not known, and has a free slot.
pub try-pending :
    (svc : MemService) (operation : ℕ) (payload : Text) (n : ℕ) {i : ℕ} {t : MemService}
    → try_idempotency_replay svc operation payload n ≡ (pending i, t)
    → (key : Text) × (operation_mutates operation payload ≡ true)
      × (payload_get_idempotency_key payload ≡ some key)
      × (find_idempotency_record svc key ≡ none)
      × (r : IdempotencyRecord) × (alloc_idempotency_record svc ≡ some (i, r))
      × (t ≡ svc)
unfolding try_idempotency_replay
try-pending svc operation payload n {i} {t} e =
    elim (Bool-cases (operation_mutates operation payload)) [
      | inr reads ↦ absurd (let x = ap (λ p. p.0) (rw reads at e) in ground (arith, x))
      | inl writes ↦ elim (Option-cases (payload_get_idempotency_key payload)) [
        | inl unkeyed ↦
            absurd (let x = ap (λ p. p.0) (rw (writes, unkeyed) at e) in ground (arith, x))
        | inr (key, keyed) ↦
            let e' : attempt_key svc operation payload n key (find_idempotency_record svc key)
                ≡ (pending i, t) =
              rw (writes, keyed) at e in
            let (missing, r, free, same) =
              attempt_key-pending svc operation payload n key (find_idempotency_record svc key)
                e' in
            (key, writes, keyed, missing, r, free, same)
      ]
    ]

-- The slot of a key that is not known, written with a record of the key, is found by it.
find-completed :
    (u : MemService) (key : Text) (i : ℕ) {r c : IdempotencyRecord}
    → c_str key ≢ []
    → find_idempotency_record u key ≡ none
    → alloc_idempotency_record u ≡ some (i, r)
    → idempotency_holds key c ≡ true
    → find_idempotency_record (record u { idempotency_records = set u.idempotency_records i c }) key
      ≡ some (i, c)
unfolding find_idempotency_record alloc_idempotency_record
find-completed u key i {r} {c} named missing free held =
    let keyed = length-ne-zero (c_str key) named in
    let (at, _) = find_slot-some idempotency_is_free u.idempotency_records free in
    rw keyed (
      find_slot-set_fresh (idempotency_holds key) u.idempotency_records i c (rw keyed at missing)
        (get_elem?_bound u.idempotency_records i at) held)

find-alike :
    (u svc : MemService) (key : Text)
    → u.idempotency_records ≡ svc.idempotency_records
    → find_idempotency_record u key ≡ find_idempotency_record svc key
unfolding find_idempotency_record
find-alike u svc key same =
    ap (λ rs. if length (c_str key) == 0 then none else find_slot (idempotency_holds key) rs) same

alloc-alike :
    (u svc : MemService)
    → u.idempotency_records ≡ svc.idempotency_records
    → alloc_idempotency_record u ≡ alloc_idempotency_record svc
unfolding alloc_idempotency_record
alloc-alike u svc same = ap (find_slot idempotency_is_free) same

-- A response that fits its record, and the caller's array, is given back whole.
pub replayed-completed :
    (operation : ℕ) (payload : Text) (status : ℕ) (response key : Text) (n : ℕ)
    → length (c_str response) < idempotency_response_len
    → length (c_str response) < n
    → replayed (completed_record operation payload status response key) n ≡ c_str response
replayed-completed operation payload status response key n stored room =
    let text = c_str response in
    let len : stored_len response ≡ length text = ground arith in
    let kept : stored_len response % 2 ^ 32 ≡ length text = omega (arith, len) in
    let fits : leb n (length text) ≡ false = ground arith in
    let whole : take (stored_len response) text ≡ text = take_all _ text (omega (arith, len)) in
    rw (kept, fits, whole)
      (ap c_str (take-append_exact (length text) text _ refl)
        ∙ c_str-eq_of_NoNul text (c_str-NoNul response))

module _ (operation : ℕ) (payload : Text) (status : ℕ) (response : Text) (n : ℕ) (i : ℕ)
    (svc u : MemService) where
  -- What a second request under the key of a completed one finds.
  completed_found :
      {t : MemService}
      → try_idempotency_replay svc operation payload n ≡ (pending i, t)
      → u.idempotency_records ≡ svc.idempotency_records
      → (key : Text) × (payload_get_idempotency_key payload ≡ some key)
        × (operation_mutates operation payload ≡ true)
        × (find_idempotency_record
              (complete_idempotency_record u (pending i) operation payload status response)
              key
            ≡ some (i, completed_record operation payload status response key))
  unfolding payload_get_idempotency_key complete_idempotency_record
  completed_found first same =
      let (key, writes, keyed, missing, r, free, _) = try-pending svc operation payload n first in
      let (some_text, no_nul, fits) = payload_get_header_string-IsValue payload _ 96 keyed in
      let whole = c_str-eq_of_NoNul key no_nul in
      let stored : c_str (snprintf_text 96 key) ≡ c_str key =
        c_str-snprintf_text 96 key (rw whole fits) in
      (
        key,
        keyed,
        writes,
        rw keyed (
            find-completed u key i (λ e. some_text (sym whole ∙ e))
              (find-alike u svc key same ∙ missing) (alloc-alike u svc same ∙ free)
              (rw stored (text_eq_refl (c_str key)))),
      )

  -- The request that was let through as new, once its record is complete, is not run again: sent
  -- again, it is answered with the status and the response of the first time, where they fit. What ran
  -- in between has left the idempotency records alone.
  pub try_idempotency_replay_complete :
      {t : MemService}
      → try_idempotency_replay svc operation payload n ≡ (pending i, t)
      → u.idempotency_records ≡ svc.idempotency_records
      → length (c_str response) < idempotency_response_len
      → length (c_str response) < n
      → let after = complete_idempotency_record u (pending i) operation payload status response in
        try_idempotency_replay after operation payload n
        ≡ (answered status (c_str response), count_replay after)
  unfolding try_idempotency_replay attempt_key
  try_idempotency_replay_complete {t} first same stored room =
      let (key, keyed, writes, found) = completed_found first same in
      let back = replayed-completed operation payload status response key n stored room in
      let same_operation : (operation != operation) ≡ false = ground arith in
      let sum = idempotency_request_checksum payload in
      let same_sum : (sum != sum) ≡ false = ground arith in
      rw (writes, keyed, found, same_operation, same_sum, back) refl

  -- Another operation that writes, or a payload with another checksum, under the key of a completed
  -- request is a version conflict, which is counted and changes nothing else.
  pub try_idempotency_replay-conflict :
      {t : MemService} (operation' : ℕ) (payload' : Text) (key : Text)
      → try_idempotency_replay svc operation payload n ≡ (pending i, t)
      → u.idempotency_records ≡ svc.idempotency_records
      → operation_mutates operation' payload' ≡ true
      → payload_get_idempotency_key payload ≡ some key
      → payload_get_idempotency_key payload' ≡ some key
      → (operation' ≢ operation)
        ⊎ (idempotency_request_checksum payload' ≢ idempotency_request_checksum payload)
      → let after = complete_idempotency_record u (pending i) operation payload status response in
        try_idempotency_replay after operation' payload' n ≡ (
          answered status_version_conflict (key_response (codes "status=version_conflict") key n),
          count_conflict after,
        )
  unfolding try_idempotency_replay attempt_key
  try_idempotency_replay-conflict {t} operation' payload' key first same writes' keyed keyed'
        differ =
      let (key', is, writes, found) = completed_found first same in
      let one : key' ≡ key = let x = sym is ∙ keyed in cc in
      let found' =
        subst
          (λ k.
            find_idempotency_record
              (complete_idempotency_record u (pending i) operation payload status response) k
            ≡ some (i, completed_record operation payload status response k))
          one found in
      let sum = idempotency_request_checksum payload in
      let other : (operation != operation' || sum != idempotency_request_checksum payload') ≡ true =
        ground arith in
      rw (writes', keyed', found', other) refl
