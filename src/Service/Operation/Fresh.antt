-- ===== src/Service/Operation/Fresh.antt =====
-- The slot of a request that is let through as new stays its own while the request is run.
use mem_service.Base.{
  ℕ, suc, ◌≤◌, ◌<◌, ◌≡◌, refl, sym, ap, subst, inl, inr, Bool, false, ◌&&◌, ◌||◌, Option, none,
  some, List, [], ◌∷◌, map, ltb, ◌==◌, length, count, count-eq-zero, Bool-cases, Option-cases,
  arith,
}
use mem_service.Base.Text.{Text, c_str}
use mem_service.Service.{Record, MemService, IdempotencyRecord}
use mem_service.Service.Idempotency.{
  idempotency_holds, find_idempotency_record, prune_slot, prune_idempotency_for_record_key,
  operation_mutates, status_ok,
}
use mem_service.Service.Retention.{
  Retained, retire, apply_checkpoint_retention, apply_record_retention,
}
use mem_service.Service.Retention.Keeps.{
  apply_checkpoint_retention-keeps, apply_record_retention-keeps,
}
use mem_service.Service.Operation.{
  Limits, Handler, Served, Seen, service_after, retain_checkpoints, retain_records, retain_after,
  run, exceeds_records, estimate_new_record_count,
}

pub carried :
    {A : Type 0} {a b : A} (P : A → Type 0) → ◌≡◌ {A = Option A} (some a) (some b) → P a → P b
carried {A} {a} {b} P e h = let same : a ≡ b = cc in subst P same h

-- No slot has the key, and `i` is one of the slots.
abbrev pub Fresh : ℕ → Text → List IdempotencyRecord → Type 0
Fresh i key rs = (i < length rs) × (count (idempotency_holds key) rs ≡ 0)

pub find-Fresh :
    (svc : MemService) (key : Text)
    → (length (c_str key) == 0) ≡ false
    → find_idempotency_record svc key ≡ none
    → count (idempotency_holds key) svc.idempotency_records ≡ 0
unfolding find_idempotency_record
find-Fresh svc key keyed missing =
    (count-eq-zero (idempotency_holds key) svc.idempotency_records).1 (rw keyed at missing)

length-map :
    (f : IdempotencyRecord → IdempotencyRecord) (rs : List IdempotencyRecord)
    → length (map f rs) ≡ length rs
length-map f [] = refl
length-map f (r ∷ rs) = ap suc (length-map f rs)

prune_slot-holds :
    (key k : Text) (r : IdempotencyRecord)
    → idempotency_holds key r ≡ false
    → idempotency_holds key (prune_slot k r) ≡ false
unfolding prune_slot
prune_slot-holds key k r h = ground (arith, h)

count-prune :
    (key k : Text) (rs : List IdempotencyRecord)
    → count (idempotency_holds key) (map (prune_slot k) rs) ≤ count (idempotency_holds key) rs
unfolding count
count-prune key k [] = omega arith
count-prune key k (r ∷ rs) = elim (Bool-cases (idempotency_holds key r)) [
  | inl held ↦ ground (arith, count-prune key k rs)
  | inr other ↦ rw (other, prune_slot-holds key k r other) (count-prune key k rs)
]

module _ (i : ℕ) (key : Text) where
  prune-Fresh :
      (svc : MemService) (k : Text)
      → Fresh i key svc.idempotency_records
      → Fresh i key (prune_idempotency_for_record_key svc k).idempotency_records
  unfolding prune_idempotency_for_record_key
  prune-Fresh svc k (within, none_held) = elim (Bool-cases (length (c_str k) == 0)) [
    | inl unnamed ↦ rw unnamed (within, none_held)
    | inr named ↦ rw named (
      omega (arith, within, length-map (prune_slot k) svc.idempotency_records),
      omega (arith, none_held, count-prune key k svc.idempotency_records),
    )
  ]

  retire-Fresh :
      (storage_root : Text) (at : Retained) (j : ℕ) (r : Record)
      → Fresh i key at.1.idempotency_records
      → Fresh i key (retire storage_root at j r).1.idempotency_records
  unfolding retire
  retire-Fresh storage_root at j r h = prune-Fresh _ _ h

  -- A retention that ends, of the two kinds.
  service_after-Fresh :
      (o : Option (Bool × Retained)) {svc : MemService}
      → ((pruned : Bool) (end : Retained)
          → o ≡ some (pruned, end)
          → Fresh i key end.1.idempotency_records)
      → service_after o ≡ some svc
      → Fresh i key svc.idempotency_records
  service_after-Fresh none kept e = absurd (ground arith)
  service_after-Fresh (some (pruned, (gone, svc'))) {svc} kept e =
      carried (λ (s : MemService). Fresh i key s.idempotency_records) e
        (kept pruned (gone, svc') refl)

  module _ (fuel : ℕ) (limits : Limits) (storage_root : Text) where
    retain_checkpoints-Fresh :
        (operation status : ℕ) (svc : MemService) {svc' : MemService}
        → Fresh i key svc.idempotency_records
        → retain_checkpoints fuel limits storage_root operation status svc ≡ some svc'
        → Fresh i key svc'.idempotency_records
    unfolding retain_checkpoints
    retain_checkpoints-Fresh operation status svc {svc'} h e =
        elim (Bool-cases
          (status == status_ok && (operation == 96 && ltb 0 limits.max_checkpoint_records))) [
            | inr off ↦
                carried (λ (s : MemService). Fresh i key s.idempotency_records) (rw off at e) h
            | inl on ↦
                service_after-Fresh
                  (apply_checkpoint_retention fuel svc limits.max_checkpoint_records storage_root)
                  (λ pruned end ran.
                    apply_checkpoint_retention-keeps storage_root
                      (λ at. Fresh i key at.1.idempotency_records)
                      (λ at j r held k. retire-Fresh storage_root at j r k) fuel svc
                      limits.max_checkpoint_records h ran)
                  (rw on at e)
          ]

    retain_records-Fresh :
        (now_ms operation : ℕ) (payload : Text) (status : ℕ) (svc : MemService) {svc' : MemService}
        → Fresh i key svc.idempotency_records
        → retain_records fuel limits storage_root now_ms operation payload status svc ≡ some svc'
        → Fresh i key svc'.idempotency_records
    unfolding retain_records
    retain_records-Fresh now_ms operation payload status svc {svc'} h e =
        elim (Bool-cases (
          status == status_ok
          && (operation_mutates operation payload
              && (ltb 0 limits.max_retained_records || ltb 0 limits.max_retained_record_age_ms)))) [
                | inr off ↦
                    carried (λ (s : MemService). Fresh i key s.idempotency_records) (rw off at e) h
                | inl on ↦
                    service_after-Fresh
                      (apply_record_retention fuel svc limits.max_retained_records
                        limits.max_retained_record_age_ms limits.retained now_ms storage_root)
                      (λ pruned end ran.
                        apply_record_retention-keeps storage_root
                          (λ at. Fresh i key at.1.idempotency_records)
                          (λ at j r held k. retire-Fresh storage_root at j r k) fuel svc
                          limits.max_retained_records limits.max_retained_record_age_ms
                          limits.retained now_ms h ran)
                      (rw on at e)
              ]

    retain_after-Fresh :
        (seen : Seen) (operation : ℕ) (payload : Text) (served : Served) {end : Served}
        → Fresh i key served.1.1.idempotency_records
        → retain_after fuel limits storage_root seen operation payload served ≡ some end
        → Fresh i key end.1.1.idempotency_records
    unfolding retain_after
    retain_after-Fresh seen operation payload (status, (response, svc)) {end} h e =
        elim (Option-cases (retain_checkpoints fuel limits storage_root operation status svc)) [
          | inl stuck ↦ absurd (let e' : none ≡ some end = rw stuck at e in ground arith)
          | inr (checked, ran) ↦
              let fresh = retain_checkpoints-Fresh operation status svc h ran in
              elim (Option-cases (
                retain_records fuel limits storage_root seen.wall_ms operation payload status
                  checked)) [
                    | inl stuck ↦
                        absurd (let e' : none ≡ some end = rw (ran, stuck) at e in ground arith)
                    | inr (kept, ran') ↦
                        carried (λ (s : Served). Fresh i key s.1.1.idempotency_records)
                          (rw (ran, ran') at e)
                          (retain_records-Fresh seen.wall_ms operation payload status checked fresh
                            ran')
                  ]
        ]

    -- A handler that leaves the idempotency records alone is run, or refused.
    pub run-Fresh :
        (dispatch : Handler) (seen : Seen) (n : ℕ) (svc : MemService) (operation : ℕ)
        (payload : Text) {end : Served}
        → (dispatch svc operation payload).1.1.idempotency_records ≡ svc.idempotency_records
        → Fresh i key svc.idempotency_records
        → run fuel dispatch limits storage_root seen n svc operation payload ≡ some end
        → Fresh i key end.1.1.idempotency_records
    unfolding run
    run-Fresh dispatch seen n svc operation payload {end} alone h e =
        elim (Bool-cases (
          exceeds_records limits.max_records svc.record_count
            (estimate_new_record_count svc operation payload))) [
              | inl full ↦
                  carried (λ (s : Served). Fresh i key s.1.1.idempotency_records) (rw full at e) h
              | inr room ↦
                  retain_after-Fresh seen operation payload (dispatch svc operation payload)
                    (subst (Fresh i key) (sym alone) h) (rw room at e)
            ]
