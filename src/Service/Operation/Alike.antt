-- ===== src/Service/Operation/Alike.antt =====
-- Audit events leave the tables of records and of idempotency records alone.
use mem_service.Base.{ℕ, ◌≡◌, refl, inl, inr, Bool, ◌&&◌, any_of, ltb, Bool-cases}
use mem_service.Base.Text.{Text}
use mem_service.Service.{MemService}
use mem_service.Service.Audit.{
  Observed, append_audit_event, append_event, apply_audit_retention, retention_refused, limit_audit,
  should_audit_operation,
}
use mem_service.Service.Operation.{Limits}

abbrev pub SameTable : MemService → MemService → Type 0
SameTable s t = (t.record_count ≡ s.record_count) × (t.records ≡ s.records)

abbrev pub Alike : MemService → MemService → Type 0
Alike s t = (t.idempotency_records ≡ s.idempotency_records) × SameTable s t

pub append_audit_event-Alike :
    (parse : Text → ℕ) (svc : MemService) (payload : Text) (seen : Observed)
    → Alike svc (append_audit_event parse svc payload seen).1
unfolding append_audit_event append_event
append_audit_event-Alike parse svc payload seen =
    elim (Bool-cases (should_audit_operation seen.operation payload seen.status)) [
      | inl on ↦ rw on (refl, (refl, refl))
      | inr off ↦ rw off (refl, (refl, refl))
    ]

pub limit_audit-Alike :
    (limits : Limits) (r : Bool × MemService) → Alike r.1 (limit_audit limits.max_audit_events r)
unfolding apply_audit_retention
limit_audit-Alike limits (appended, svc) =
    elim (Bool-cases (appended && ltb 0 limits.max_audit_events)) [
      | inr off ↦ rw off (refl, (refl, refl))
      | inl on ↦ rw on (elim (Bool-cases (any_of (retention_refused svc limits.max_audit_events))) [
        | inl refused ↦ rw refused (refl, (refl, refl))
        | inr let_through ↦ rw let_through (refl, (refl, refl))
      ])
    ]
