-- ===== src/Service/Audit/Log.antt =====
-- The ring of audit events as a log: after any requests under an audit limit, a search finds the last
-- audited ones.
use mem_service.Base.{
  ℕ, zero, suc, ◌+◌, ◌-◌, ◌^◌, ◌<◌, ◌≡◌, refl, sym, ap, subst, ◌∙◌, inl, inr, Bool, true, false,
  ◌||◌, none, some, List, [], ◌∷◌, ◌++◌, append_assoc, append-nil, leb, ◌==◌, if◌then◌else◌, length,
  length-append, length-replicate, replicate, get_elem?, find_slot-none, Bool-cases, arith,
}
use mathlib.Core.Option
use mem_service.Base.Text.{Text}
use mem_service.Service.{AuditEvent, MemService, max_audit_events, zero_event, init}
use mem_service.Service.Audit.{
  Observed, find_audit_sequence, append_event, append_audit_event, audit_event, next_sequence,
  should_audit_operation, limit_audit,
}
use mem_service.Service.Audit.Ring.{numbered, RingValid, event_of, second}
use mem_service.Service.Audit.History.{kept_events, recalled, Shows}
use mem_service.Service.Audit.Kept.{limit_audit-Shows}

-- A request, and what was observed of it.
abbrev pub Served : Type 0
Served = Text × Observed

-- What handle_operation_with_limits does to the log for a request of which nothing fails to be saved.
unfoldable pub audit_request : (Text → ℕ) → ℕ → MemService → Text → Observed → MemService
audit_request parse max_events svc payload seen =
    limit_audit max_events (append_audit_event parse svc payload seen)

unfoldable pub audit_all : (Text → ℕ) → ℕ → List Served → MemService → MemService
audit_all parse max_events [] svc = svc
audit_all parse max_events ((payload, seen) ∷ served) svc =
    audit_all parse max_events served (audit_request parse max_events svc payload seen)

-- The events of the requests that are audited, numbered from `sequence` on.
unfoldable pub events_of : (Text → ℕ) → ℕ → List Served → List AuditEvent
events_of parse sequence [] = []
events_of parse sequence ((payload, seen) ∷ served) =
    let rest = events_of parse sequence served in
    let later = events_of parse (sequence + 1) served in
    if should_audit_operation seen.operation payload seen.status
    then audit_event parse sequence payload seen ∷ later
    else rest

recalled-empty : (n s : ℕ) → recalled n [] s ≡ none
unfolding recalled
recalled-empty n s = elim (Bool-cases (s == 0 || leb (s + n) 0)) [
  | inl lost ↦ rw lost refl
  | inr kept ↦ rw kept refl
]

audit_all-Shows :
    (parse : Text → ℕ) (max_events : ℕ) (served : List Served) (svc : MemService)
    (history : List AuditEvent)
    → Shows (kept_events max_events) svc history
    → length history + length served + 2 < 2 ^ 64
    → Shows
        (kept_events max_events)
        (audit_all parse max_events served svc)
        (history ++ events_of parse (length history + 1) served)
unfolding audit_all audit_request events_of append_audit_event audit_event
audit_all-Shows parse max_events [] svc history h room =
    subst (Shows (kept_events max_events) svc) (sym (append-nil history)) h
audit_all-Shows parse max_events ((payload, seen) ∷ served) svc history h room =
    elim (Bool-cases (should_audit_operation seen.operation payload seen.status)) [
      | inr unaudited ↦
          rw unaudited (audit_all-Shows parse max_events served svc history h (omega (arith, room)))
      | inl audited ↦
          let number : next_sequence svc ≡ length history + 1 = ground (arith, h.next) in
          let e = audit_event parse (length history + 1) payload seen in
          let longer : length (history ++ e ∷ []) ≡ length history + 1 =
            length-append history (e ∷ []) in
          let one =
            limit_audit-Shows max_events svc history e h refl (sym h.next) (omega (arith, room)) in
          let all =
            audit_all-Shows parse max_events served
              (limit_audit max_events (true, append_event svc e)) (history ++ e ∷ []) one
              (omega (arith, room, longer)) in
          rw (audited, number)
            (subst
              (Shows (kept_events max_events) (
                audit_all parse max_events served
                  (limit_audit max_events (true, append_event svc e))))
              (append_assoc history (e ∷ []) _
                ∙ ap (λ n. history ++ e ∷ events_of parse (n + 1) served) longer)
              all)
    ]

zero_event-unused :
    (n i : ℕ) (e : AuditEvent) → get_elem? (replicate n zero_event) i ≡ some e → e.in_use ≡ false
zero_event-unused zero i e held = absurd (ground arith)
zero_event-unused (suc n) zero e held =
    let same : zero_event ≡ e = cc in sym (ap (λ c. c.in_use) same)
zero_event-unused (suc n) (suc i) e held = zero_event-unused n i e held

module _ (svc : MemService) (empty : svc.audit_events ≡ replicate max_audit_events zero_event)
    (first : svc.audit_next_sequence ≡ 1) where
  pub empty-RingValid : RingValid svc
  empty-RingValid = record {
    slots = ap length empty ∙ length-replicate max_audit_events zero_event;
    started = omega (arith, first);
    placed = λ i e held used.
        let unused =
          zero_event-unused max_audit_events i e (ap (λ es. get_elem? es i) (sym empty) ∙ held) in
        absurd (ground (arith, used, unused));
  }

  empty-Shows : (n : ℕ) → Shows n svc []
  unfolding event_of recalled
  empty-Shows n = record {
    ring = empty-RingValid;
    next = first;
    shows = λ s. rw empty (
        ap (Option.map second) (
          find_slot-none (numbered s) (replicate max_audit_events zero_event) (λ i e held.
            let unused = zero_event-unused max_audit_events i e held in rw unused refl))
        ∙ sym (recalled-empty n s));
    counted = inl (omega arith);
  }

-- On a service that was set up, under any limit of audit events, after any requests, fewer than the
-- sequence numbers, each appended where it is audited and followed by the retention of the limit, as
-- for a request that is saved, a search finds exactly the last of the audited ones, as many as the limit
-- says, or 256 if it says none or more, each under its place in their order, with what was observed of it.
pub find_audit_sequence_lem :
    (parse : Text → ℕ) (max_events : ℕ) (control registry durable : Bool) (served : List Served)
    (s : ℕ)
    → length served + 2 < 2 ^ 64
    → Option.map second (
        find_audit_sequence (audit_all parse max_events served (init control registry durable).1) s)
      ≡ recalled (kept_events max_events) (events_of parse 1 served) s
unfolding find_audit_sequence event_of init recalled
find_audit_sequence_lem parse max_events control registry durable served s room =
    let svc = audit_all parse max_events served (init control registry durable).1 in
    let n = kept_events max_events in
    let all =
      audit_all-Shows parse max_events served (init control registry durable).1 []
        (empty-Shows (init control registry durable).1 refl refl n) (omega (arith, room)) in
    elim (Bool-cases (s == 0)) [
      | inl zeroth ↦ rw zeroth refl
      | inr counted ↦ rw counted (
          subst
            (λ b. event_of svc s ≡ (
              if b || leb (s + n) (length (events_of parse 1 served))
              then none
              else get_elem? (events_of parse 1 served) (s - 1)))
            counted (all.shows s))
    ]
