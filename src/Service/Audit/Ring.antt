-- ===== src/Service/Audit/Ring.antt =====
-- The ring of audit events: what a search finds after an append.
use mem_service.Base.{
  ℕ, ◌+◌, ◌-◌, ◌%◌, ◌^◌, ◌≤◌, ◌<◌, ◌≡◌, ◌≢◌, refl, sym, ap, subst, ◌∙◌, inl, inr, Bool, true, false,
  ◌&&◌, Option, none, some, ◌==◌, if◌then◌else◌, length, length-set, get_elem?, get_elem?-some,
  get_elem?-set_self, get_elem?-set_ne, set, find_slot, find_slot-none, find_slot-set_fresh,
  find_slot-set_other, Bool-cases, arith,
}
use mathlib.Core.Option
use mem_service.Service.{AuditEvent, MemService, max_audit_events}
use mem_service.Service.Audit.{append_event}

abbrev pub numbered : ℕ → AuditEvent → Bool
numbered s event = event.in_use && event.sequence == s

abbrev pub second : ℕ × AuditEvent → AuditEvent
second (i, event) = event

-- The event of a sequence number, if it is kept.
unfoldable pub event_of : MemService → ℕ → Option AuditEvent
event_of svc s = Option.map second (find_slot (numbered s) svc.audit_events)

-- An event stands in the slot of its number, and is one of the last 256.
abbrev pub Placed : ℕ → ℕ → AuditEvent → Type 0
Placed next i e =
    (1 ≤ e.sequence)
    × (e.sequence < next)
    × (next ≤ e.sequence + max_audit_events)
    × (i ≡ (e.sequence - 1) % max_audit_events)

pub record RingValid (svc : MemService) : Type 0 where
  pub slots : length svc.audit_events ≡ max_audit_events
  pub started : 1 ≤ svc.audit_next_sequence
  pub placed :
      (i : ℕ) (e : AuditEvent)
      → get_elem? svc.audit_events i ≡ some e
      → e.in_use ≡ true
      → Placed svc.audit_next_sequence i e

module _ (svc : MemService) (v : RingValid svc) (e : AuditEvent) (used : e.in_use ≡ true)
    (next : e.sequence ≡ svc.audit_next_sequence)
    (room : svc.audit_next_sequence + 1 < 2 ^ 64) where
  abbrev slot : ℕ
  slot = (svc.audit_next_sequence - 1) % max_audit_events

  abbrev after : MemService
  after = append_event svc e

  events-append : after.audit_events ≡ set svc.audit_events slot e
  unfolding append_event
  events-append = ground (arith, v.started)

  pub next-append : after.audit_next_sequence ≡ svc.audit_next_sequence + 1
  unfolding append_event
  next-append = ground (arith, v.started)

  slot_bound : slot < length svc.audit_events
  slot_bound = omega (arith, v.slots)

  Placed-append :
      (i : ℕ) (a : AuditEvent)
      → get_elem? (set svc.audit_events slot e) i ≡ some a
      → a.in_use ≡ true
      → Placed (svc.audit_next_sequence + 1) i a
  Placed-append i a held h = elim (Bool-cases (slot == i)) [
    | inl here ↦
        let at : i ≡ slot = ground arith in
        let same : e ≡ a =
          let x =
            sym (get_elem?-set_self svc.audit_events slot e slot_bound)
            ∙ ap (get_elem? (set svc.audit_events slot e)) (sym at)
            ∙ held in
          cc in
        subst (Placed (svc.audit_next_sequence + 1) i) same (
          omega (arith, next, v.started),
          omega (arith, next),
          omega (arith, next),
          at ∙ ap (λ n. (n - 1) % max_audit_events) (sym next),
        )
    | inr elsewhere ↦
        let apart : ¬ (slot ≡ i) = ground arith in
        let was = sym (get_elem?-set_ne svc.audit_events slot i e apart) ∙ held in
        let (some_number, before, kept, at) = v.placed i a was h in
        (some_number, omega (arith, before), omega (arith, before, kept, at, apart), at)
  ]

  pub append_event-RingValid : RingValid after
  append_event-RingValid = record {
    slots = rw events-append (length-set svc.audit_events slot e ∙ v.slots);
    started = rw next-append (omega arith);
    placed = rw (events-append, next-append) Placed-append;
  }

  not_yet :
      (s : ℕ)
      → (s == svc.audit_next_sequence) ≡ true
      → (i : ℕ) (a : AuditEvent) → get_elem? svc.audit_events i ≡ some a
      → numbered s a ≡ false
  not_yet s now i a held = elim (Bool-cases a.in_use) [
    | inr free ↦ rw free refl
    | inl taken ↦ let (_, below, _, _) = v.placed i a held taken in ground (arith, now, below)
  ]

  no_more :
      (s : ℕ)
      → (s + max_audit_events == svc.audit_next_sequence) ≡ true
      → (i : ℕ) (a : AuditEvent) → get_elem? (set svc.audit_events slot e) i ≡ some a
      → numbered s a ≡ false
  no_more s gone i a held = elim (Bool-cases a.in_use) [
    | inr free ↦ rw free refl
    | inl taken ↦ let (_, _, kept, _) = Placed-append i a held taken in ground (arith, gone, kept)
  ]

  not_here :
      (s : ℕ)
      → (s == svc.audit_next_sequence) ≡ false
      → (s + max_audit_events == svc.audit_next_sequence) ≡ false
      → (a : AuditEvent) → get_elem? svc.audit_events slot ≡ some a
      → numbered s a ≡ false
  not_here s before there a held = elim (Bool-cases a.in_use) [
    | inr free ↦ rw free refl
    | inl taken ↦
        let (one, below, kept, at) = v.placed slot a held taken in
        let other : a.sequence ≢ s =
          λ same. absurd (ground (arith, one, below, kept, at, before, there, same)) in
        ground (arith, other)
  ]

  -- The new event is found under its number; the one that it takes the slot of is gone; every other
  -- is found as before.
  pub event_of-append :
      (s : ℕ)
      → event_of after s ≡ (
          if s == svc.audit_next_sequence
          then some e
          else if s + max_audit_events == svc.audit_next_sequence
          then none
          else event_of svc s)
  unfolding event_of
  event_of-append s = elim (Bool-cases (s == svc.audit_next_sequence)) [
    | inl now ↦
        rw (now, events-append)
          (ap (Option.map second) (
            find_slot-set_fresh (numbered s) svc.audit_events slot e
              (find_slot-none (numbered s) svc.audit_events (λ i a held. not_yet s now i a held))
              slot_bound (ground (arith, used, next, now))))
    | inr before ↦ elim (Bool-cases (s + max_audit_events == svc.audit_next_sequence)) [
      | inl gone ↦
          rw (before, gone, events-append)
            (ap (Option.map second) (
              find_slot-none (numbered s) (set svc.audit_events slot e)
                (λ i a held. no_more s gone i a held)))
      | inr there ↦
          rw (before, there, events-append)
            (let (a, held) = get_elem?-some svc.audit_events slot slot_bound in
              ap (Option.map second) (
                find_slot-set_other (numbered s) svc.audit_events slot a e held
                  (not_here s before there a held) (ground (arith, next, before))))
    ]
  ]
