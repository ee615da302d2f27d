-- ===== src/Service/Audit/Pruned.antt =====
-- The ring of audit events under a limit: what a search finds after retention, and how many events it
-- leaves.
use mem_service.Base.{
  ℕ, zero, suc, ◌-◌, ◌%◌, ◌≤◌, ◌<◌, ◌≡◌, refl, sym, ap, ◌∙◌, inl, inr, Bool, true, false, not, ◌&&◌,
  Option, none, some, List, [], ◌∷◌, map, any_of, ltb, if◌then◌else◌, length, get_elem?,
  get_elem?-set_ne, set, count, count-set, one_if, find_slot, find_slot-some, Bool-cases,
  Option-cases, arith,
}
use mathlib.Core.Option
use mem_service.Service.{AuditEvent, MemService, max_audit_events, zero_event}
use mem_service.Service.Audit.{
  keep_event, apply_audit_retention, first_kept_sequence, retention_refused,
}
use mem_service.Service.Audit.Ring.{numbered, second, event_of, RingValid}

length-map : (f : AuditEvent → AuditEvent) (xs : List AuditEvent) → length (map f xs) ≡ length xs
length-map f [] = refl
length-map f (x ∷ xs) = ap suc (length-map f xs)

-- An event that is in use after retention was there, in its slot.
keep_event-held :
    (first_kept : ℕ) (xs : List AuditEvent) (i : ℕ) (e : AuditEvent)
    → get_elem? (map (keep_event first_kept) xs) i ≡ some e
    → e.in_use ≡ true
    → get_elem? xs i ≡ some e
unfolding keep_event
keep_event-held first_kept [] i e held used = absurd (ground arith)
keep_event-held first_kept (x ∷ xs) zero e held used =
    elim (Bool-cases (x.in_use && ltb x.sequence first_kept)) [
      | inl gone ↦
          let e' : ◌≡◌ {A = Option AuditEvent} (some zero_event) (some e) = rw gone at held in
          let same : zero_event ≡ e = cc in
          absurd (let unused = ap (λ c. c.in_use) same in ground (arith, used, unused))
      | inr kept ↦ rw kept at held
    ]
keep_event-held first_kept (x ∷ xs) (suc i) e held used =
    keep_event-held first_kept xs i e held used

unfoldable found_of : ℕ → List AuditEvent → Option AuditEvent
found_of s xs = Option.map second (find_slot (numbered s) xs)

found_of-cons :
    (s : ℕ) (x : AuditEvent) (xs : List AuditEvent)
    → found_of s (x ∷ xs) ≡ (if numbered s x then some x else found_of s xs)
unfolding found_of find_slot
found_of-cons s x xs = elim (Bool-cases (numbered s x)) [
  | inl here ↦ rw here refl
  | inr later ↦ rw later (elim (Option-cases (find_slot (numbered s) xs)) [
    | inl missing ↦ rw missing refl
    | inr ((i, a), found) ↦ rw found refl
  ])
]

keep_event-alike :
    (first_kept s : ℕ) (x : AuditEvent) (o : Option AuditEvent)
    → (if numbered s (keep_event first_kept x)
        then some (keep_event first_kept x)
        else if ltb s first_kept
        then none
        else o)
      ≡ (if ltb s first_kept then none else if numbered s x then some x else o)
unfolding keep_event
keep_event-alike first_kept s x o = elim (Bool-cases (x.in_use && ltb x.sequence first_kept)) [
  | inl gone ↦ elim (Bool-cases (ltb s first_kept)) [
    | inl below ↦ rw (gone, below) refl
    | inr from ↦ let other : numbered s x ≡ false = ground arith in rw (gone, from, other) refl
  ]
  | inr kept ↦ elim (Bool-cases (ltb s first_kept)) [
    | inl below ↦ let other : numbered s x ≡ false = ground arith in rw (kept, below, other) refl
    | inr from ↦ rw (kept, from) refl
  ]
]

-- A search finds what it found before, unless the number is below the first that is kept.
found_of-keep_event :
    (first_kept s : ℕ) (xs : List AuditEvent)
    → found_of s (map (keep_event first_kept) xs)
      ≡ (if ltb s first_kept then none else found_of s xs)
unfolding found_of find_slot
found_of-keep_event first_kept s [] = elim (Bool-cases (ltb s first_kept)) [
  | inl gone ↦ rw gone refl
  | inr kept ↦ rw kept refl
]
found_of-keep_event first_kept s (x ∷ xs) =
    found_of-cons s (keep_event first_kept x) (map (keep_event first_kept) xs)
    ∙ ap (λ o. if numbered s (keep_event first_kept x) then some (keep_event first_kept x) else o)
        (found_of-keep_event first_kept s xs)
    ∙ keep_event-alike first_kept s x (found_of s xs)
    ∙ ap (λ o. if ltb s first_kept then none else o) (sym (found_of-cons s x xs))

-- As many slots pass as there are slots that are told apart and pass.
pub count-ge :
    (p : AuditEvent → Bool) (z : AuditEvent) (f : ℕ → ℕ) (k : ℕ) (xs : List AuditEvent)
    → p z ≡ false
    → ((s t : ℕ) → s < k → t < k → f s ≡ f t → s ≡ t)
    → ((s : ℕ) → s < k → (a : AuditEvent) × (get_elem? xs (f s) ≡ some a) × (p a ≡ true))
    → k ≤ count p xs
count-ge p z f zero xs fails apart each = omega arith
count-ge p z f (suc k) xs fails apart each =
    let (a, held, passes) = each k (omega arith) in
    let rest =
      count-ge p z f k (set xs (f k) z) fails
        (λ s t h h' e. apart s t (omega (arith, h)) (omega (arith, h')) e)
        (λ s h.
          let (b, held', passes') = each s (omega (arith, h)) in
          (
            b,
            get_elem?-set_ne xs (f k) (f s) z
                  (λ e. let x = apart k s (omega arith) (omega (arith, h)) e in omega (arith, x, h))
                ∙ held',
            passes',
          )) in
    let moved = count-set p xs (f k) a z held in
    let one : one_if (p a) ≡ 1 = rw passes refl in
    let none_there : one_if (p z) ≡ 0 = rw fails refl in omega (arith, rest, moved, one, none_there)

-- An event that a search finds, from the first that is kept on, is in the slot of its number.
last_found :
    (svc : MemService) (v : RingValid svc) (max_events s : ℕ) {b : AuditEvent}
    → 1 ≤ s
    → ltb s (first_kept_sequence svc max_events) ≡ false
    → event_of svc s ≡ some b
    → (a : AuditEvent) × (get_elem? svc.audit_events ((s - 1) % max_audit_events) ≡ some a)
      × ((a.in_use && not (ltb a.sequence (first_kept_sequence svc max_events))) ≡ true)
unfolding event_of
last_found svc v max_events s {b} some_number from e =
    elim (Option-cases (find_slot (numbered s) svc.audit_events)) [
      | inl missing ↦
          absurd
            (let e' : ◌≡◌ {A = Option AuditEvent} none (some b) = rw missing at e in ground arith)
      | inr ((i, a), found) ↦
          let (held, passes) = find_slot-some (numbered s) svc.audit_events found in
          let used : a.in_use ≡ true = ground (arith, passes) in
          let number : a.sequence ≡ s = ground (arith, passes) in
          let (_, _, _, at) = v.placed i a held used in
          (
            a,
            ap (get_elem? svc.audit_events) (sym (at ∙ ap (λ n. (n - 1) % max_audit_events) number))
                ∙ held,
            rw (used, number, from) refl,
          )
    ]

-- What retention leaves of a service, where it is not refused.
abbrev pub pruned : MemService → ℕ → MemService
pruned svc max_events = record svc {
  audit_event_count =
      count (λ event. event.in_use && not (ltb event.sequence (first_kept_sequence svc max_events)))
        svc.audit_events;
  audit_events = map (keep_event (first_kept_sequence svc max_events)) svc.audit_events;
}

pub apply_audit_retention-pruned :
    (svc : MemService) (max_events : ℕ)
    → any_of (retention_refused svc max_events) ≡ false
    → (apply_audit_retention svc max_events).1 ≡ pruned svc max_events
unfolding apply_audit_retention
apply_audit_retention-pruned svc max_events let_through = rw let_through refl

module _ (svc : MemService) (max_events : ℕ) where
  pub pruned-RingValid : RingValid svc → RingValid (pruned svc max_events)
  pruned-RingValid v = record {
    slots = length-map _ svc.audit_events ∙ v.slots;
    started = v.started;
    placed = λ i e held used. v.placed i e (keep_event-held _ svc.audit_events i e held used) used;
  }

  pub event_of-pruned :
      (s : ℕ)
      → event_of (pruned svc max_events) s
        ≡ (if ltb s (first_kept_sequence svc max_events) then none else event_of svc s)
  unfolding event_of found_of
  event_of-pruned s = found_of-keep_event (first_kept_sequence svc max_events) s svc.audit_events

  -- The last events, if a search found them, are counted.
  pub count-pruned :
      (k : ℕ)
      → RingValid svc
      → max_events < max_audit_events
      → k ≤ max_events
      → k < svc.audit_next_sequence
      → ((s : ℕ)
          → s < k
          → (b : AuditEvent) × (event_of svc (svc.audit_next_sequence - 1 - s) ≡ some b))
      → k ≤ (pruned svc max_events).audit_event_count
  count-pruned k v small within below found =
      (count-ge
        (λ event. event.in_use && not (ltb event.sequence (first_kept_sequence svc max_events)))
        zero_event (λ s. (svc.audit_next_sequence - 1 - s - 1) % max_audit_events) k
        svc.audit_events refl (λ s t h h' same. omega (arith, h, h', same, within, small, below))
        (λ s h.
          let (b, e) = found s h in
          last_found svc v max_events (svc.audit_next_sequence - 1 - s)
            (omega (arith, h, within, below)) (ground (arith, h, within, below)) e))
