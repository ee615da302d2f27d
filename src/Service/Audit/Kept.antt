-- ===== src/Service/Audit/Kept.antt =====
-- The ring of audit events as a history under a limit: what a search finds of the events that were
-- appended, each followed by retention.
use mem_service.Base.{
  ℕ, ◌+◌, ◌-◌, ◌^◌, ◌≤◌, ◌<◌, ◌≡◌, refl, sym, ap, subst, ◌∙◌, inl, inr, true, false, ◌||◌, ◌⊎◌,
  none, some, List, [], ◌∷◌, ◌++◌, any_of, ltb, leb, ◌==◌, if◌then◌else◌, length, length-append,
  get_elem?, get_elem?-some, Bool-cases, arith,
}
use mem_service.Service.{AuditEvent, MemService, max_audit_events}
use mem_service.Service.Audit.{append_event, limit_audit, apply_audit_retention, retention_refused}
use mem_service.Service.Audit.Ring.{event_of, append_event-RingValid, event_of-append, next-append}
use mem_service.Service.Audit.Pruned.{
  pruned, apply_audit_retention-pruned, pruned-RingValid, event_of-pruned, count-pruned,
}
use mem_service.Service.Audit.History.{
  kept_events, recalled, Shows, recalled-append, appended_alike, pruned_alike,
}

module _ (n : ℕ) (svc : MemService) (history : List AuditEvent) (e : AuditEvent)
    (h : Shows n svc history) (used : e.in_use ≡ true)
    (number : e.sequence ≡ svc.audit_next_sequence) (room : length history + 2 < 2 ^ 64)
    (some_room : 1 ≤ n) (small : n ≤ max_audit_events) where
  abbrev after : MemService
  after = append_event svc e

  room' : svc.audit_next_sequence + 1 < 2 ^ 64
  room' = omega (arith, room, h.next)

  next : after.audit_next_sequence ≡ length history + 2
  next = next-append svc h.ring e used number room' ∙ omega (arith, h.next)

  found :
      (s : ℕ)
      → event_of after s ≡ (
          if s == length history + 1
          then some e
          else if s + max_audit_events == length history + 1
          then none
          else recalled n history s)
  found s =
      event_of-append svc h.ring e used number room' s
      ∙ ap
          (λ m.
            if s == m then some e else if s + max_audit_events == m then none else event_of svc s)
          h.next
      ∙ ap
          (λ o.
            if s == length history + 1
            then some e
            else if s + max_audit_events == length history + 1
            then none
            else o)
          (h.shows s)

  counted : (length history + 1 ≤ after.audit_event_count) ⊎ (n ≤ after.audit_event_count)
  unfolding append_event
  counted = elim h.counted [
    | inl all ↦ elim (Bool-cases (ltb svc.audit_event_count max_audit_events)) [
      | inl more ↦ rw more (inl (omega (arith, all)))
      | inr full ↦ rw full (inr (ground (arith, full, small)))
    ]
    | inr enough ↦ elim (Bool-cases (ltb svc.audit_event_count max_audit_events)) [
      | inl more ↦ rw more (inr (omega (arith, enough)))
      | inr full ↦ rw full (inr enough)
    ]
  ]

  -- Where retention is refused, there is nothing to remove.
  nothing_lost : n < max_audit_events → after.audit_event_count ≤ n → length history + 1 ≤ n
  unfolding append_event
  nothing_lost below few = elim (Bool-cases (ltb svc.audit_event_count max_audit_events)) [
    | inr full ↦
        let few' : svc.audit_event_count ≤ n = rw full at few in
        absurd (ground (arith, few', full, below))
    | inl more ↦
        let few' : svc.audit_event_count + 1 ≤ n = rw more at few in
        elim h.counted [
          | inl all ↦ omega (arith, all, few')
          | inr enough ↦ absurd (omega (arith, enough, few'))
        ]
  ]

  longer : length (history ++ e ∷ []) ≡ length history + 1
  longer = length-append history (e ∷ [])

  next_longer : after.audit_next_sequence ≡ length (history ++ e ∷ []) + 1
  next_longer = omega (arith, next, longer)

  appended-Shows :
      (n ≡ max_audit_events) ⊎ (length history + 1 ≤ n) → Shows n after (history ++ e ∷ [])
  unfolding recalled
  appended-Shows full = record {
    ring = append_event-RingValid svc h.ring e used number room';
    next = next_longer;
    shows = λ s.
        found s
        ∙ appended_alike n (length history) s e (get_elem? history (s - 1)) some_room small full
        ∙ sym (recalled-append n history e s some_room);
    counted =
        subst (λ m. (m ≤ after.audit_event_count) ⊎ (n ≤ after.audit_event_count)) (sym longer)
          counted;
  }

  -- The last events are found before retention.
  last_there :
      (s : ℕ)
      → 1 ≤ s
      → s ≤ length history + 1
      → length history + 1 < s + n
      → (b : AuditEvent) × (event_of after s ≡ some b)
  unfolding recalled
  last_there s one within late = elim (Bool-cases (s == length history + 1)) [
    | inl now ↦ (e, found s ∙ rw now refl)
    | inr before ↦
        let (b, held) = get_elem?-some history (s - 1) (ground (arith, one, within, before)) in
        let in_array : (s + max_audit_events == length history + 1) ≡ false =
          ground (arith, late, small) in
        let kept : (s == 0 || leb (s + n) (length history)) ≡ false = ground (arith, one, late) in
        (b, found s ∙ rw (before, in_array, kept) held)
  ]

  counted_last :
      n < max_audit_events
      → (length history + 1 ≤ (pruned after n).audit_event_count)
        ⊎ (n ≤ (pruned after n).audit_event_count)
  counted_last below = elim (Bool-cases (leb (length history + 1) n)) [
    | inl all ↦ inl (
        count-pruned after n (length history + 1)
          (append_event-RingValid svc h.ring e used number room') below (ground (arith, all))
          (omega (arith, next))
          (λ s k.
            last_there (after.audit_next_sequence - 1 - s) (omega (arith, next, k))
              (omega (arith, next, k)) (ground (arith, next, k, all))))
    | inr some_lost ↦ inr (
        count-pruned after n n (append_event-RingValid svc h.ring e used number room') below
          (omega arith) (ground (arith, next, some_lost))
          (λ s k.
            last_there (after.audit_next_sequence - 1 - s) (ground (arith, next, k, some_lost))
              (omega (arith, next, k)) (ground (arith, next, k, some_lost))))
  ]

  pruned-Shows : n < max_audit_events → Shows n (pruned after n) (history ++ e ∷ [])
  unfolding recalled
  pruned-Shows below = record {
    ring = pruned-RingValid after n (append_event-RingValid svc h.ring e used number room');
    next = next_longer;
    shows = λ s.
        event_of-pruned after n s
        ∙ ap (λ m. if ltb s (if ltb n m then m - n else 1) then none else event_of after s) next
        ∙ ap
            (λ o.
              if ltb s (if ltb n (length history + 2) then length history + 2 - n else 1)
              then none
              else o)
            (found s)
        ∙ pruned_alike n (length history) s e (get_elem? history (s - 1)) some_room below
        ∙ sym (recalled-append n history e s some_room);
    counted =
        subst
          (λ m. (m ≤ (pruned after n).audit_event_count) ⊎ (n ≤ (pruned after n).audit_event_count))
          (sym longer) (counted_last below);
  }

-- Where retention is refused, or there is no limit, nothing changes.
limit_audit-refused :
    (max_events : ℕ) (svc : MemService)
    → any_of (retention_refused svc max_events) ≡ true
    → limit_audit max_events (true, svc) ≡ svc
unfolding apply_audit_retention
limit_audit-refused max_events svc refused = elim (Bool-cases (ltb 0 max_events)) [
  | inr off ↦ rw off refl
  | inl on ↦ rw (on, refused) refl
]

-- An event that is appended, with the retention that follows.
pub limit_audit-Shows :
    (max_events : ℕ) (svc : MemService) (history : List AuditEvent) (e : AuditEvent)
    → Shows (kept_events max_events) svc history
    → e.in_use ≡ true
    → e.sequence ≡ svc.audit_next_sequence
    → length history + 2 < 2 ^ 64
    → Shows
        (kept_events max_events)
        (limit_audit max_events (true, append_event svc e))
        (history ++ e ∷ [])
unfolding kept_events
limit_audit-Shows max_events svc history e h used number room =
    let after = append_event svc e in
    let next : after.audit_next_sequence ≡ length history + 2 =
      next-append svc h.ring e used number (omega (arith, room, h.next)) ∙ omega (arith, h.next) in
    elim (Bool-cases (max_events == 0 || leb max_audit_events max_events)) [
      | inl whole ↦
          let refused : any_of (retention_refused after max_events) ≡ true =
            ground (arith, whole) in
          let all : kept_events max_events ≡ max_audit_events = rw whole refl in
          subst (λ t. Shows (kept_events max_events) t (history ++ e ∷ []))
            (sym (limit_audit-refused max_events after refused))
            (appended-Shows (kept_events max_events) svc history e h used number room
              (omega (arith, all)) (omega (arith, all)) (inl all))
      | inr limited ↦
          let same : kept_events max_events ≡ max_events = rw limited refl in
          let some_room : 1 ≤ kept_events max_events = ground (arith, same, limited) in
          let below : kept_events max_events < max_audit_events = ground (arith, same, limited) in
          elim (Bool-cases (any_of (retention_refused after max_events))) [
            | inl refused ↦
                let few : after.audit_event_count ≤ kept_events max_events =
                  ground (arith, refused, limited, same, next) in
                subst (λ t. Shows (kept_events max_events) t (history ++ e ∷ []))
                  (sym (limit_audit-refused max_events after refused))
                  (appended-Shows (kept_events max_events) svc history e h used number room
                    some_room (omega (arith, below))
                    (inr (
                      nothing_lost (kept_events max_events) svc history e h used number room
                        some_room (omega (arith, below)) below few)))
            | inr let_through ↦
                let on : ltb 0 max_events ≡ true = ground (arith, limited) in
                let cut : limit_audit max_events (true, after) ≡ pruned after max_events =
                  rw on (apply_audit_retention-pruned after max_events let_through) in
                subst (λ t. Shows (kept_events max_events) t (history ++ e ∷ []))
                  (ap (pruned after) same ∙ sym cut)
                  (pruned-Shows (kept_events max_events) svc history e h used number room some_room
                    (omega (arith, below)) below)
          ]
    ]
