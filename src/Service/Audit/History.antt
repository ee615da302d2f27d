-- ===== src/Service/Audit/History.antt =====
-- The audit log as a history of events of which a limit keeps the last.
use mem_service.Base.{
  ℕ, ◌+◌, ◌-◌, ◌≤◌, ◌<◌, ◌≡◌, refl, sym, ◌∙◌, inl, inr, true, false, ◌||◌, ◌⊎◌, Option, none, some,
  List, [], ◌∷◌, ◌++◌, ltb, leb, ◌==◌, if◌then◌else◌, length, length-append, get_elem?,
  get_elem?-append_left, get_elem?-append_last, get_elem?_bound, Bool-cases, Option-cases, arith,
}
use mem_service.Service.{AuditEvent, MemService, max_audit_events}
use mem_service.Service.Audit.Ring.{RingValid, event_of}

-- How many events a limit keeps: no limit, or one that the array does not reach, keeps the array.
unfoldable pub kept_events : ℕ → ℕ
kept_events max_events =
    if max_events == 0 || leb max_audit_events max_events then max_audit_events else max_events

-- The event of a number, of a history of which the last `n` are kept.
unfoldable pub recalled : ℕ → List AuditEvent → ℕ → Option AuditEvent
recalled n history s =
    if s == 0 || leb (s + n) (length history) then none else get_elem? history (s - 1)

pub record Shows (n : ℕ) (svc : MemService) (history : List AuditEvent) : Type 0 where
  pub ring : RingValid svc
  pub next : svc.audit_next_sequence ≡ length history + 1
  pub shows : (s : ℕ) → event_of svc s ≡ recalled n history s
  pub counted : (length history ≤ svc.audit_event_count) ⊎ (n ≤ svc.audit_event_count)

get_elem?-beyond : (xs : List AuditEvent) (i : ℕ) → length xs ≤ i → get_elem? xs i ≡ none
get_elem?-beyond xs i h = elim (Option-cases (get_elem? xs i)) [
  | inl out ↦ out
  | inr (a, held) ↦ absurd (omega (arith, h, get_elem?_bound xs i held))
]

-- One more event in the history.
pub recalled-append :
    (n : ℕ) (history : List AuditEvent) (e : AuditEvent) (s : ℕ)
    → 1 ≤ n
    → recalled n (history ++ e ∷ []) s ≡ (
        if s == length history + 1
        then some e
        else if leb (s + n) (length history + 1)
        then none
        else recalled n history s)
unfolding recalled
recalled-append n history e s some_room =
    let longer = length-append history (e ∷ []) in
    elim (Bool-cases (s == length history + 1)) [
      | inl now ↦
          let at : s - 1 ≡ length history = ground arith in
          let kept : (s == 0 || leb (s + n) (length (history ++ e ∷ []))) ≡ false =
            ground (arith, longer) in
          rw (now, kept, at) (get_elem?-append_last history e)
      | inr other ↦ elim (Bool-cases (leb (s + n) (length history + 1))) [
        | inl gone ↦
            let lost : (s == 0 || leb (s + n) (length (history ++ e ∷ []))) ≡ true =
              ground (arith, longer) in
            rw (other, gone, lost) refl
        | inr there ↦
            let alike : (s == 0 || leb (s + n) (length (history ++ e ∷ [])))
                ≡ (s == 0 || leb (s + n) (length history)) =
              ground (arith, longer) in
            rw (other, there, alike)
              (elim (Bool-cases (s == 0 || leb (s + n) (length history))) [
                | inl lost ↦ rw lost refl
                | inr kept ↦ rw kept (elim (Bool-cases (ltb (s - 1) (length history))) [
                  | inl within ↦ get_elem?-append_left history (e ∷ []) (s - 1) (ground arith)
                  | inr beyond ↦
                      get_elem?-beyond (history ++ e ∷ []) (s - 1) (ground (arith, longer))
                      ∙ sym (get_elem?-beyond history (s - 1) (ground arith))
                ])
              ])
      ]
    ]

-- What the array forgets, or retention removes, is what the limit forgets.
pub appended_alike :
    (n m s : ℕ) (e : AuditEvent) (o : Option AuditEvent)
    → 1 ≤ n
    → n ≤ max_audit_events
    → (n ≡ max_audit_events) ⊎ (m + 1 ≤ n)
    → (if s == m + 1
        then some e
        else if s + max_audit_events == m + 1
        then none
        else if s == 0 || leb (s + n) m
        then none
        else o)
      ≡ (if s == m + 1
          then some e
          else if leb (s + n) (m + 1)
          then none
          else if s == 0 || leb (s + n) m
          then none
          else o)
appended_alike n m s e o some_room small full = ground arith

pub pruned_alike :
    (n m s : ℕ) (e : AuditEvent) (o : Option AuditEvent)
    → 1 ≤ n
    → n < max_audit_events
    → (if ltb s (if ltb n (m + 2) then m + 2 - n else 1)
        then none
        else if s == m + 1
        then some e
        else if s + max_audit_events == m + 1
        then none
        else if s == 0 || leb (s + n) m
        then none
        else o)
      ≡ (if s == m + 1
          then some e
          else if leb (s + n) (m + 1)
          then none
          else if s == 0 || leb (s + n) m
          then none
          else o)
pruned_alike n m s e o some_room small = ground arith
