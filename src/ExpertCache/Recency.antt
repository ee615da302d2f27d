-- ===== src/ExpertCache/Recency.antt =====
-- The cache against the history of touches: it holds the keys that were touched most recently.
use mem_service.Base.{
  ℕ, zero, suc, ◌-◌, ◌≤◌, ◌≡◌, refl, sym, ap, subst, ◌∙◌, true, false, List, [], ◌∷◌, ◌++◌,
  append_assoc, leb, length, length-append, drop, drop-append_exact, arith, ◌⊎◌, inl, inr,
  Bool-cases,
}
use mem_service.ExpertCache.{Cache, expert_key, is_resident, touch, init, clamp_slots}
use mem_service.ExpertCache.Keys.{
  erase, NoTwice, NoTwice-apart, erase-append_right, erase-append_left, erase-NoTwice, erase_gone,
  NoTwice-append_one, length-erase,
}
use mem_service.ExpertCache.Lru.{IsValid, lru_step, lru_step_hit, lru_step_miss}
use mem_service.ExpertCache.Invariant.{touch_lru, touch-IsValid, touches, init-IsValid}

-- The keys of a history, each once, in the order of their last touch: an LRU list without bound.
unfoldable pub recency_from : List ℕ → List (ℕ × ℕ) → List ℕ
recency_from ks [] = ks
recency_from ks ((layer, expert) ∷ rest) =
    recency_from (erase (expert_key layer expert) ks ++ expert_key layer expert ∷ []) rest

abbrev pub recency : List (ℕ × ℕ) → List ℕ
recency = recency_from []

abbrev pub last_of : ℕ → List ℕ → List ℕ
last_of n ks = drop (length ks - n) ks

-- `ks` is the back of `recent`, and all of it unless it has `n` keys.
record IsBack (n : ℕ) (recent ks : List ℕ) : Type 0 where
  old : List ℕ
  parts : recent ≡ old ++ ks
  whole : (old ≡ []) ⊎ (length ks ≡ n)
  within : length ks ≤ n

IsBack-last_of : (n : ℕ) (recent ks : List ℕ) → IsBack n recent ks → ks ≡ last_of n recent
IsBack-last_of n recent ks b =
    let size : length recent - n ≡ length b.old =
      ground (arith, length-append b.old ks, ap length b.parts) in
    sym (rw (size, b.parts) (drop-append_exact (length b.old) b.old ks refl))

IsBack-hit :
    (n key : ℕ) (recent ks : List ℕ)
    → NoTwice recent
    → is_resident ks key ≡ true
    → IsBack n recent ks
    → IsBack n (erase key recent ++ key ∷ []) (lru_step n ks key)
IsBack-hit n key recent ks t r b =
    let apart = NoTwice-apart b.old ks key (subst NoTwice b.parts t) r in
    let moved = lru_step_hit n ks key b.within r in
    let size : length (lru_step n ks key) ≡ length ks =
      ap length moved
      ∙ omega (arith, length-append (erase key ks) (key ∷ []), length-erase key ks r) in
    record {
      old = b.old;
      parts =
          rw (b.parts, erase-append_right key b.old ks apart, moved)
            (append_assoc b.old (erase key ks) (key ∷ []));
      whole = elim b.whole [ inl e ↦ inl e | inr e ↦ inr (size ∙ e) ];
      within = omega (arith, size, b.within);
    }

-- The front of a full cache becomes old.
IsBack-full :
    (n key : ℕ) (recent ks : List ℕ)
    → 1 ≤ n
    → leb n (length ks) ≡ true
    → is_resident ks key ≡ false
    → IsBack n recent ks
    → IsBack n (erase key recent ++ key ∷ []) (lru_step n ks key)
IsBack-full n key recent [] some_slots full r b = absurd (ground arith)
IsBack-full n key recent (x ∷ ks) some_slots full r b =
    let moved : lru_step n (x ∷ ks) key ≡ ks ++ key ∷ [] =
      lru_step_miss n (x ∷ ks) key some_slots b.within r ∙ rw full in
    let size : length (ks ++ key ∷ []) ≡ n =
      ground (arith, b.within, length-append ks (key ∷ [])) in
    record {
      old = erase key b.old ++ x ∷ [];
      parts = rw (b.parts, erase-append_left key b.old (x ∷ ks) r, moved) (simp append_assoc);
      whole = inr (ap length moved ∙ size);
      within = omega (arith, ap length moved, size);
    }

-- A cache with room has everything that was ever touched.
IsBack-room :
    (n key : ℕ) (recent ks : List ℕ)
    → 1 ≤ n
    → leb n (length ks) ≡ false
    → is_resident ks key ≡ false
    → IsBack n recent ks
    → IsBack n (erase key recent ++ key ∷ []) (lru_step n ks key)
IsBack-room n key recent ks some_slots room r b =
    let moved : lru_step n ks key ≡ ks ++ key ∷ [] =
      lru_step_miss n ks key some_slots b.within r ∙ rw room in
    let all : b.old ≡ [] = elim b.whole [ inl e ↦ e | inr e ↦ absurd (ground arith) ] in
    let none_old : erase key b.old ≡ [] = rw all (unfold erase in refl) in
    record {
      old = [];
      parts = rw (b.parts, erase-append_left key b.old ks r, none_old, moved) refl;
      whole = inl refl;
      within = ground (arith, ap length moved, length-append ks (key ∷ []));
    }

IsBack-step :
    (n key : ℕ) (recent ks : List ℕ)
    → 1 ≤ n
    → NoTwice recent
    → IsBack n recent ks
    → IsBack n (erase key recent ++ key ∷ []) (lru_step n ks key)
IsBack-step n key recent ks some_slots t b = elim (Bool-cases (is_resident ks key)) [
  | inl r ↦ IsBack-hit n key recent ks t r b
  | inr r ↦ elim (Bool-cases (leb n (length ks))) [
    | inl full ↦ IsBack-full n key recent ks some_slots full r b
    | inr room ↦ IsBack-room n key recent ks some_slots room r b
  ]
]

touches-IsBack :
    (c : Cache) (history : List (ℕ × ℕ)) (recent : List ℕ)
    → IsValid c
    → NoTwice recent
    → IsBack c.capacity_slots recent c.resident
    → IsBack c.capacity_slots (recency_from recent history) (touches c history).resident
unfolding touches recency_from
touches-IsBack c [] recent v t b = b
touches-IsBack c ((layer, expert) ∷ rest) recent v t b =
    let key = expert_key layer expert in
    let c' = (touch c layer expert).1 in
    let (_, moved, same) = touch_lru c layer expert v in
    let next = IsBack-step c.capacity_slots key recent c.resident v.some_slots t b in
    let next' : IsBack c'.capacity_slots (erase key recent ++ key ∷ []) c'.resident =
      rw (same, moved) next in
    subst
      (λ n. IsBack n (recency_from (erase key recent ++ key ∷ []) rest) (touches c' rest).resident)
      same
      (touches-IsBack c' rest (erase key recent ++ key ∷ []) (touch-IsValid c layer expert v)
        (NoTwice-append_one (erase key recent) key (erase-NoTwice key recent t)
          (erase_gone key recent t))
        next')

-- After any history on a fresh cache of n slots, the resident keys are the last n of the keys
-- touched, each counted at its last touch, in that order.
pub touches-recency :
    (capacity_slots expert_bytes : ℕ) (history : List (ℕ × ℕ))
    → (touches (init capacity_slots expert_bytes) history).resident
      ≡ last_of (clamp_slots capacity_slots) (recency history)
unfolding init
touches-recency capacity_slots expert_bytes history =
    IsBack-last_of (clamp_slots capacity_slots) (recency history) _ (
      touches-IsBack (init capacity_slots expert_bytes) history []
        (init-IsValid capacity_slots expert_bytes) tt fresh)
  where
    fresh : IsBack (clamp_slots capacity_slots) [] []
    fresh = record { old = []; parts = refl; whole = inl refl; within = omega arith }

is_resident-drop :
    (m n : ℕ) (ks : List ℕ) (key : ℕ)
    → m ≤ n
    → is_resident (drop n ks) key ≡ true
    → is_resident (drop m ks) key ≡ true
unfolding is_resident
is_resident-drop m zero ks key h r =
    ground (arith, ap (λ k. drop k ks) (let e : m ≡ 0 = omega arith in e))
is_resident-drop m (suc n) [] key h r = absurd (ground arith)
is_resident-drop zero (suc n) (k ∷ ks) key h r =
    ground (arith, is_resident-drop zero n ks key (omega arith) r)
is_resident-drop (suc m) (suc n) (k ∷ ks) key h r = is_resident-drop m n ks key (omega arith) r

-- More slots never turn a hit into a miss: after the same history on two fresh caches, a key that
-- is resident in the smaller is resident in the larger.
pub touches_inclusion :
    (small large expert_bytes : ℕ) (history : List (ℕ × ℕ)) (key : ℕ)
    → clamp_slots small ≤ clamp_slots large
    → is_resident (touches (init small expert_bytes) history).resident key ≡ true
    → is_resident (touches (init large expert_bytes) history).resident key ≡ true
touches_inclusion small large expert_bytes history key h r =
    rw (touches-recency large expert_bytes history) (
      is_resident-drop _ _ (recency history) key (omega arith)
        (rw (touches-recency small expert_bytes history) at r))
