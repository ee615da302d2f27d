-- ===== src/Service/Retention/Oldest.antt =====
-- The search for the oldest record, and the loop that gives records up.
pub mod Limit
use mem_service.Base.{
  ℕ, zero, suc, ◌+◌, ◌-◌, ◌≤◌, ◌<◌, min, ◌≡◌, ◌≢◌, refl, sym, ap, subst, ◌∙◌, ◌⊎◌, inl, inr, Bool,
  true, false, not, ◌&&◌, ◌||◌, Option, none, some, List, [], ◌∷◌, ltb, leb, ◌==◌, if◌then◌else◌,
  count, get_elem?, Bool-cases, arith,
}
use mem_service.Service.{Record}
use mem_service.Service.Retention.{is_older, older_than, oldest_from}

module _ (p : Record → Bool) where
  -- No record that passes is older.
  abbrev pub NoneOlder : List Record → Record → Type 0
  NoneOlder rs r =
      (k : ℕ) (a : Record) → get_elem? rs k ≡ some a → p a ≡ true → is_older a r ≡ false

  -- The record that is found passes, and none that passes is older.
  pub record IsOldest (rs : List Record) (i j : ℕ) (r : Record) : Type 0 where
    pub passes : p r ≡ true
    pub within : i ≤ j
    pub held : get_elem? rs (j - i) ≡ some r
    pub oldest : NoneOlder rs r

  -- With a record `b` at hand, the search ends at one that is not younger.
  pub record IsBest (rs : List Record) (i m : ℕ) (b : Record) (j : ℕ) (r : Record) : Type 0 where
    pub passes : p r ≡ true
    pub not_younger : is_older b r ≡ false
    pub from : ((j ≡ m) × (r ≡ b)) ⊎ ((i ≤ j) × (get_elem? rs (j - i) ≡ some r))
    pub oldest : NoneOlder rs r

  not_older_self : (b : Record) → is_older b b ≡ false
  not_older_self b = ground arith

  not_older_trans :
      (a b r : Record) → is_older a b ≡ false → is_older b r ≡ false → is_older a r ≡ false
  not_older_trans a b r h k = ground arith

  older-not_older : (a b : Record) → is_older a b ≡ true → is_older b a ≡ false
  older-not_older a b h = ground arith

  -- What holds of the rest of the array, and of its first record, holds of the array.
  cons_held :
      (a : Record) (rs : List Record) (i j : ℕ) (r : Record)
      → ((j ≡ i) × (r ≡ a)) ⊎ ((suc i ≤ j) × (get_elem? rs (j - suc i) ≡ some r))
      → (i ≤ j) × (get_elem? (a ∷ rs) (j - i) ≡ some r)
  cons_held a rs i j r (inl (at, same)) =
      let here : j - i ≡ 0 = omega (arith, at) in
      (omega (arith, at), ap (get_elem? (a ∷ rs)) here ∙ ap some (sym same))
  cons_held a rs i j r (inr (after, e)) =
      let next : j - i ≡ suc (j - suc i) = omega (arith, after) in
      (omega (arith, after), ap (get_elem? (a ∷ rs)) next ∙ e)

  cons_oldest :
      (a : Record) (rs : List Record) (r : Record)
      → (p a ≡ true → is_older a r ≡ false)
      → NoneOlder rs r
      → NoneOlder (a ∷ rs) r
  cons_oldest a rs r first rest zero c e h =
      let same : a ≡ c = cc in subst (λ x. is_older x r ≡ false) same (first (ap p same ∙ h))
  cons_oldest a rs r first rest (suc k) c e h = rest k c e h

  oldest_from-IsBest :
      (rs : List Record) (i m : ℕ) (b : Record)
      → p b ≡ true
      → (j : ℕ) × (r : Record) × (oldest_from p i (some (m, b)) rs ≡ some (j, r))
        × IsBest rs i m b j r
  unfolding oldest_from
  oldest_from-IsBest [] i m b h = (
    m,
    b,
    refl,
    record {
      passes = h;
      not_younger = not_older_self b;
      from = inl (refl, refl);
      oldest = λ k a e _. absurd (ground arith);
    },
  )
  oldest_from-IsBest (a ∷ rs) i m b h = elim (Bool-cases (p a && is_older a b)) [
    | inl better ↦
        let passes : p a ≡ true = ground arith in
        let older : is_older a b ≡ true = ground arith in
        let (j, r, e, best) = oldest_from-IsBest rs (suc i) i a passes in
        (
          j,
          r,
          rw better e,
          record {
            passes = best.passes;
            not_younger = not_older_trans b a r (older-not_older a b older) best.not_younger;
            from = inr (cons_held a rs i j r best.from);
            oldest = cons_oldest a rs r (λ _. best.not_younger) best.oldest;
          },
        )
    | inr worse ↦
        let (j, r, e, best) = oldest_from-IsBest rs (suc i) m b h in
        (
          j,
          r,
          rw worse e,
          record {
            passes = best.passes;
            not_younger = best.not_younger;
            from = elim (best.from) [
              | inl at ↦ inl at
              | inr after ↦ inr (cons_held a rs i j r (inr after))
            ];
            oldest =
                cons_oldest a rs r
                  (λ h'. not_older_trans a b r (ground (arith, worse, h')) best.not_younger)
                  best.oldest;
          },
        )
  ]

  oldest_from-first :
      (rs : List Record) (i : ℕ)
      → ((oldest_from p i none rs ≡ none) × (count p rs ≡ 0))
        ⊎ ((j : ℕ) × (r : Record) × (oldest_from p i none rs ≡ some (j, r)) × IsOldest rs i j r)
  unfolding oldest_from count
  oldest_from-first [] i = inl (refl, refl)
  oldest_from-first (a ∷ rs) i = elim (Bool-cases (p a)) [
    | inl passes ↦
        let (j, r, e, best) = oldest_from-IsBest rs (suc i) i a passes in
        let (within, held) = cons_held a rs i j r best.from in
        inr (
          j,
          r,
          rw passes e,
          record {
            passes = best.passes;
            within = within;
            held = held;
            oldest = cons_oldest a rs r (λ _. best.not_younger) best.oldest;
          },
        )
    | inr fails ↦ rw fails (elim (oldest_from-first rs (suc i)) [
      | inl nothing ↦ inl nothing
      | inr (j, r, e, found) ↦
          let (within, held) = cons_held a rs i j r (inr (found.within, found.held)) in
          inr (
            j,
            r,
            e,
            record {
              passes = found.passes;
              within = within;
              held = held;
              oldest = cons_oldest a rs r (λ h. absurd (ground (arith, fails, h))) found.oldest;
            },
          )
    ])
  ]

  -- The search over the whole array finds a record that passes, of which none that passes is older, or
  -- there is none.
  pub oldest_from_lem :
      (rs : List Record)
      → ((oldest_from p 0 none rs ≡ none) × (count p rs ≡ 0))
        ⊎ ((j : ℕ) × (r : Record) × (oldest_from p 0 none rs ≡ some (j, r))
            × (get_elem? rs j ≡ some r)
            × (p r ≡ true)
            × NoneOlder rs r)
  oldest_from_lem rs = elim (oldest_from-first rs 0) [
    | inl nothing ↦ inl nothing
    | inr (j, r, e, found) ↦
        let whole : j ≡ j - 0 = omega arith in
        inr (j, r, e, ap (get_elem? rs) whole ∙ found.held, found.passes, found.oldest)
  ]
