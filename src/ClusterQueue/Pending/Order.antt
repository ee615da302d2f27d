-- ===== src/ClusterQueue/Pending/Order.antt =====
-- Taking and keeping pending descriptors: the order stays, nothing else is lost, and no list grows
-- beyond its array.
use mem_service.Base.{
  ℕ, ◌≤◌, ◌<◌, ◌≡◌, ◌≢◌, refl, sym, ap, subst, Bool, true, false, inl, inr, Option, none, some,
  List, [], ◌∷◌, ◌++◌, All, leb, length, length-append, arith, Bool-cases,
}
use mem_service.ClusterQueue.Descs.{Desc}
use mem_service.ClusterQueue.Runtime.{Cluster, with_pending, pending_desc_depth}
use mem_service.ClusterQueue.Pending.{take_first, take_pending, taken, stash_pending_desc}

-- `d` is the first entry that matches, and `rest` the entries without it, in order.
pub record FirstMatch (matches : Desc → Bool) (ds : List Desc) (d : Desc) (rest : List Desc)
    : Type 0 where
  pub before : List Desc
  pub after : List Desc
  pub whole : ds ≡ before ++ d ∷ after
  pub closed : rest ≡ before ++ after
  pub accepted : matches d ≡ true
  pub passed_over : All (λ e. matches e ≡ false) before

-- What a search of a list answers.
pub Searched : (Desc → Bool) → List Desc → Option (Desc × List Desc) → Type 0
Searched matches ds none = All (λ e. matches e ≡ false) ds
Searched matches ds (some (d, rest)) = FirstMatch matches ds d rest

pub take_first-Searched :
    (matches : Desc → Bool) (ds : List Desc) → Searched matches ds (take_first matches ds)
unfolding Searched take_first
take_first-Searched matches [] = tt
take_first-Searched matches (d ∷ ds) = elim (Bool-cases (matches d)) [
  | inl e ↦ rw e (record {
    before = [];
    after = ds;
    whole = refl;
    closed = refl;
    accepted = e;
    passed_over = tt;
  })
  | inr e ↦ rw e (pass (take_first matches ds) (take_first-Searched matches ds) e)
]
  where
    pass :
        (o : Option (Desc × List Desc))
        → Searched matches ds o
        → matches d ≡ false
        → Searched matches
            (d ∷ ds)
            (elim o [ none ↦ none | some found ↦ some (found.0, d ∷ found.1) ])
    pass none s e = (e, s)
    pass (some found) s e = record {
      before = d ∷ s.before;
      after = s.after;
      whole = ap (◌∷◌ d) s.whole;
      closed = ap (◌∷◌ d) s.closed;
      accepted = s.accepted;
      passed_over = (e, s.passed_over);
    }

take_first_last :
    (matches : Desc → Bool) (ds : List Desc) (d : Desc)
    → All (λ e. matches e ≡ false) ds
    → matches d ≡ true
    → take_first matches (ds ++ d ∷ []) ≡ some (d, ds)
unfolding take_first
take_first_last matches [] d h e = rw e
take_first_last matches (x ∷ ds) d (p, h) e = rw (p, take_first_last matches ds d h e)

module _ {W : Type 0} where
  pub with_pending_same :
      (c : Cluster W) (i : ℕ) (ds : List Desc) → (with_pending c i ds).pending i ≡ ds
  with_pending_same c i ds = ground arith

  pub with_pending_other :
      (c : Cluster W) (i : ℕ) (ds : List Desc) (j : ℕ)
      → j ≢ i
      → (with_pending c i ds).pending j ≡ c.pending j
  with_pending_other c i ds j h = ground arith

  -- What a take of a node's descriptors answers and leaves.
  unfoldable pub Taken : (Desc → Bool) → Cluster W → ℕ → Option Desc × Cluster W → Type 0
  Taken matches c owner_idx (none, c') =
      (c' ≡ c) × All (λ e. matches e ≡ false) (c.pending owner_idx)
  Taken matches c owner_idx (some d, c') =
      FirstMatch matches (c.pending owner_idx) d (c'.pending owner_idx)
      × ((j : ℕ) → j ≢ owner_idx → c'.pending j ≡ c.pending j)
      × (c'.world ≡ c.world)

  -- For a node of the cluster, a take answers with the first pending descriptor that matches and
  -- leaves the others in their order; where none matches it changes nothing. The descriptors of the
  -- other nodes stay as they are.
  pub take_pending_lem :
      (matches : Desc → Bool) (c : Cluster W) (owner_idx : ℕ)
      → owner_idx < c.node_count
      → Taken matches c owner_idx (take_pending matches c owner_idx)
  unfolding take_pending Searched Taken taken
  take_pending_lem matches c owner_idx h =
      let inside : leb c.node_count owner_idx ≡ false = ground arith in
      rw inside (
        found (take_first matches (c.pending owner_idx))
          (take_first-Searched matches (c.pending owner_idx)))
    where
      found :
          (o : Option (Desc × List Desc))
          → Searched matches (c.pending owner_idx) o
          → Taken matches c owner_idx (taken c owner_idx o)
      found none s = (refl, s)
      found (some (d, rest)) s = (
        subst (FirstMatch matches (c.pending owner_idx) d)
            (sym (with_pending_same c owner_idx rest)) s,
        with_pending_other c owner_idx rest,
        refl,
      )

  -- A descriptor that is kept is found again by the first test that accepts it: if nothing that is
  -- pending matches and there is room, a take after keeping it answers with it, and the pending
  -- descriptors are what they were.
  pub take_pending-stash_pending_desc :
      (matches : Desc → Bool) (c : Cluster W) (owner_idx : ℕ) (d : Desc)
      → owner_idx < c.node_count
      → length (c.pending owner_idx) < pending_desc_depth
      → All (λ e. matches e ≡ false) (c.pending owner_idx)
      → matches d ≡ true
      → ((take_pending matches (stash_pending_desc c owner_idx d) owner_idx).0 ≡ some d)
        × ((j : ℕ)
            → (take_pending matches (stash_pending_desc c owner_idx d) owner_idx).1.pending j
              ≡ c.pending j)
  unfolding take_pending stash_pending_desc taken
  take_pending-stash_pending_desc matches c owner_idx d h room unmatched e =
      let inside : leb c.node_count owner_idx ≡ false = ground arith in
      let fits : leb pending_desc_depth (length (c.pending owner_idx)) ≡ false = ground arith in
      let kept = with_pending_same c owner_idx (c.pending owner_idx ++ d ∷ []) in
      let last = take_first_last matches (c.pending owner_idx) d unmatched e in
      rw (inside, fits, inside, kept, last) (refl, restored)
    where
      restored :
          (j : ℕ)
          → (with_pending
                (with_pending c owner_idx (c.pending owner_idx ++ d ∷ []))
                owner_idx
                (c.pending owner_idx)).pending
              j
            ≡ c.pending j
      restored j = ground arith

-- No list of pending descriptors is longer than its array.
abbrev pub Within : {W : Type 0} → Cluster W → Type 0
Within c = (j : ℕ) → length (c.pending j) ≤ pending_desc_depth

module _ {W : Type 0} where
  pub with_pending-Within :
      (c : Cluster W) (i : ℕ) (ds : List Desc)
      → Within c
      → length ds ≤ pending_desc_depth
      → Within (with_pending c i ds)
  with_pending-Within c i ds v h j = ground (arith, v j)

  pub stash_pending_desc-Within :
      (c : Cluster W) (owner_idx : ℕ) (d : Desc)
      → Within c
      → Within (stash_pending_desc c owner_idx d)
  unfolding stash_pending_desc
  stash_pending_desc-Within c owner_idx d v j =
      ground (arith, v j, v owner_idx, length-append (c.pending owner_idx) (d ∷ []))

  pub take_pending-Within :
      (matches : Desc → Bool) (c : Cluster W) (owner_idx : ℕ)
      → Within c
      → Within (take_pending matches c owner_idx).1
  unfolding take_pending Searched taken
  take_pending-Within matches c owner_idx v = elim (Bool-cases (leb c.node_count owner_idx)) [
    | inl outside ↦ rw outside v
    | inr inside ↦ rw inside (
        found (take_first matches (c.pending owner_idx))
          (take_first-Searched matches (c.pending owner_idx)))
  ]
    where
      found :
          (o : Option (Desc × List Desc))
          → Searched matches (c.pending owner_idx) o
          → Within (taken c owner_idx o).1
      found none s = v
      found (some (d, rest)) s = with_pending-Within c owner_idx rest v (
          omega (
            arith,
            v owner_idx,
            ap length s.whole,
            ap length s.closed,
            length-append s.before (d ∷ s.after),
            length-append s.before s.after,
          ))
