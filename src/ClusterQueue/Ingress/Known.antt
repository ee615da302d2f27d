-- ===== src/ClusterQueue/Ingress/Known.antt =====
-- What stays true of the pending descriptors while a node receives, keeps and takes.
use mem_service.Base.{
  ℕ, ◌<◌, ◌≡◌, refl, sym, ap, subst, ◌∙◌, Bool, true, false, Option, none, some, List, [], ◌∷◌,
  ◌++◌, All, All-append, length, leb, ◌==◌, ==_false, if_both, arith, inl, inr, Bool-cases,
}
use mem_service.ClusterQueue.Descs.{Desc}
use mem_service.ClusterQueue.Runtime.{Cluster, Env, pending_desc_depth}
use mem_service.ClusterQueue.Pending.{take_first, taken, take_pending, stash_pending_desc}
use mem_service.ClusterQueue.Pending.Order.{
  Within, Taken, take_pending_lem, take_pending-Within, stash_pending_desc-Within,
}
use mem_service.ClusterQueue.Ingress.Frame.{Receives, Moved}

-- A later cluster: nodes and queues stay, the world moves on.
pub record Follows {W : Type 0} (R : W → W → Type 0) (c c' : Cluster W) : Type 0 where
  pub node_count : c'.node_count ≡ c.node_count
  pub local_idx : c'.local_idx ≡ c.local_idx
  pub ingress : c'.ingress ≡ c.ingress
  pub later : R c.world c'.world

-- No list of pending descriptors is too long, and every descriptor in one has arrived from its node.
pub record Known {W : Type 0} (P : W → ℕ → Desc → Type 0) (c : Cluster W) : Type 0 where
  pub within : Within c
  pub came : (j : ℕ) → All (P c.world j) (c.pending j)

All-map :
    {A : Type 0} (P Q : A → Type 0) (xs : List A) → ((a : A) → P a → Q a) → All P xs → All Q xs
All-map P Q [] f h = tt
All-map P Q (x ∷ xs) f (p, h) = (f x p, All-map P Q xs f h)

All-append_right : {A : Type 0} (P : A → Type 0) (xs ys : List A) → All P (xs ++ ys) → All P ys
All-append_right P [] ys h = h
All-append_right P (x ∷ xs) ys (_, h) = All-append_right P xs ys h

All-append_left : {A : Type 0} (P : A → Type 0) (xs ys : List A) → All P (xs ++ ys) → All P xs
All-append_left P [] ys h = tt
All-append_left P (x ∷ xs) ys (p, h) = (p, All-append_left P xs ys h)

module _ {W : Type 0} (env : Env W) (R : W → W → Type 0) (P : W → ℕ → Desc → Type 0)
    (r : Receives env R P) where
  pub Follows-refl : (c : Cluster W) → Follows R c c
  Follows-refl c = record {
    node_count = refl;
    local_idx = refl;
    ingress = refl;
    later = r.monotone.same c.world;
  }

  pub Follows-trans : (c c' c'' : Cluster W) → Follows R c c' → Follows R c' c'' → Follows R c c''
  Follows-trans c c' c'' f g = record {
    node_count = g.node_count ∙ f.node_count;
    local_idx = g.local_idx ∙ f.local_idx;
    ingress = g.ingress ∙ f.ingress;
    later = r.monotone.trans c.world c'.world c''.world f.later g.later;
  }

  pub Moved-Follows : (c c' : Cluster W) → Moved R c c' → Follows R c c'
  Moved-Follows c c' v = record {
    node_count = ap (λ x. x.node_count) v.frame;
    local_idx = ap (λ x. x.local_idx) v.frame;
    ingress = ap (λ x. x.ingress) v.frame;
    later = v.later;
  }

  pub Moved-Known : (c c' : Cluster W) → Moved R c c' → Known P c → Known P c'
  Moved-Known c c' v k =
      let same : c'.pending ≡ c.pending = ap (λ x. x.pending) v.frame in
      record {
        within = rw same k.within;
        came = λ j. rw same (
            All-map (P c.world j) (P c'.world j) (c.pending j)
              (λ d p. r.stays c.world c'.world j d v.later p) (k.came j));
      }

  pub stash_pending_desc-Follows :
      (c : Cluster W) (i : ℕ) (d : Desc) → Follows R c (stash_pending_desc c i d)
  unfolding stash_pending_desc
  stash_pending_desc-Follows c i d =
      let here = Follows-refl c in
      if_both (Follows R c) (leb c.node_count i) here (
        if_both (Follows R c) (leb pending_desc_depth (length (c.pending i))) here (record {
          node_count = refl;
          local_idx = refl;
          ingress = refl;
          later = r.monotone.same c.world;
        }))

  stash_pending_desc-came :
      (c : Cluster W) (i : ℕ) (d : Desc)
      → P c.world i d
      → ((j : ℕ) → All (P c.world j) (c.pending j))
      → (j : ℕ) → All (P (stash_pending_desc c i d).world j) ((stash_pending_desc c i d).pending j)
  unfolding stash_pending_desc
  stash_pending_desc-came c i d p h j =
      let Q : Cluster W → Type 0 = λ (x : Cluster W). All (P x.world j) (x.pending j) in
      if_both Q (leb c.node_count i) (h j) (
        if_both Q (leb pending_desc_depth (length (c.pending i))) (h j)
          (elim (Bool-cases (j == i)) [
            | inl e ↦
                let same : i ≡ j = ground arith in
                rw e (
                  All-append (P c.world j) (c.pending i) (d ∷ [])
                    (subst (λ k. All (P c.world j) (c.pending k)) (sym same) (h j))
                    (subst (λ k. P c.world k d) same p, tt))
            | inr e ↦ rw e (h j)
          ]))

  pub stash_pending_desc-Known :
      (c : Cluster W) (i : ℕ) (d : Desc)
      → P c.world i d
      → Known P c
      → Known P (stash_pending_desc c i d)
  stash_pending_desc-Known c i d p k = record {
    within = stash_pending_desc-Within c i d k.within;
    came = stash_pending_desc-came c i d p k.came;
  }

  pub take_pending-Follows :
      (matches : Desc → Bool) (c : Cluster W) (i : ℕ) → Follows R c (take_pending matches c i).1
  unfolding take_pending taken
  take_pending-Follows matches c i =
      if_both (λ (t : Option Desc × Cluster W). Follows R c t.1) (leb c.node_count i)
        (Follows-refl c) (found (take_first matches (c.pending i)))
    where
      found : (o : Option (Desc × List Desc)) → Follows R c (taken c i o).1
      found none = Follows-refl c
      found (some (d, ds)) = record {
        node_count = refl;
        local_idx = refl;
        ingress = refl;
        later = r.monotone.same c.world;
      }

  -- What a take leaves: what was known, and of a descriptor that it answers with, that it matches
  -- and has arrived.
  unfoldable pub TakenKnown : (Desc → Bool) → ℕ → Option Desc × Cluster W → Type 0
  TakenKnown matches i (none, c') = Known P c'
  TakenKnown matches i (some d, c') = Known P c' × P c'.world i d × (matches d ≡ true)

  Taken-TakenKnown :
      (matches : Desc → Bool) (c : Cluster W) (i : ℕ) (t : Option Desc × Cluster W)
      → Known P c
      → Within t.1
      → Taken matches c i t
      → TakenKnown matches i t
  unfolding TakenKnown Taken
  Taken-TakenKnown matches c i (none, c') k w (same, _) = subst (Known P) (sym same) k
  Taken-TakenKnown matches c i (some d, c') k w (first, others, world) =
      let arrived : All (P c'.world i) (first.before ++ d ∷ first.after) =
        subst (All (P c'.world i)) first.whole (rw world (k.came i)) in
      let rest = All-append_right (P c'.world i) first.before (d ∷ first.after) arrived in
      (
        record {
          within = w;
          came = λ j. elim (Bool-cases (j == i)) [
            | inl e ↦
                let same : i ≡ j = ground arith in
                subst (λ n. All (P c'.world n) (c'.pending n)) same
                  (subst (All (P c'.world i)) (sym first.closed) (
                    All-append (P c'.world i) first.before first.after
                      (All-append_left (P c'.world i) first.before (d ∷ first.after) arrived)
                      rest.1))
            | inr e ↦ rw (others j (==_false j i e), world) (k.came j)
          ];
        },
        rest.0,
        first.accepted,
      )

  pub take_pending-TakenKnown :
      (matches : Desc → Bool) (c : Cluster W) (i : ℕ)
      → Known P c
      → TakenKnown matches i (take_pending matches c i)
  unfolding TakenKnown take_pending taken
  take_pending-TakenKnown matches c i k = elim (Bool-cases (leb c.node_count i)) [
    | inl e ↦ rw e k
    | inr e ↦
        Taken-TakenKnown matches c i (take_pending matches c i) k
          (take_pending-Within matches c i k.within) (take_pending_lem matches c i (ltb_lem e))
  ]
    where
      ltb_lem : leb c.node_count i ≡ false → i < c.node_count
      ltb_lem e = ground arith
