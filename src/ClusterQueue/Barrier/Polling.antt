-- ===== src/ClusterQueue/Barrier/Polling.antt =====
-- What the polling of one node finds, and what it leaves pending.
use mem_service.Base.{
  ℕ, zero, suc, ◌≡◌, ◌⊎◌, Bool, true, false, ◌||◌, Option, none, some, if◌then◌else◌, inl, inr,
  Bool-cases,
}
use mem_service.ClusterQueue.Descs.{Desc, desc_matches_barrier}
use mem_service.ClusterQueue.Runtime.{Cluster, Env}
use mem_service.ClusterQueue.Pending.{take_pending, take_pending_barrier_desc, stash_pending_desc}
use mem_service.ClusterQueue.Ingress.{PopCode, popped, nothing, invalid, io_error, pop_ingress_desc}
use mem_service.ClusterQueue.Ingress.Frame.{
  Receives, Receives-Pops, Answered, pop_ingress_desc-Answered,
}
use mem_service.ClusterQueue.Ingress.Known.{
  Follows, Known, TakenKnown, Follows-trans, Moved-Follows, Moved-Known, stash_pending_desc-Follows,
  stash_pending_desc-Known, take_pending-Follows, take_pending-TakenKnown,
}
use mem_service.ClusterQueue.Barrier.{drain_barrier, drain_unless, poll_peer}

-- A descriptor of this barrier has come from the node.
pub record Heard {W : Type 0} (P : W → ℕ → Desc → Type 0) (desc_type epoch : ℕ) (w : W) (i : ℕ)
    : Type 0 where
  pub desc : Desc
  pub arrived : P w i desc
  pub matches : desc_matches_barrier desc_type epoch desc ≡ true

module _ {W : Type 0} (env : Env W) (R : W → W → Type 0) (P : W → ℕ → Desc → Type 0)
    (r : Receives env R P) (desc_type epoch : ℕ) where
  pub Heard-later :
      (w w' : W) (i : ℕ) → R w w' → Heard P desc_type epoch w i → Heard P desc_type epoch w' i
  Heard-later w w' i l h = record {
    desc = h.desc;
    arrived = r.stays w w' i h.desc l h.arrived;
    matches = h.matches;
  }

  -- What the polling of one node answers, with what was known of it before.
  unfoldable pub Polled : ℕ → Bool → Cluster W → Option (Bool × Cluster W) → Type 0
  Polled i got c none = Unit
  Polled i got c (some (got', c')) =
      Follows R c c'
      × Known P c'
      × (got' ≡ true → (got ≡ true) ⊎ Heard P desc_type epoch c'.world i)

  -- Later results, read from an earlier cluster.
  Polled-from :
      (i : ℕ) (got g : Bool) (c x : Cluster W) (o : Option (Bool × Cluster W))
      → Follows R c x
      → (g ≡ true → (got ≡ true) ⊎ Heard P desc_type epoch x.world i)
      → Polled i g x o
      → Polled i got c o
  unfolding Polled
  Polled-from i got g c x none f h q = tt
  Polled-from i got g c x (some (got', c')) f h (f', k, h') = (
    Follows-trans env R P r c x c' f f',
    k,
    λ e. elim (h' e) [
      | inr heard ↦ inr heard
      | inl e' ↦ elim (h e') [
        | inl e'' ↦ inl e''
        | inr heard ↦ inr (Heard-later x.world c'.world i f'.later heard)
      ]
    ],
  )

  -- One pop of the loop: the descriptor counts, or it is kept.
  Polled-pop :
      (i : ℕ) (got : Bool) (c : Cluster W) (t : PopCode × Cluster W)
      (rest : Bool → Cluster W → Option (Bool × Cluster W))
      → Answered env R (λ w0 w j d. P w j d) (Receives-Pops env R P r) c i t
      → Known P c
      → ((g : Bool) (x : Cluster W) → Known P x → Polled i g x (rest g x))
      → Polled i got c (elim t.0 [
        | popped d ↦
            let hit = desc_matches_barrier desc_type epoch d in
            rest (hit || got) (if hit then t.1 else stash_pending_desc t.1 i d)
        | _ ↦ some (got, t.1)
      ])
  unfolding Polled Answered
  Polled-pop i got c (popped d, c') rest (v, p) k next =
      let k' = Moved-Known env R P r c c' v k in
      let f = Moved-Follows env R P r c c' v in
      elim (Bool-cases (desc_matches_barrier desc_type epoch d)) [
        | inl e ↦ rw e (
            Polled-from i got true c c' (rest true c') f
              (λ _. inr (record { desc = d; arrived = p; matches = e })) (next true c' k'))
        | inr e ↦
            let x = stash_pending_desc c' i d in
            rw e (
              Polled-from i got got c x (rest got x)
                (Follows-trans env R P r c c' x f (stash_pending_desc-Follows env R P r c' i d))
                (λ g. inl g) (next got x (stash_pending_desc-Known env R P r c' i d p k')))
      ]
  Polled-pop i got c (nothing, c') rest v k next =
      (Moved-Follows env R P r c c' v, Moved-Known env R P r c c' v k, λ g. inl g)
  Polled-pop i got c (invalid, c') rest v k next =
      (Moved-Follows env R P r c c' v, Moved-Known env R P r c c' v k, λ g. inl g)
  Polled-pop i got c (io_error, c') rest v k next =
      (Moved-Follows env R P r c c' v, Moved-Known env R P r c c' v k, λ g. inl g)

  drain_barrier-Polled :
      (i fuel : ℕ) (got : Bool) (c : Cluster W)
      → Known P c
      → Polled i got c (drain_barrier env desc_type epoch i fuel got c)
  unfolding drain_barrier Polled
  drain_barrier-Polled i zero got c k = tt
  drain_barrier-Polled i (suc fuel) got c k =
      Polled-pop i got c (pop_ingress_desc env c i) (drain_barrier env desc_type epoch i fuel)
        (pop_ingress_desc-Answered env R (λ w0 w j d. P w j d) (Receives-Pops env R P r) c i) k
        (λ g x k'. drain_barrier-Polled i fuel g x k')

  pub poll_peer-Polled :
      (fuel i : ℕ) (c : Cluster W)
      → Known P c
      → Polled i false c (poll_peer env desc_type epoch fuel i c)
  unfolding poll_peer drain_unless Polled take_pending_barrier_desc TakenKnown
  poll_peer-Polled fuel i c k =
      split (take_pending (desc_matches_barrier desc_type epoch) c i)
        (take_pending-Follows env R P r (desc_matches_barrier desc_type epoch) c i)
        (take_pending-TakenKnown env R P r (desc_matches_barrier desc_type epoch) c i k)
    where
      split :
          (t : Option Desc × Cluster W)
          → Follows R c t.1
          → TakenKnown env R P r (desc_matches_barrier desc_type epoch) i t
          → Polled i false c (drain_unless env desc_type epoch i fuel t)
      split (some d, c') f (k', p, e) =
          (f, k', λ _. inr (record { desc = d; arrived = p; matches = e }))
      split (none, c') f k' =
          Polled-from i false false c c' _ f (λ g. inl g) (drain_barrier-Polled i fuel false c' k')
