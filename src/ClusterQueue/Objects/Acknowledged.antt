-- ===== src/ClusterQueue/Objects/Acknowledged.antt =====
-- What a wait for an acknowledgement that returns 0 has seen.
use mem_service.Base.{
  ℕ, zero, suc, ◌+◌, ◌≡◌, refl, subst, Bool, true, false, Option, none, some, ltb, if◌then◌else◌,
  any_of, arith, inl, inr, Bool-cases, Option-cases,
}
use mem_service.ClusterQueue.Descs.{Desc, object_put, object_ack_matches, object_put_desc, ack_desc}
use mem_service.ClusterQueue.Descs.Matching.{object_ack_matches_iff}
use mem_service.ClusterQueue.Runtime.{Cluster, Env, now, sleep, cluster_wait_ms}
use mem_service.ClusterQueue.Pending.{take_pending, take_pending_object_ack, stash_pending_desc}
use mem_service.ClusterQueue.Ingress.{PopCode, popped, nothing, invalid, io_error, pop_ingress_desc}
use mem_service.ClusterQueue.Ingress.Frame.{
  Receives, Receives-Pops, Answered, pop_ingress_desc-Answered,
}
use mem_service.ClusterQueue.Ingress.Known.{
  Known, TakenKnown, Moved-Known, stash_pending_desc-Known, take_pending-TakenKnown,
}
use mem_service.ClusterQueue.Objects.{
  drain_ack, ack_unless, wait_ack, wait_ack_conditions, wait_obmm_object_ack_from,
}

module _ {W : Type 0} (env : Env W) (R : W → W → Type 0) (P : W → ℕ → Desc → Type 0)
    (r : Receives env R P) where
  -- What is known after a wait for the acknowledgement of `put`.
  pub Acked : Desc → ℕ → Option (Bool × Cluster W) → Type 0
  Acked put i none = Unit
  Acked put i (some (true, c')) = Known P c' × P c'.world i (ack_desc put)
  Acked put i (some (false, c')) = Known P c'

  Acked-pop :
      (put : Desc) (i : ℕ) (c : Cluster W) (t : PopCode × Cluster W)
      (rest : Cluster W → Option (Bool × Cluster W))
      → put.desc_type ≡ object_put
      → Answered env R (λ w0 w j d. P w j d) (Receives-Pops env R P r) c i t
      → Known P c
      → ((x : Cluster W) → Known P x → Acked put i (rest x))
      → Acked put i (elim t.0 [
        | popped d ↦
            let rest' = rest (stash_pending_desc t.1 i d) in
            if object_ack_matches put d then some (true, t.1) else rest'
        | _ ↦ some (false, t.1)
      ])
  unfolding Acked Answered
  Acked-pop put i c (popped d, c') rest h (v, p) k next =
      let k' = Moved-Known env R P r c c' v k in
      elim (Bool-cases (object_ack_matches put d)) [
        | inl e ↦ rw e (k', subst (P c'.world i) ((object_ack_matches_iff put d h).0 e) p)
        | inr e ↦
            rw e (next (stash_pending_desc c' i d) (stash_pending_desc-Known env R P r c' i d p k'))
      ]
  Acked-pop put i c (nothing, c') rest h v k next = Moved-Known env R P r c c' v k
  Acked-pop put i c (invalid, c') rest h v k next = Moved-Known env R P r c c' v k
  Acked-pop put i c (io_error, c') rest h v k next = Moved-Known env R P r c c' v k

  drain_ack-Acked :
      (put : Desc) (i fuel : ℕ) (c : Cluster W)
      → put.desc_type ≡ object_put
      → Known P c
      → Acked put i (drain_ack env put i fuel c)
  unfolding drain_ack Acked
  drain_ack-Acked put i zero c h k = tt
  drain_ack-Acked put i (suc fuel) c h k =
      Acked-pop put i c (pop_ingress_desc env c i) (drain_ack env put i fuel) h
        (pop_ingress_desc-Answered env R (λ w0 w j d. P w j d) (Receives-Pops env R P r) c i) k
        (λ x k'. drain_ack-Acked put i fuel x h k')

  ack_unless-Acked :
      (put : Desc) (i fuel : ℕ) (t : Option Desc × Cluster W)
      → put.desc_type ≡ object_put
      → TakenKnown env R P r (object_ack_matches put) i t
      → Acked put i (ack_unless env put i fuel t)
  unfolding ack_unless Acked TakenKnown
  ack_unless-Acked put i fuel (some d, c) h (k, p, e) =
      (k, subst (P c.world i) ((object_ack_matches_iff put d h).0 e) p)
  ack_unless-Acked put i fuel (none, c) h k = drain_ack-Acked put i fuel c h k

  slept-Known : (c : Cluster W) → Known P c → Known P (sleep env c)
  slept-Known c k =
      Moved-Known env R P r c (sleep env c)
        (record { frame = refl; later = r.monotone.on_usleep 1000 c.world }) k

  wait_ack-Acked :
      (put : Desc) (i deadline fuel rounds : ℕ) (c : Cluster W)
      → put.desc_type ≡ object_put
      → Known P c
      → Acked put i (wait_ack env put i deadline fuel rounds c)
  unfolding wait_ack Acked take_pending_object_ack
  wait_ack-Acked put i deadline fuel zero c h k = tt
  wait_ack-Acked put i deadline fuel (suc rounds) c h k =
      let o = ack_unless env put i fuel (take_pending (object_ack_matches put) c i) in
      let q =
        ack_unless-Acked put i fuel (take_pending (object_ack_matches put) c i) h
          (take_pending-TakenKnown env R P r (object_ack_matches put) c i k) in
      elim (Bool-cases (ltb (now env c) deadline)) [
        | inr over ↦ rw over k
        | inl soon ↦ rw soon (elim (Option-cases o) [
          | inl spent ↦ rw spent tt
          | inr (t, e) ↦
              rw e (round t (subst (Acked put i) e q) (wait_ack-Acked put i deadline fuel rounds))
        ])
      ]
    where
      round :
          (t : Bool × Cluster W)
          → Acked put i (some t)
          → ((x : Cluster W)
              → put.desc_type ≡ object_put
              → Known P x
              → Acked put i (wait_ack env put i deadline fuel rounds x))
          → Acked put i (
              if t.0
              then some (true, t.1)
              else wait_ack env put i deadline fuel rounds (sleep env t.1))
      round (true, x) a next = a
      round (false, x) a next = next (sleep env x) h (slept-Known x a)

  -- Where the lists of pending descriptors hold at most 16 each, all of them arrived, a wait for an
  -- acknowledgement that returns 0 has got, from the node that it names, the put descriptor of exactly
  -- that object turned into an acknowledgement; the lists are still so.
  pub wait_obmm_object_ack_from_lem :
      (fuel : ℕ) (c c' : Cluster W) (source kind offset len checksum epoch : ℕ)
      → Known P c
      → wait_obmm_object_ack_from env fuel c source kind offset len checksum epoch ≡ some (true, c')
      → Known P c'
        × P c'.world source (ack_desc (object_put_desc c.local_idx kind offset len checksum epoch))
  unfolding wait_obmm_object_ack_from Acked
  wait_obmm_object_ack_from_lem fuel c c' source kind offset len checksum epoch k e =
      let put = object_put_desc c.local_idx kind offset len checksum epoch in
      let is_put : put.desc_type ≡ object_put = unfold object_put_desc in refl in
      elim (Bool-cases (any_of (wait_ack_conditions env c source kind len))) [
        | inl refused ↦
            absurd (let e' : some (false, c) ≡ some (true, c') = rw refused at e in ground arith)
        | inr passes ↦
            let e' = rw passes at e in
            subst (Acked put source) e'
              (wait_ack-Acked put source (now env c + cluster_wait_ms) fuel fuel c is_put k)
      ]
