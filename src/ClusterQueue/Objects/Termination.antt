-- ===== src/ClusterQueue/Objects/Termination.antt =====
-- The wait for an acknowledgement returns.
use mem_service.Base.{
  ℕ, zero, suc, ◌+◌, ◌≤◌, ◌<◌, subst, Bool, true, false, Option, none, some, ltb, if◌then◌else◌,
  if_both, any_of, arith, inl, inr, Bool-cases, Option-cases,
}
use mem_service.ClusterQueue.Descs.{Desc, object_ack_matches, object_put_desc}
use mem_service.ClusterQueue.Runtime.{Cluster, Env, now, sleep, cluster_wait_ms}
use mem_service.ClusterQueue.Pending.{take_pending, take_pending_object_ack, stash_pending_desc}
use mem_service.ClusterQueue.Ingress.{PopCode, popped, nothing, invalid, io_error, pop_ingress_desc}
use mem_service.ClusterQueue.Ingress.Frame.{Answered, pop_ingress_desc-Answered}
use mem_service.ClusterQueue.Ingress.Known.{
  Follows, Follows-refl, Moved-Follows, stash_pending_desc-Follows, take_pending-Follows,
}
use mem_service.ClusterQueue.Barrier.Draining.{
  Finite, R, finite-Pops, finite-Receives, then_Follows, sleep-Follows, Ends, Ends-from,
}
use mem_service.ClusterQueue.Objects.{
  drain_ack, ack_unless, wait_ack, wait_ack_conditions, wait_obmm_object_ack_from,
}

module _ {W : Type 0} (env : Env W) (left : W → ℕ → ℕ) (f : Finite env left) where
  Ends-ack_pop :
      (put : Desc) (i : ℕ) (c : Cluster W) (t : PopCode × Cluster W)
      (rest : Cluster W → Option (Bool × Cluster W))
      → Answered env
          (R env left f)
          (λ w w' j d. left w' j + 1 ≤ left w j)
          (finite-Pops env left f)
          c
          i
          t
      → ((x : Cluster W) → left x.world i + 1 ≤ left c.world i → Ends env left f x (rest x))
      → Ends env left f c (elim t.0 [
        | popped d ↦
            let rest' = rest (stash_pending_desc t.1 i d) in
            if object_ack_matches put d then some (true, t.1) else rest'
        | _ ↦ some (false, t.1)
      ])
  unfolding Ends Answered
  Ends-ack_pop put i c (popped d, c') rest (v, less) next =
      let g =
        Moved-Follows env (R env left f) (λ w j e. Unit) (finite-Receives env left f) c c' v in
      let s =
        stash_pending_desc-Follows env (R env left f) (λ w j e. Unit) (finite-Receives env left f)
          c' i d in
      let x = stash_pending_desc c' i d in
      if_both (Ends env left f c) (object_ack_matches put d) g (
        Ends-from env left f c x (rest x) (then_Follows env left f c c' x g s)
          (next x (omega (arith, s.later.fewer i, less))))
  Ends-ack_pop put i c (nothing, c') rest v next =
      Moved-Follows env (R env left f) (λ w j e. Unit) (finite-Receives env left f) c c' v
  Ends-ack_pop put i c (invalid, c') rest v next =
      Moved-Follows env (R env left f) (λ w j e. Unit) (finite-Receives env left f) c c' v
  Ends-ack_pop put i c (io_error, c') rest v next =
      Moved-Follows env (R env left f) (λ w j e. Unit) (finite-Receives env left f) c c' v

  drain_ack-Ends :
      (put : Desc) (i fuel : ℕ) (c : Cluster W)
      → left c.world i < fuel
      → Ends env left f c (drain_ack env put i fuel c)
  unfolding drain_ack Ends
  drain_ack-Ends put i zero c h = absurd (omega arith)
  drain_ack-Ends put i (suc fuel) c h =
      Ends-ack_pop put i c (pop_ingress_desc env c i) (drain_ack env put i fuel)
        (pop_ingress_desc-Answered env (R env left f) (λ w w' j d. left w' j + 1 ≤ left w j)
          (finite-Pops env left f) c i)
        (λ x less. drain_ack-Ends put i fuel x (omega arith))

  ack_unless-Ends :
      (put : Desc) (i fuel : ℕ) (c : Cluster W) (t : Option Desc × Cluster W)
      → Follows (R env left f) c t.1
      → left c.world i < fuel
      → Ends env left f c (ack_unless env put i fuel t)
  unfolding ack_unless Ends
  ack_unless-Ends put i fuel c (some d, c') g h = g
  ack_unless-Ends put i fuel c (none, c') g h =
      Ends-from env left f c c' (drain_ack env put i fuel c') g
        (drain_ack-Ends put i fuel c' (omega (arith, g.later.fewer i, h)))

  wait_ack-Ends :
      (put : Desc) (i deadline fuel rounds : ℕ) (c : Cluster W)
      → left c.world i < fuel
      → 1 ≤ rounds
      → deadline + 1 ≤ now env c + rounds
      → Ends env left f c (wait_ack env put i deadline fuel rounds c)
  unfolding wait_ack Ends take_pending_object_ack
  wait_ack-Ends put i deadline fuel zero c h some_rounds enough = absurd (omega arith)
  wait_ack-Ends put i deadline fuel (suc rounds) c h some_rounds enough =
      let t = take_pending (object_ack_matches put) c i in
      let o = ack_unless env put i fuel t in
      let q =
        ack_unless-Ends put i fuel c t
          (take_pending-Follows env (R env left f) (λ w j d. Unit) (finite-Receives env left f)
            (object_ack_matches put) c i)
          h in
      elim (Bool-cases (ltb (now env c) deadline)) [
        | inr over ↦
            rw over (Follows-refl env (R env left f) (λ w j d. Unit) (finite-Receives env left f) c)
        | inl soon ↦ rw soon (elim (Option-cases o) [
          | inl spent ↦ absurd (subst (Ends env left f c) spent q)
          | inr (u, e) ↦
              let g = subst (Ends env left f c) e q in
              let x = sleep env u.1 in
              let g' = then_Follows env left f c u.1 x g (sleep-Follows env left f u.1) in
              let time = f.ticks u.1.world in
              rw e (
                if_both (Ends env left f c) u.0 g (
                  Ends-from env left f c x _ g' (
                    wait_ack-Ends put i deadline fuel rounds x (omega (arith, g'.later.fewer i, h))
                      (ground arith) (omega (arith, time, g.later.time)))))
        ])
      ]

  -- A wait for an acknowledgement returns, on a clock that goes on and with peers that send finitely
  -- many descriptors, given fuel for the 300000 ms of its deadline and one round more, and for the
  -- descriptors that the queue still brings.
  pub wait_obmm_object_ack_from-Ends :
      (fuel : ℕ) (c : Cluster W) (source kind offset len checksum epoch : ℕ)
      → cluster_wait_ms + 1 ≤ fuel
      → left c.world source < fuel
      → Ends env left f c
          (wait_obmm_object_ack_from env fuel c source kind offset len checksum epoch)
  unfolding wait_obmm_object_ack_from Ends
  wait_obmm_object_ack_from-Ends fuel c source kind offset len checksum epoch h k =
      if_both (Ends env left f c) (any_of (wait_ack_conditions env c source kind len))
        (Follows-refl env (R env left f) (λ w j d. Unit) (finite-Receives env left f) c)
        (wait_ack-Ends (object_put_desc c.local_idx kind offset len checksum epoch) source
          (now env c + cluster_wait_ms) fuel fuel c k (omega arith) (omega arith))
