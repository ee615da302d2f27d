-- ===== src/ClusterQueue/Barrier/Termination.antt =====
-- A barrier returns: its rounds end by the clock, and each round when the queues are drained.
use mem_service.Base.{
  ℕ, zero, suc, ◌+◌, ◌≤◌, ◌<◌, ◌≡◌, refl, subst, Bool, true, false, ◌||◌, Option, none, some, List,
  [], ◌∷◌, ltb, ◌==◌, if_both, is_none, arith, inl, inr, Bool-cases, Option-cases,
}
use mem_service.ClusterQueue.Descs.{barrier_desc}
use mem_service.ClusterQueue.Runtime.{Cluster, Env, now, sleep, nodes_from, cluster_wait_ms}
use mem_service.ClusterQueue.Ingress.Known.{Follows, Follows-refl, Moved-Follows}
use mem_service.ClusterQueue.Send.{and_then, push_all}
use mem_service.ClusterQueue.Send.Delivered.{push_all-Moved}
use mem_service.ClusterQueue.Send.Termination.{Returns, push_all-Returns}
use mem_service.ClusterQueue.Barrier.{
  poll_peer, set_got, RoundResult, with_hit, poll_all, collect, queue_barrier,
}
use mem_service.ClusterQueue.Barrier.Draining.{
  Finite, R, finite-Receives, finite-Sends, finite-Clock, then_Follows, sleep-Follows, Ends,
  Ends-from, poll_peer-Ends,
}

module _ {W : Type 0} (env : Env W) (left : W → ℕ → ℕ) (f : Finite env left) where
  RoundEnds : Cluster W → RoundResult env → Type 0
  RoundEnds c none = ⊥
  RoundEnds c (some (all, got, c')) = Follows (R env left f) c c'

  RoundEnds-hit :
      (hit : Bool) (c x : Cluster W) (o : RoundResult env)
      → Follows (R env left f) c x
      → RoundEnds x o
      → RoundEnds c (with_hit env hit o)
  unfolding RoundEnds
  RoundEnds-hit hit c x none g e = e
  RoundEnds-hit hit c x (some (all, got, c')) g e = then_Follows env left f c x c' g e

  poll_all-RoundEnds :
      (desc_type epoch fuel : ℕ) (peers : List ℕ) (got : ℕ → Bool) (c : Cluster W)
      → ((i : ℕ) → left c.world i < fuel)
      → RoundEnds c (poll_all env desc_type epoch fuel peers got c)
  unfolding poll_all RoundEnds Ends
  poll_all-RoundEnds desc_type epoch fuel [] got c h =
      Follows-refl env (R env left f) (λ w j d. Unit) (finite-Receives env left f) c
  poll_all-RoundEnds desc_type epoch fuel (i ∷ peers) got c h =
      if_both (RoundEnds c) (got i || is_none (c.ingress i))
        (poll_all-RoundEnds desc_type epoch fuel peers got c h)
        (elim (Option-cases (poll_peer env desc_type epoch fuel i c)) [
          | inl nothing ↦ absurd (
              subst (Ends env left f c) nothing
                (poll_peer-Ends env left f desc_type epoch fuel i c (h i)))
          | inr (t, e) ↦
              let g =
                subst (Ends env left f c) e
                  (poll_peer-Ends env left f desc_type epoch fuel i c (h i)) in
              rw e (
                RoundEnds-hit t.0 c t.1 _ g (
                  poll_all-RoundEnds desc_type epoch fuel peers (set_got env got i t.0) t.1
                    (λ j. omega (arith, g.later.fewer j, h j))))
        ])

  collect-Ends :
      (desc_type epoch deadline fuel rounds : ℕ) (got : ℕ → Bool) (c : Cluster W)
      → ((i : ℕ) → left c.world i < fuel)
      → 1 ≤ rounds
      → deadline + 1 ≤ now env c + rounds
      → Ends env left f c (collect env desc_type epoch deadline fuel rounds got c)
  unfolding collect Ends RoundEnds
  collect-Ends desc_type epoch deadline fuel zero got c h some_rounds enough = absurd (omega arith)
  collect-Ends desc_type epoch deadline fuel (suc rounds) got c h some_rounds enough =
      let o = poll_all env desc_type epoch fuel (nodes_from 0 c.node_count) got c in
      let q = poll_all-RoundEnds desc_type epoch fuel (nodes_from 0 c.node_count) got c h in
      elim (Bool-cases (ltb (now env c) deadline)) [
        | inr over ↦
            rw over (Follows-refl env (R env left f) (λ w j d. Unit) (finite-Receives env left f) c)
        | inl soon ↦ rw soon (elim (Option-cases o) [
          | inl nothing ↦ absurd (subst (RoundEnds c) nothing q)
          | inr (t, e) ↦
              let g = subst (RoundEnds c) e q in
              let x = sleep env t.2 in
              let g' = then_Follows env left f c t.2 x g (sleep-Follows env left f t.2) in
              let time = f.ticks t.2.world in
              rw e (
                if_both (Ends env left f c) t.0 g (
                  Ends-from env left f c x _ g' (
                    collect-Ends desc_type epoch deadline fuel rounds t.1 x
                      (λ j. omega (arith, g'.later.fewer j, h j)) (ground arith)
                      (omega (arith, time, g.later.time)))))
        ])
      ]

  -- A barrier returns, on a clock that goes on and with peers that send finitely many descriptors,
  -- given fuel for the 300000 ms of its deadline and two rounds more, and for the descriptors that a
  -- queue still brings.
  pub queue_barrier-Ends :
      (fuel : ℕ) (c : Cluster W) (desc_type epoch publish_seq : ℕ)
      → cluster_wait_ms + 2 ≤ fuel
      → ((i : ℕ) → left c.world i < fuel)
      → Ends env left f c (queue_barrier env fuel c desc_type epoch publish_seq)
  unfolding queue_barrier Ends Returns
  queue_barrier-Ends fuel c desc_type epoch publish_seq h k =
      split
        (push_all env (ltb (now env c + cluster_wait_ms)) fuel (nodes_from 0 c.node_count)
          (barrier_desc desc_type epoch publish_seq) c)
        refl
    where
      sent :
          (b : Bool) (x : Cluster W)
          → Follows (R env left f) c x
          → Ends env left f c (
              and_then (some (b, x)) (
                collect env desc_type epoch
                  (now env c + cluster_wait_ms)
                  fuel
                  fuel
                  (λ i. i == c.local_idx)))
      sent false x g = g
      sent true x g = Ends-from env left f c x _ g (
          collect-Ends desc_type epoch (now env c + cluster_wait_ms) fuel fuel
            (λ i. i == c.local_idx) x (λ i. omega (arith, g.later.fewer i, k i)) (omega arith)
            (omega (arith, g.later.time)))

      split :
          (o : Option (Bool × Cluster W))
          → push_all env
              (ltb (now env c + cluster_wait_ms))
              fuel
              (nodes_from 0 c.node_count)
              (barrier_desc desc_type epoch publish_seq)
              c
            ≡ o
          → Ends env left f c (
              and_then o (
                collect env desc_type epoch
                  (now env c + cluster_wait_ms)
                  fuel
                  fuel
                  (λ i. i == c.local_idx)))
      split none e = absurd (
          subst (Returns env c) e (
            push_all-Returns env (finite-Clock env left f) (ltb (now env c + cluster_wait_ms))
              (now env c + cluster_wait_ms) fuel (nodes_from 0 c.node_count)
              (barrier_desc desc_type epoch publish_seq) c (λ n late. ground arith) (omega arith)
              (omega arith)))
      split (some (b, x)) e = sent b x (
          Moved-Follows env (R env left f) (λ w i d. Unit) (finite-Receives env left f) c x
            (push_all-Moved env (R env left f) (λ w i d. Unit) (finite-Sends env left f)
              (ltb (now env c + cluster_wait_ms)) fuel (barrier_desc desc_type epoch publish_seq) c
              x b e))
