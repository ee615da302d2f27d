-- ===== src/ClusterQueue/Barrier/Reached.antt =====
-- What a barrier that returns 0 has seen, and what it leaves pending.
use mem_service.Base.{
  ℕ, ◌+◌, ◌<◌, ◌≡◌, ◌≢◌, refl, ap, Bool, true, false, Option, none, some, ltb, ◌==◌, is_none, arith,
  inl,
}
use mem_service.ClusterQueue.Descs.{Desc, barrier_desc}
use mem_service.ClusterQueue.Runtime.{Cluster, Env, now, nodes_from, cluster_wait_ms}
use mem_service.ClusterQueue.Ingress.Frame.{Receives}
use mem_service.ClusterQueue.Ingress.Known.{Known, Moved-Follows, Moved-Known}
use mem_service.ClusterQueue.Send.{and_then, push_all}
use mem_service.ClusterQueue.Send.Delivered.{Sends, push_all-reached}
use mem_service.ClusterQueue.Barrier.{collect, queue_barrier}
use mem_service.ClusterQueue.Barrier.Rounds.{GotOk, Collected, Collected-true}
use mem_service.ClusterQueue.Barrier.Polling.{Heard}

-- A call that goes on after one that returned `true` started from what that one left.
and_then-true :
    {W : Type 0} (o : Option (Bool × Cluster W)) (next : Cluster W → Option (Bool × Cluster W))
    (c' : Cluster W)
    → and_then o next ≡ some (true, c')
    → (x : Cluster W) × (o ≡ some (true, x)) × (next x ≡ some (true, c'))
and_then-true none next c' e = absurd (ground arith)
and_then-true (some (true, x)) next c' e = (x, refl, e)
and_then-true (some (false, x)) next c' e = absurd (ground arith)

-- What a barrier that returned 0 has done.
pub record Passed {W : Type 0} (P S : W → ℕ → Desc → Type 0) (desc_type epoch publish_seq : ℕ)
    (c c' : Cluster W) : Type 0 where
  pub told :
      (i : ℕ)
      → i < c.node_count
      → i ≢ c.local_idx
      → c.egress i ≡ true
      → S c'.world i (barrier_desc desc_type epoch publish_seq)
  pub heard :
      (i : ℕ)
      → i < c.node_count
      → i ≢ c.local_idx
      → is_none (c.ingress i) ≡ false
      → Heard P desc_type epoch c'.world i
  pub known : Known P c'

module _ {W : Type 0} (env : Env W) (R : W → W → Type 0) (P S : W → ℕ → Desc → Type 0)
    (r : Receives env R P) (s : Sends env R S) where
  -- Where the lists of pending descriptors hold at most 16 each, all of them arrived, a barrier that
  -- returns 0 has sent its descriptor to every other node to which there is a queue, and has got one
  -- of the same type and epoch from every other node from which there is a queue; the lists are still
  -- so.
  pub queue_barrier_lem :
      (fuel desc_type epoch publish_seq : ℕ) (c c' : Cluster W)
      → Known P c
      → queue_barrier env fuel c desc_type epoch publish_seq ≡ some (true, c')
      → Passed P S desc_type epoch publish_seq c c'
  unfolding queue_barrier Collected GotOk
  queue_barrier_lem fuel desc_type epoch publish_seq c c' k e =
      let deadline = now env c + cluster_wait_ms in
      let d = barrier_desc desc_type epoch publish_seq in
      let (x, sends, waits) =
        and_then-true (push_all env (ltb deadline) fuel (nodes_from 0 c.node_count) d c)
          (collect env desc_type epoch deadline fuel fuel (λ i. i == c.local_idx)) c' e in
      let (v, told) = push_all-reached env R S s (ltb deadline) fuel d c x sends in
      let f = Moved-Follows env R P r c x v in
      let (f', k', heard) =
        Collected-true env R P r desc_type epoch c.local_idx (λ j. is_none (c.ingress j)) deadline
          fuel (λ i. i == c.local_idx) x c' (λ j. ap (λ q. is_none (q j)) f.ingress)
          (Moved-Known env R P r c x v k) (λ j own. inl (ground arith)) waits in
      record {
        told =
            λ i below other queue. s.stays x.world c'.world i d f'.later (told i below other queue);
        heard = λ i below other queue. heard i (rw f.node_count below) other queue;
        known = k';
      }
