-- ===== src/ClusterQueue/Barrier.antt =====
-- `mem_service_queue_barrier`: a node tells every other that it has reached a round, and waits until
-- it has been told by each. What it receives besides is kept for later.
pub mod Polling
pub mod Rounds
pub mod Draining
pub mod Termination
pub mod Reached
use mem_service.Base.{
  ℕ, zero, suc, ◌+◌, Bool, true, false, not, ◌&&◌, ◌||◌, Option, none, some, List, [], ◌∷◌, ltb,
  ◌==◌, if◌then◌else◌, is_none,
}
use mem_service.ClusterQueue.Descs.{Desc, desc_matches_barrier, barrier_desc}
use mem_service.ClusterQueue.Runtime.{Cluster, Env, now, sleep, nodes_from, cluster_wait_ms}
use mem_service.ClusterQueue.Pending.{take_pending_barrier_desc, stash_pending_desc}
use mem_service.ClusterQueue.Ingress.{PopCode, popped, nothing, invalid, io_error, pop_ingress_desc}
use mem_service.ClusterQueue.Send.{and_then, push_all}

module _ {W : Type 0} (env : Env W) where
  -- `while (pop == 0) { if (matches) got = true; else stash; }`
  unfoldable pub drain_barrier : ℕ → ℕ → ℕ → ℕ → Bool → Cluster W → Option (Bool × Cluster W)
  drain_barrier desc_type epoch i zero got c = none
  drain_barrier desc_type epoch i (suc fuel) got c =
      let (code, c') = pop_ingress_desc env c i in
      elim code [
        | popped d ↦
            let hit = desc_matches_barrier desc_type epoch d in
            drain_barrier desc_type epoch i fuel (hit || got)
              (if hit then c' else stash_pending_desc c' i d)
        | _ ↦ some (got, c')
      ]

  drain_unless : ℕ → ℕ → ℕ → ℕ → Option Desc × Cluster W → Option (Bool × Cluster W)
  drain_unless desc_type epoch i fuel (some d, c) = some (true, c)
  drain_unless desc_type epoch i fuel (none, c) = drain_barrier desc_type epoch i fuel false c

  -- Whether the node has been heard of, after what is pending and what has arrived.
  unfoldable pub poll_peer : ℕ → ℕ → ℕ → ℕ → Cluster W → Option (Bool × Cluster W)
  unfolding drain_unless
  poll_peer desc_type epoch fuel i c =
      drain_unless desc_type epoch i fuel (take_pending_barrier_desc c i desc_type epoch)

  abbrev pub set_got : (ℕ → Bool) → ℕ → Bool → ℕ → Bool
  set_got got i hit j = if j == i then got j || hit else got j

  -- What a round over the nodes leaves: `all`, `got`, the cluster.
  abbrev pub RoundResult : Type 0
  RoundResult = Option (Bool × (ℕ → Bool) × Cluster W)

  abbrev pub with_hit : Bool → RoundResult → RoundResult
  with_hit hit none = none
  with_hit hit (some (all, got, c)) = some (hit && all, got, c)

  unfoldable pub poll_all : ℕ → ℕ → ℕ → List ℕ → (ℕ → Bool) → Cluster W → RoundResult
  poll_all desc_type epoch fuel [] got c = some (true, got, c)
  poll_all desc_type epoch fuel (i ∷ peers) got c =
      if got i || is_none (c.ingress i)
      then poll_all desc_type epoch fuel peers got c
      else elim (poll_peer desc_type epoch fuel i c) [
        | none ↦ none
        | some r ↦ with_hit r.0 (poll_all desc_type epoch fuel peers (set_got got i r.0) r.1)
      ]

  -- The rounds, until all nodes have been heard of or the deadline has passed.
  unfoldable pub collect : ℕ → ℕ → ℕ → ℕ → ℕ → (ℕ → Bool) → Cluster W → Option (Bool × Cluster W)
  collect desc_type epoch deadline fuel zero got c = none
  collect desc_type epoch deadline fuel (suc rounds) got c =
      if ltb (now env c) deadline
      then elim (poll_all desc_type epoch fuel (nodes_from 0 c.node_count) got c) [
        | none ↦ none
        | some r ↦
            let later = collect desc_type epoch deadline fuel rounds r.1 (sleep env r.2) in
            if r.0 then some (true, r.2) else later
      ]
      else some (false, c)

  unfoldable pub queue_barrier : ℕ → Cluster W → ℕ → ℕ → ℕ → Option (Bool × Cluster W)
  queue_barrier fuel c desc_type epoch publish_seq =
      let deadline = now env c + cluster_wait_ms in
      and_then
        (push_all env (ltb deadline) fuel (nodes_from 0 c.node_count)
          (barrier_desc desc_type epoch publish_seq) c)
        (collect desc_type epoch deadline fuel fuel (λ i. i == c.local_idx))
