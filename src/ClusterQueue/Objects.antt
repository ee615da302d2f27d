-- ===== src/ClusterQueue/Objects.antt =====
-- `mem_service_wait_obmm_object_ack_from`: waiting until a node has acknowledged an object. What it
-- sends besides is kept for later.
pub mod Acknowledged
pub mod Termination
use mem_service.Base.{
  ℕ, zero, suc, ◌+◌, ◌-◌, ◌^◌, Bool, true, false, ◌||◌, Option, none, some, List, [], ◌∷◌, ltb, leb,
  ◌==◌, if◌then◌else◌, any_of,
}
use mem_service.ClusterQueue.Descs.{Desc, object_ack_matches, object_put_desc}
use mem_service.ClusterQueue.Runtime.{Cluster, Env, now, sleep, cluster_wait_ms}
use mem_service.ClusterQueue.Pending.{take_pending_object_ack, stash_pending_desc}
use mem_service.ClusterQueue.Ingress.{PopCode, popped, nothing, invalid, io_error, pop_ingress_desc}

module _ {W : Type 0} (env : Env W) where
  -- `while (pop == 0) { if (matches) return 0; stash; }`
  unfoldable pub drain_ack : Desc → ℕ → ℕ → Cluster W → Option (Bool × Cluster W)
  drain_ack put i zero c = none
  drain_ack put i (suc fuel) c =
      let (code, c') = pop_ingress_desc env c i in
      elim code [
        | popped d ↦
            let rest = drain_ack put i fuel (stash_pending_desc c' i d) in
            if object_ack_matches put d then some (true, c') else rest
        | _ ↦ some (false, c')
      ]

  ack_unless : Desc → ℕ → ℕ → Option Desc × Cluster W → Option (Bool × Cluster W)
  ack_unless put i fuel (some d, c) = some (true, c)
  ack_unless put i fuel (none, c) = drain_ack put i fuel c

  -- The rounds, until the acknowledgement is there or the deadline has passed.
  unfoldable pub wait_ack : Desc → ℕ → ℕ → ℕ → ℕ → Cluster W → Option (Bool × Cluster W)
  unfolding ack_unless
  wait_ack put i deadline fuel zero c = none
  wait_ack put i deadline fuel (suc rounds) c =
      if ltb (now env c) deadline
      then elim (ack_unless put i fuel (take_pending_object_ack c i put)) [
        | none ↦ none
        | some r ↦
            let later = wait_ack put i deadline fuel rounds (sleep env r.1) in
            if r.0 then some (true, r.1) else later
      ]
      else some (false, c)

  abbrev pub wait_ack_conditions : Cluster W → ℕ → ℕ → ℕ → List Bool
  wait_ack_conditions c source_node payload_kind payload_len =
      leb c.node_count source_node
      ∷ (source_node == c.local_idx)
      ∷ ltb (2 ^ 32 - 1) payload_len
      ∷ ltb (2 ^ 16 - 1) payload_kind
      ∷ []

  unfoldable pub wait_obmm_object_ack_from :
      ℕ → Cluster W → ℕ → ℕ → ℕ → ℕ → ℕ → ℕ → Option (Bool × Cluster W)
  wait_obmm_object_ack_from fuel c source_node payload_kind payload_offset payload_len checksum
        epoch =
      if any_of (wait_ack_conditions c source_node payload_kind payload_len)
      then some (false, c)
      else wait_ack
          (object_put_desc c.local_idx payload_kind payload_offset payload_len checksum epoch)
          source_node (now env c + cluster_wait_ms) fuel fuel c
