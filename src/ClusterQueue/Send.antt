-- ===== src/ClusterQueue/Send.antt =====
-- What a node sends: one descriptor to every other node, one to a single node, an acknowledgement.
-- A push is tried again until it succeeds or the deadline has passed, so the loops run on fuel;
-- `none` is a run that uses it up.
pub mod Delivered
pub mod Termination
use mem_service.Base.{
  ℕ, zero, suc, ◌+◌, ◌-◌, ◌^◌, Bool, true, false, not, ◌||◌, Option, none, some, List, [], ◌∷◌, ltb,
  leb, ◌==◌, ◌!=◌, if◌then◌else◌, any_of,
}
use mem_service.ClusterQueue.Descs.{Desc, object_put, object_put_desc, ack_desc}
use mem_service.ClusterQueue.Runtime.{
  Cluster, Env, PushCode, pushed, again, refused, now, sleep, with_world, nodes_from,
  cluster_wait_ms,
}

-- The answers 0, 1 and -1 of a hint that is tried once.
pub data HintCode : Type 0 where
  sent : HintCode
  backpressured : HintCode
  failed : HintCode

abbrev pub is_pushed : PushCode → Bool
is_pushed pushed = true
is_pushed again = false
is_pushed refused = false

hint_code : PushCode → HintCode
hint_code pushed = sent
hint_code again = backpressured
hint_code refused = failed

module _ {W : Type 0} where
  -- Goes on with a call that succeeded, and hands a failure back.
  abbrev pub and_then :
      Option (Bool × Cluster W)
      → (Cluster W → Option (Bool × Cluster W))
      → Option (Bool × Cluster W)
  and_then none next = none
  and_then (some (true, c)) next = next c
  and_then (some (false, c)) next = some (false, c)

module _ {W : Type 0} (env : Env W) where
  abbrev pub push : Cluster W → ℕ → Desc → PushCode × Cluster W
  push c peer d = let (code, w) = env.spsc_push peer d c.world in (code, with_world c w)

  -- `while (push != 0) { if (late(now)) return -1; usleep(1000); }`
  unfoldable pub push_until : (ℕ → Bool) → ℕ → Cluster W → ℕ → Desc → Option (Bool × Cluster W)
  push_until late zero c peer d = none
  push_until late (suc fuel) c peer d =
      let (code, c') = push c peer d in
      let rest = push_until late fuel (sleep env c') peer d in
      if is_pushed code
      then some (true, c')
      else if late (now env c')
      then some (false, c')
      else rest

  -- The loop over the nodes; a node without a queue is passed over.
  unfoldable pub push_all : (ℕ → Bool) → ℕ → List ℕ → Desc → Cluster W → Option (Bool × Cluster W)
  push_all late fuel [] d c = some (true, c)
  push_all late fuel (i ∷ peers) d c =
      if i == c.local_idx || not (c.egress i)
      then push_all late fuel peers d c
      else and_then (push_until late fuel c i d) (push_all late fuel peers d)

  unfoldable pub push_obmm_object_descs :
      ℕ → Cluster W → ℕ → ℕ → ℕ → ℕ → ℕ → Option (Bool × Cluster W)
  push_obmm_object_descs fuel c payload_kind payload_offset payload_len checksum epoch =
      if ltb (2 ^ 32 - 1) payload_len || ltb (2 ^ 16 - 1) payload_kind
      then some (false, c)
      else push_all (ltb (now env c + cluster_wait_ms)) fuel (nodes_from 0 c.node_count)
          (object_put_desc c.local_idx payload_kind payload_offset payload_len checksum epoch) c

-- `mem_service_activate_remote_slot` sets the queue to a node up, in another component.
module _ {W : Type 0} (env : Env W) (activate_remote_slot : ℕ → Cluster W → Bool × Cluster W) where
  -- `true` if there is a queue to the node, now or after setting it up.
  unfoldable pub ensure_egress : Cluster W → ℕ → Bool × Cluster W
  ensure_egress c target_node =
      if c.egress target_node
      then (true, c)
      else let (done, c') = activate_remote_slot target_node c in
        if done then (c'.egress target_node, c') else (false, c')

  unfoldable pub try_push_obmm_object_desc_to :
      Cluster W → ℕ → ℕ → ℕ → ℕ → ℕ → ℕ → HintCode × Cluster W
  unfolding hint_code
  try_push_obmm_object_desc_to c target_node payload_kind payload_offset payload_len checksum
        epoch =
      if any_of (
        leb c.node_count target_node
        ∷ (target_node == c.local_idx)
        ∷ ltb (2 ^ 32 - 1) payload_len
        ∷ ltb (2 ^ 16 - 1) payload_kind
        ∷ [])
      then (failed, c)
      else let (ready, c1) = ensure_egress c target_node in
        if not ready
        then (failed, c1)
        else let d =
            object_put_desc c1.local_idx payload_kind payload_offset payload_len checksum epoch in
          let (code, c2) = push env c1 target_node d in (hint_code code, c2)

  -- The deadline is taken before the queue is set up.
  unfoldable pub ack_obmm_object_desc_to : ℕ → Cluster W → ℕ → Desc → Option (Bool × Cluster W)
  ack_obmm_object_desc_to fuel c target_node put_desc =
      if any_of (
        (put_desc.desc_type != object_put)
        ∷ leb c.node_count target_node
        ∷ (target_node == c.local_idx)
        ∷ [])
      then some (false, c)
      else let (ready, c1) = ensure_egress c target_node in
        if not ready
        then some (false, c1)
        else push_until env (leb (now env c + cluster_wait_ms)) fuel c1 target_node
            (ack_desc put_desc)
