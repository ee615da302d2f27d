-- ===== src/ClusterQueue/Pending.antt =====
-- The descriptors that a node keeps for later, per sender, in the order of arrival: taking the first
-- that a test accepts, and keeping another. The six `take_pending` functions differ in their test.
pub mod Order
use mem_service.Base.{
  ℕ, Bool, true, false, Option, none, some, List, [], ◌∷◌, ◌++◌, ltb, leb, if◌then◌else◌, length,
}
use mem_service.ClusterQueue.Descs.{
  Desc, ObjectRecord, desc_matches_barrier, pending_object_desc_matches,
  runtime_range_input_desc_matches, token_result_desc_matches, object_desc_matches,
  object_desc_kind_len_matches, object_ack_matches,
}
use mem_service.ClusterQueue.Runtime.{Cluster, with_pending, pending_desc_depth}

-- The first entry that matches, and the entries without it: `memmove` closes the gap.
unfoldable pub take_first : (Desc → Bool) → List Desc → Option (Desc × List Desc)
take_first matches [] = none
take_first matches (d ∷ ds) =
    let rest = take_first matches ds in
    if matches d
    then some (d, ds)
    else elim rest [ none ↦ none | some found ↦ some (found.0, d ∷ found.1) ]

module _ {W : Type 0} where
  unfoldable pub taken : Cluster W → ℕ → Option (Desc × List Desc) → Option Desc × Cluster W
  taken c owner_idx none = (none, c)
  taken c owner_idx (some (d, ds)) = (some d, with_pending c owner_idx ds)

  -- `none` is `false`; otherwise the descriptor that is copied to `desc_out`.
  unfoldable pub take_pending : (Desc → Bool) → Cluster W → ℕ → Option Desc × Cluster W
  unfolding taken
  take_pending matches c owner_idx =
      if leb c.node_count owner_idx
      then (none, c)
      else taken c owner_idx (take_first matches (c.pending owner_idx))

  unfoldable pub take_pending_barrier_desc : Cluster W → ℕ → ℕ → ℕ → Option Desc × Cluster W
  take_pending_barrier_desc c owner_idx desc_type epoch =
      take_pending (desc_matches_barrier desc_type epoch) c owner_idx

  unfoldable pub take_pending_runtime_range_input_desc :
      Cluster W → ℕ → ℕ → ℕ → Option Desc × Cluster W
  take_pending_runtime_range_input_desc c owner_idx expected_payload_len epoch =
      take_pending (runtime_range_input_desc_matches expected_payload_len epoch) c owner_idx

  unfoldable pub take_pending_token_result_desc :
      Cluster W → ℕ → ℕ → ℕ → ℕ → Option Desc × Cluster W
  take_pending_token_result_desc c owner_idx epoch payload_kind payload_len =
      take_pending (token_result_desc_matches epoch payload_kind payload_len) c owner_idx

  unfoldable pub take_pending_object_desc : Cluster W → ℕ → ℕ → ℕ → ℕ → ℕ → Option Desc × Cluster W
  take_pending_object_desc c owner_idx epoch payload_kind min_payload_len max_payload_len =
      take_pending (object_desc_matches epoch payload_kind min_payload_len max_payload_len) c
        owner_idx

  unfoldable pub take_pending_object_kind_len_desc :
      Cluster W → ℕ → ℕ → ℕ → ℕ → Option Desc × Cluster W
  take_pending_object_kind_len_desc c owner_idx payload_kind min_payload_len max_payload_len =
      take_pending (object_desc_kind_len_matches payload_kind min_payload_len max_payload_len) c
        owner_idx

  unfoldable pub take_pending_object_record_desc :
      Cluster W → ℕ → ℕ → ObjectRecord → ℕ → Option Desc × Cluster W
  take_pending_object_record_desc c owner_idx epoch r kind =
      take_pending (pending_object_desc_matches epoch r kind) c owner_idx

  unfoldable pub take_pending_object_ack : Cluster W → ℕ → Desc → Option Desc × Cluster W
  take_pending_object_ack c owner_idx put = take_pending (object_ack_matches put) c owner_idx

  -- A descriptor that finds no room is dropped, with a line on stderr.
  unfoldable pub stash_pending_desc : Cluster W → ℕ → Desc → Cluster W
  stash_pending_desc c owner_idx d =
      if leb c.node_count owner_idx
      then c
      else if leb pending_desc_depth (length (c.pending owner_idx))
      then c
      else with_pending c owner_idx (c.pending owner_idx ++ d ∷ [])
