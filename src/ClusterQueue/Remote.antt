-- ===== src/ClusterQueue/Remote.antt =====
-- `mem_service_wait_remote_obmm_object_descs`: waiting for the descriptors of four objects of a node.
-- The four flags and the four tests of the code are a list: a wanted object each.
pub mod Seen
pub mod Drained
pub mod Awaited
pub mod Termination
use mem_service.Base.{
  ℕ, zero, suc, ◌+◌, Bool, true, false, not, ◌&&◌, ◌||◌, Option, none, some, List, [], ◌∷◌, map,
  ltb, leb, ◌==◌, ◌!=◌, if◌then◌else◌, all_of, is_none, is_some,
}
use mem_service.ClusterQueue.Descs.{
  Desc, ObjectRecord, object_put, epoch_of, checksum_cookie, kind_weight_tile, kind_kvcache_block,
  kind_hidden_range_input, kind_hidden_range_output,
}
use mem_service.ClusterQueue.Runtime.{Cluster, Env, now, sleep, obmm_service_wait_ms}
use mem_service.ClusterQueue.Pending.{take_pending_object_record_desc, stash_pending_desc}
use mem_service.ClusterQueue.Ingress.{PopCode, popped, nothing, invalid, io_error, pop_ingress_desc}

-- A `saw_…` flag, with the record and the kind that it stands for.
pub record Wanted : Type 0 where
  pub object : ObjectRecord
  pub kind : ℕ
  pub saw : Bool

-- The test of a descriptor that has passed the test of type and epoch.
abbrev pub object_tests : ObjectRecord → ℕ → Desc → List Bool
object_tests r kind d =
    (d.flags == kind)
    ∷ (d.payload_offset == r.object_backing_offset)
    ∷ (d.payload_len == r.object_backing_len)
    ∷ (d.cookie == checksum_cookie r.object_payload_checksum)
    ∷ []

unfoldable pub names_object : Wanted → Desc → Bool
names_object want d = all_of (object_tests want.object want.kind d)

abbrev pub see : Desc → Wanted → Wanted
see d want = record want { saw = names_object want d || want.saw }

unfoldable pub see_all : Desc → List Wanted → List Wanted
see_all d [] = []
see_all d (want ∷ wants) = see d want ∷ see_all d wants

unfoldable pub any_named : Desc → List Wanted → Bool
any_named d [] = false
any_named d (want ∷ wants) = names_object want d || any_named d wants

unfoldable pub all_seen : List Wanted → Bool
all_seen [] = true
all_seen (want ∷ wants) = want.saw && all_seen wants

-- `desc.type != PUT || epoch of the descriptor != epoch`
abbrev pub other_desc : ℕ → Desc → Bool
other_desc epoch d = d.desc_type != object_put || epoch_of d != epoch

module _ {W : Type 0} where
  -- Looks for an object that has not been seen among the pending descriptors.
  unfoldable pub take_wanted : ℕ → ℕ → Wanted → Cluster W → Wanted × Cluster W
  take_wanted i epoch want c =
      let t = take_pending_object_record_desc c i epoch want.object want.kind in
      if want.saw then (want, c) else (record want { saw = is_some t.0 }, t.1)

  unfoldable pub take_all : ℕ → ℕ → List Wanted → Cluster W → List Wanted × Cluster W
  take_all i epoch [] c = ([], c)
  take_all i epoch (want ∷ wants) c =
      let (want', c') = take_wanted i epoch want c in
      let (wants', c'') = take_all i epoch wants c' in (want' ∷ wants', c'')

module _ {W : Type 0} (env : Env W) where
  -- `drained` tells whether anything was popped.
  unfoldable pub drain_objects :
      ℕ → ℕ → ℕ → Bool → List Wanted → Cluster W → Option (Bool × List Wanted × Cluster W)
  drain_objects i epoch zero drained wants c = none
  drain_objects i epoch (suc fuel) drained wants c =
      let (code, c') = pop_ingress_desc env c i in
      elim code [
        | popped d ↦
            let other = other_desc epoch d in
            drain_objects i epoch fuel true (if other then wants else see_all d wants)
              (if other || not (any_named d wants) then stash_pending_desc c' i d else c')
        | _ ↦ some (drained, wants, c')
      ]

  -- The rounds; a round that popped nothing sleeps.
  unfoldable pub wait_objects :
      ℕ → ℕ → ℕ → ℕ → ℕ → List Wanted → Cluster W → Option (Bool × Cluster W)
  wait_objects i epoch deadline fuel zero wants c = none
  wait_objects i epoch deadline fuel (suc rounds) wants c =
      if ltb (now env c) deadline
      then elim (drain_objects i epoch fuel false (take_all i epoch wants c).0
          (take_all i epoch wants c).1) [
            | none ↦ none
            | some r ↦
                let later =
                  wait_objects i epoch deadline fuel rounds r.1
                    (if r.0 then r.2 else sleep env r.2) in
                if all_seen r.1 then some (true, r.2) else later
          ]
      else some (false, c)

  abbrev pub wanted : ObjectRecord → ℕ → Wanted
  wanted r kind = record { object = r; kind = kind; saw = false }

  unfoldable pub wait_remote_obmm_object_descs :
      ℕ
      → Cluster W
      → ℕ
      → ℕ
      → ObjectRecord
      → ObjectRecord
      → ObjectRecord
      → ObjectRecord
      → Option (Bool × Cluster W)
  wait_remote_obmm_object_descs fuel c owner_node epoch weight kvcache hidden_input hidden_output =
      if leb c.node_count owner_node
      then some (false, c)
      else if is_none (c.ingress owner_node)
      then some (false, c)
      else wait_objects owner_node epoch (now env c + obmm_service_wait_ms) fuel fuel
          (wanted weight kind_weight_tile
            ∷ wanted kvcache kind_kvcache_block
            ∷ wanted hidden_input kind_hidden_range_input
            ∷ wanted hidden_output kind_hidden_range_output
            ∷ [])
          c
