-- ===== src/ClusterQueue/Tests/Objects.antt =====
-- The wait for the objects of a node, on the network of the tests.
use mem_service.Base.{
  ℕ, ◌+◌, ◌*◌, ◌^◌, ◌≡◌, refl, true, some, List, [], ◌∷◌, arith, ◌≤◌, length, if_both, Bool-cases,
  inl, inr, ◌==◌, if◌then◌else◌,
}
use mem_service.ClusterQueue.Descs.{
  Desc, ObjectRecord, object_put, pending_object_desc_matches, kind_weight_tile, kind_kvcache_block,
  kind_hidden_range_input, kind_hidden_range_output,
}
use mem_service.ClusterQueue.Runtime.{Cluster}
use mem_service.ClusterQueue.Pending.{
  take_first, taken, take_pending, take_pending_object_record_desc, stash_pending_desc,
}
use mem_service.ClusterQueue.Ingress.{
  update_region_range_at, finish_pop, pop_queue, pop_ingress_desc,
}
use mem_service.ClusterQueue.Ingress.Known.{Known}
use mem_service.ClusterQueue.Remote.{
  names_object, see_all, any_named, all_seen, take_wanted, take_all, drain_objects, wait_objects,
  wait_remote_obmm_object_descs,
}
use mem_service.ClusterQueue.Remote.Seen.{Arrived}
use mem_service.ClusterQueue.Barrier.Draining.{Ends}
use mem_service.ClusterQueue.Remote.Termination.{wait_remote_obmm_object_descs-Ends}
use mem_service.ClusterQueue.Remote.Awaited.{wait_remote_obmm_object_descs_lem}
use mem_service.ClusterQueue.Tests.{
  Net, Logged, Grows, test_env, test_env-Receives, test_left, test_env-Finite,
}
use mem_service.ClusterQueue.Tests.Runs.{test_cluster, left_of}

abbrev object_at : ℕ → ObjectRecord
object_at offset = record {
  object_backing_offset = offset;
  object_backing_len = 64;
  object_payload_checksum = 5;
}

abbrev put_at : ℕ → ℕ → Desc
put_at kind offset = record {
  seq = 3 * 2 ^ 48 + 2 * 2 ^ 32 + offset;
  region_id = kind;
  payload_len = 64;
  payload_offset = offset;
  desc_type = object_put;
  flags = kind;
  cookie = 5;
}

-- Three of the four are pending, out of order; the fourth is on the way.
abbrev objects_cluster : Cluster Net
objects_cluster = record test_cluster {
  pending = λ i. if i == 1 then put_at 3 4224 ∷ put_at 2 4160 ∷ put_at 1 4096 ∷ [] else [];
  world = record {
    clock = 10;
    incoming = (1, put_at 4 4352) ∷ [];
    received = (1, put_at 3 4224) ∷ (1, put_at 2 4160) ∷ (1, put_at 1 4096) ∷ [];
    sent = [];
  };
}

abbrev objects_end : Cluster Net
unfolding wait_remote_obmm_object_descs wait_objects drain_objects take_all take_wanted all_seen
    any_named see_all names_object take_pending_object_record_desc take_pending take_first taken
    pop_ingress_desc pop_queue finish_pop update_region_range_at stash_pending_desc
    pending_object_desc_matches
objects_end = left_of (
    wait_remote_obmm_object_descs test_env 6 objects_cluster 1 3 (object_at 4096) (object_at 4160)
      (object_at 4224) (object_at 4352))

objects_came :
    wait_remote_obmm_object_descs test_env 6 objects_cluster 1 3
      (object_at 4096)
      (object_at 4160)
      (object_at 4224)
      (object_at 4352)
    ≡ some (true, objects_end)
unfolding wait_remote_obmm_object_descs wait_objects drain_objects take_all take_wanted all_seen
    any_named see_all names_object take_pending_object_record_desc take_pending take_first taken
    pop_ingress_desc pop_queue finish_pop update_region_range_at stash_pending_desc
    pending_object_desc_matches objects_end
objects_came = refl

objects_cluster-Known : Known (λ (w : Net) i d. Logged w.received i d) objects_cluster
unfolding Logged
objects_cluster-Known = record {
  within = λ j. if_both (λ (ds : List Desc). length ds ≤ 16) (j == 1) (omega arith) (omega arith);
  came = λ j. elim (Bool-cases (j == 1)) [
    | inl one ↦
        let same : 1 ≡ j = ground arith in
        rw one (inl (same, refl), (inr (inl (same, refl)), (inr (inr (inl (same, refl))), tt)))
    | inr other ↦ rw other tt
  ];
}

wait_remote_obmm_object_descs_lem_example :
    Known (λ (w : Net) i d. Logged w.received i d) objects_end
    × Arrived
        (λ (w : Net) i d. Logged w.received i d)
        3
        objects_end.world
        1
        (object_at 4096)
        kind_weight_tile
    × Arrived
        (λ (w : Net) i d. Logged w.received i d)
        3
        objects_end.world
        1
        (object_at 4160)
        kind_kvcache_block
    × Arrived
        (λ (w : Net) i d. Logged w.received i d)
        3
        objects_end.world
        1
        (object_at 4224)
        kind_hidden_range_input
    × Arrived
        (λ (w : Net) i d. Logged w.received i d)
        3
        objects_end.world
        1
        (object_at 4352)
        kind_hidden_range_output
wait_remote_obmm_object_descs_lem_example =
    wait_remote_obmm_object_descs_lem test_env Grows (λ w i d. Logged w.received i d)
      test_env-Receives 6 objects_cluster objects_end 1 3 (object_at 4096) (object_at 4160)
      (object_at 4224) (object_at 4352) objects_cluster-Known objects_came

wait_remote_obmm_object_descs-Ends_example :
    Ends test_env test_left test_env-Finite objects_cluster (
      wait_remote_obmm_object_descs test_env 300002 objects_cluster 1 3
        (object_at 4096)
        (object_at 4160)
        (object_at 4224)
        (object_at 4352))
wait_remote_obmm_object_descs-Ends_example =
    wait_remote_obmm_object_descs-Ends test_env test_left test_env-Finite 300002 objects_cluster 1 3
      (object_at 4096) (object_at 4160) (object_at 4224) (object_at 4352) (omega arith)
