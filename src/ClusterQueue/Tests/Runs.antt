-- ===== src/ClusterQueue/Tests/Runs.antt =====
-- The theorems of the queues at a cluster of two nodes on the network of the tests.
use mem_service.Base.{
  ℕ, ◌+◌, ◌*◌, ◌^◌, ◌≡◌, ◌↔◌, ◌==◌, if◌then◌else◌, refl, Bool, true, Option, none, some, [], ◌∷◌,
  arith,
}
use mem_service.ClusterQueue.Descs.{
  Desc, ObjectRecord, object_put, object_get, object_put_desc, ack_desc, barrier_desc,
  checksum_cookie, desc_matches_barrier, object_ack_matches, pending_object_desc_matches,
}
use mem_service.ClusterQueue.Descs.Matching.{pending_object_desc_matches-object_put_desc}
use mem_service.ClusterQueue.Runtime.{Cluster}
use mem_service.ClusterQueue.Pending.{
  take_first, taken, take_pending, take_pending_barrier_desc, take_pending_object_ack,
  stash_pending_desc,
}
use mem_service.ClusterQueue.Ingress.{
  update_region_range_at, finish_pop, pop_queue, pop_ingress_desc,
}
use mem_service.ClusterQueue.Ingress.Known.{Known}
use mem_service.ClusterQueue.Send.{push_until, push_all, push_obmm_object_descs}
use mem_service.ClusterQueue.Send.Delivered.{Broadcast, push_obmm_object_descs_lem}
use mem_service.ClusterQueue.Send.Termination.{Returns, push_obmm_object_descs-Returns}
use mem_service.ClusterQueue.Barrier.{drain_barrier, poll_peer, poll_all, collect, queue_barrier}
use mem_service.ClusterQueue.Barrier.Draining.{Ends}
use mem_service.ClusterQueue.Barrier.Termination.{queue_barrier-Ends}
use mem_service.ClusterQueue.Barrier.Reached.{Passed, queue_barrier_lem}
use mem_service.ClusterQueue.Objects.{wait_obmm_object_ack_from, wait_ack, drain_ack}
use mem_service.ClusterQueue.Objects.Termination.{wait_obmm_object_ack_from-Ends}
use mem_service.ClusterQueue.Objects.Acknowledged.{wait_obmm_object_ack_from_lem}
use mem_service.ClusterQueue.Tests.{
  Net, Logged, Grows, test_env, test_env-Receives, test_env-Sends, test_env-Clock, test_left,
  test_env-Finite,
}

-- The other node is still busy with an object when it reaches round 3.
abbrev test_put : Desc
test_put = record {
  seq = 3 * 2 ^ 48 + 2 * 2 ^ 32 + 4096;
  region_id = 1;
  payload_len = 64;
  payload_offset = 4096;
  desc_type = object_put;
  flags = 1;
  cookie = 5;
}

abbrev round_desc : Desc
round_desc = record {
  seq = 3;
  region_id = 0;
  payload_len = 0;
  payload_offset = 0;
  desc_type = 6;
  flags = 0;
  cookie = 3;
}

abbrev pub test_cluster : Cluster Net
test_cluster = record {
  node_count = 2;
  local_idx = 0;
  region_size = 65536;
  ingress_queue_base = 4096;
  local_slot = record { fd_open = true; map_osync = true };
  ingress = λ i. if i == 1 then some (record { offset = 0; size = 512; mask = 511 }) else none;
  egress = λ i. i == 1;
  pending = λ i. [];
  world = record {
    clock = 10;
    incoming = (1, test_put) ∷ (1, round_desc) ∷ [];
    received = [];
    sent = [];
  };
}

abbrev pub left_of : Option (Bool × Cluster Net) → Cluster Net
left_of none = test_cluster
left_of (some (b, c)) = c

abbrev test_end : Cluster Net
unfolding queue_barrier push_all push_until barrier_desc collect poll_all poll_peer
    take_pending_barrier_desc take_pending take_first taken drain_barrier pop_ingress_desc pop_queue
    finish_pop update_region_range_at desc_matches_barrier stash_pending_desc
test_end = left_of (queue_barrier test_env 4 test_cluster 6 3 9)

barrier_passed : queue_barrier test_env 4 test_cluster 6 3 9 ≡ some (true, test_end)
unfolding queue_barrier push_all push_until barrier_desc collect poll_all poll_peer
    take_pending_barrier_desc take_pending take_first taken drain_barrier pop_ingress_desc pop_queue
    finish_pop update_region_range_at desc_matches_barrier stash_pending_desc test_end
barrier_passed = refl

test_cluster-Known : Known (λ (w : Net) i d. Logged w.received i d) test_cluster
test_cluster-Known = record { within = λ j. omega arith; came = λ j. tt }

queue_barrier_lem_example :
    Passed
      (λ (w : Net) i d. Logged w.received i d)
      (λ (w : Net) i d. Logged w.sent i d)
      6
      3
      9
      test_cluster
      test_end
queue_barrier_lem_example =
    queue_barrier_lem test_env Grows (λ w i d. Logged w.received i d) (λ w i d. Logged w.sent i d)
      test_env-Receives test_env-Sends 4 6 3 9 test_cluster test_end test_cluster-Known
      barrier_passed

push_obmm_object_descs_lem_example :
    Broadcast test_env Grows
      (λ (w : Net) i d. Logged w.sent i d)
      test_env-Sends
      test_cluster
      (object_put_desc test_cluster.local_idx 1 4096 64 5 3)
      (push_obmm_object_descs test_env 4 test_cluster 1 4096 64 5 3)
push_obmm_object_descs_lem_example =
    push_obmm_object_descs_lem test_env Grows (λ w i d. Logged w.sent i d) test_env-Sends 4
      test_cluster 1 4096 64 5 3 (omega arith) (omega arith)

push_obmm_object_descs-Returns_example :
    Returns test_env test_cluster
      (push_obmm_object_descs test_env 300002 test_cluster 1 4096 64 5 3)
push_obmm_object_descs-Returns_example =
    push_obmm_object_descs-Returns test_env test_env-Clock 300002 test_cluster 1 4096 64 5 3
      (omega arith)

abbrev test_record : ObjectRecord
test_record = record {
  object_backing_offset = 4096;
  object_backing_len = 64;
  object_payload_checksum = 5;
}

pending_object_desc_matches-object_put_desc_example :
    (pending_object_desc_matches 3 test_record 1 (object_put_desc 1 1 4096 64 5 3) ≡ true) ↔ (
      (◌≡◌ {A = ℕ} 3 3)
      × (◌≡◌ {A = ℕ} 1 1)
      × (4096 ≡ test_record.object_backing_offset)
      × (64 ≡ test_record.object_backing_len)
      × (checksum_cookie 5 ≡ checksum_cookie test_record.object_payload_checksum))
pending_object_desc_matches-object_put_desc_example =
    pending_object_desc_matches-object_put_desc 1 1 4096 64 5 3 3 1 test_record (omega arith)
      (omega arith) (omega arith) (omega arith)

queue_barrier-Ends_example :
    Ends test_env test_left test_env-Finite test_cluster
      (queue_barrier test_env 300002 test_cluster 6 3 9)
queue_barrier-Ends_example =
    queue_barrier-Ends test_env test_left test_env-Finite 300002 test_cluster 6 3 9 (omega arith)
      (λ i. omega arith)

-- The other node acknowledges the object of the tests.
abbrev own_put : Desc
own_put = record {
  seq = 3 * 2 ^ 48 + 1 * 2 ^ 32 + 4096;
  region_id = 1;
  payload_len = 64;
  payload_offset = 4096;
  desc_type = object_put;
  flags = 1;
  cookie = 5;
}

abbrev ack_cluster : Cluster Net
ack_cluster = record test_cluster {
  world = record {
    clock = 10;
    incoming = (1, round_desc) ∷ (1, record own_put { desc_type = object_get }) ∷ [];
    received = [];
    sent = [];
  };
}

abbrev ack_end : Cluster Net
unfolding wait_obmm_object_ack_from wait_ack drain_ack object_put_desc object_ack_matches
    take_pending_object_ack take_pending take_first taken pop_ingress_desc pop_queue finish_pop
    update_region_range_at stash_pending_desc
ack_end = left_of (wait_obmm_object_ack_from test_env 4 ack_cluster 1 1 4096 64 5 3)

ack_came : wait_obmm_object_ack_from test_env 4 ack_cluster 1 1 4096 64 5 3 ≡ some (true, ack_end)
unfolding wait_obmm_object_ack_from wait_ack drain_ack object_put_desc object_ack_matches
    take_pending_object_ack take_pending take_first taken pop_ingress_desc pop_queue finish_pop
    update_region_range_at stash_pending_desc ack_end
ack_came = refl

wait_obmm_object_ack_from_lem_example :
    Known (λ (w : Net) i d. Logged w.received i d) ack_end
    × Logged ack_end.world.received 1
        (ack_desc (object_put_desc ack_cluster.local_idx 1 4096 64 5 3))
wait_obmm_object_ack_from_lem_example =
    wait_obmm_object_ack_from_lem test_env Grows (λ w i d. Logged w.received i d) test_env-Receives
      4 ack_cluster ack_end 1 1 4096 64 5 3 (record { within = λ j. omega arith; came = λ j. tt })
      ack_came

wait_obmm_object_ack_from-Ends_example :
    Ends test_env test_left test_env-Finite ack_cluster
      (wait_obmm_object_ack_from test_env 300001 ack_cluster 1 1 4096 64 5 3)
wait_obmm_object_ack_from-Ends_example =
    wait_obmm_object_ack_from-Ends test_env test_left test_env-Finite 300001 ack_cluster 1 1 4096 64
      5 3 (omega arith) (omega arith)
