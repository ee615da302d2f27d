-- ===== src/ClusterQueue/Runtime.antt =====
-- The part of `struct mem_service_cluster_runtime` (mem_service_guest_runtime.h) that the queue
-- functions read and write, and what they call.
--
-- A node index that is negative fails the same test as one that is too large, so an index is a
-- number. Outside the model are the queue library of libs/obmm_queue, the clock, and the kernel's
-- ioctl: `Env` names what is called of them, acting on a state `W`.
use mem_service.Base.{ℕ, zero, suc, ◌+◌, Bool, Option, List, [], ◌∷◌, ◌==◌, if◌then◌else◌}
use mem_service.ClusterQueue.Descs.{Desc}

-- MEM_SERVICE_CLUSTER_PENDING_DESC_DEPTH
abbrev pub pending_desc_depth : ℕ
pending_desc_depth = 16

-- MEM_SERVICE_CLUSTER_WAIT_MS and MEM_SERVICE_OBMM_SERVICE_WAIT_MS
abbrev pub cluster_wait_ms : ℕ
cluster_wait_ms = 300000

abbrev pub obmm_service_wait_ms : ℕ
obmm_service_wait_ms = 300000

-- The return code of a push: 0, -EAGAIN, another.
pub data PushCode : Type 0 where
  pushed : PushCode
  again : PushCode
  refused : PushCode

-- `rt->slots[rt->local_idx]`, as far as a range update reads it. The address of the region is given
-- with the call; `fd_open` is `fd >= 0`.
pub record Slot : Type 0 where
  pub fd_open : Bool
  pub map_osync : Bool

-- A queue that the peer writes to: its distance from `ingress_queue_base`, and its length and mask.
pub record IngressQueue : Type 0 where
  pub offset : ℕ
  pub size : ℕ
  pub mask : ℕ

-- `ingress_queue_base` is the address; `egress` tells which of `egress_queues` are not NULL;
-- `pending` is the used part of `pending_descs`, its length `pending_desc_count`; `world` is the
-- state outside the structure.
pub record Cluster (W : Type 0) : Type 0 where
  pub node_count : ℕ
  pub local_idx : ℕ
  pub region_size : ℕ
  pub ingress_queue_base : ℕ
  pub local_slot : Slot
  pub ingress : ℕ → Option IngressQueue
  pub egress : ℕ → Bool
  pub pending : ℕ → List Desc
  pub world : W

-- `obmm_spsc_push` of a descriptor on the queue to a node, `obmm_spsc_pop` of the queue from a node,
-- the head of that queue, the layout of `struct obmm_spsc_queue`, the page size, the ioctl on a
-- range of pages (`true` for success).
pub record Env (W : Type 0) : Type 0 where
  pub now_ms : W → ℕ
  pub usleep : ℕ → W → W
  pub spsc_push : ℕ → Desc → W → PushCode × W
  pub spsc_pop : ℕ → W → Option Desc × W
  pub spsc_head : ℕ → W → ℕ
  pub queue_region_size : ℕ → ℕ
  pub head_offset : ℕ
  pub tail_offset : ℕ
  pub desc_offset : ℕ
  pub index_size : ℕ
  pub desc_size : ℕ
  pub page_size : ℕ
  pub ioctl_update_range : ℕ → ℕ → Bool → W → Bool × W

module _ {W : Type 0} where
  abbrev pub with_world : Cluster W → W → Cluster W
  with_world c w = record c { world = w }

  abbrev pub with_pending : Cluster W → ℕ → List Desc → Cluster W
  with_pending c i ds = record c { pending = λ j. if j == i then ds else c.pending j }

  -- `obmm_now_ms()`, and `usleep(1000)`.
  abbrev pub now : Env W → Cluster W → ℕ
  now env c = env.now_ms c.world

  abbrev pub sleep : Env W → Cluster W → Cluster W
  sleep env c = with_world c (env.usleep 1000 c.world)

-- `i, i + 1, …`, as many as `n`: the rounds of a loop over the nodes.
abbrev pub nodes_from : ℕ → ℕ → List ℕ
nodes_from i zero = []
nodes_from i (suc n) = i ∷ nodes_from (i + 1) n
