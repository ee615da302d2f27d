-- ===== src/ClusterQueue/Ingress.antt =====
-- `mem_service_pop_ingress_desc`, with the cache maintenance of mem_service_cluster_utils.c that it
-- calls: the range to read is invalidated before the pop, the head is written back after it.
pub mod Frame
pub mod Known
use mem_service.Base.{
  ℕ, suc, ◌+◌, ◌-◌, ◌*◌, ◌/◌, ◌^◌, ◌%◌, bit_and, Bool, true, false, not, ◌||◌, Option, none, some,
  List, [], ◌∷◌, ltb, leb, ◌==◌, if◌then◌else◌, any_of,
}
use mem_service.ClusterQueue.Descs.{Desc}
use mem_service.ClusterQueue.Runtime.{Cluster, Env, IngressQueue, Slot, with_world}

-- The return codes: 0 with the descriptor, that of a pop that found nothing, -EINVAL, -EIO.
pub data PopCode : Type 0 where
  popped : Desc → PopCode
  nothing : PopCode
  invalid : PopCode
  io_error : PopCode

module _ {W : Type 0} (env : Env W) where
  -- A page is a power of two, so clearing the bits below it is rounding down.
  abbrev page_floor : ℕ → ℕ
  page_floor address =
      let size = if env.page_size == 0 then 4096 else env.page_size in address / size * size

  abbrev page_ceil : ℕ → ℕ
  page_ceil address =
      let size = if env.page_size == 0 then 4096 else env.page_size in
      (address + size - 1) % 2 ^ 64 / size * size

  -- `true` is the return code 0. The slot's region is at `addr`, of `len` bytes.
  unfoldable pub update_region_range_at : Slot → ℕ → ℕ → ℕ → ℕ → Bool → W → Bool × W
  update_region_range_at slot addr len offset length for_write w =
      if addr == 0 || not slot.fd_open
      then (false, w)
      else if slot.map_osync
      then (true, w)
      else if length == 0 || ltb len ((offset + length) % 2 ^ 64)
      then (false, w)
      else env.ioctl_update_range (page_floor ((addr + offset) % 2 ^ 64))
          (page_ceil ((addr + offset + length) % 2 ^ 64)) for_write w

  abbrev pub update : Cluster W → ℕ → ℕ → Bool → Bool × Cluster W
  update c offset length for_write =
      let (done, w) =
        update_region_range_at c.local_slot c.ingress_queue_base c.region_size offset length
          for_write c.world in
      (done, with_world c w)

  abbrev pub pop_conditions : Cluster W → ℕ → List Bool
  pop_conditions c owner_idx =
      leb c.node_count owner_idx
      ∷ (owner_idx == c.local_idx)
      ∷ (c.ingress_queue_base == 0)
      ∷ leb c.node_count c.local_idx
      ∷ []

  -- The queue does not lie within the region.
  abbrev pub out_of_region : Cluster W → IngressQueue → Bool
  out_of_region c queue =
      ltb c.region_size queue.offset
      || ltb (c.region_size - queue.offset) (env.queue_region_size queue.size)

  -- The head is written back after a descriptor was taken; what fails then is the call.
  unfoldable pub finish_pop : IngressQueue → Option Desc × Cluster W → PopCode × Cluster W
  finish_pop queue (none, c) = (nothing, c)
  finish_pop queue (some d, c) =
      let (done, c') = update c (queue.offset + env.head_offset) env.index_size true in
      if done then (popped d, c') else (io_error, c')

  abbrev pub spsc_pop : Cluster W → ℕ → Option Desc × Cluster W
  spsc_pop c owner_idx =
      let (answer, w) = env.spsc_pop owner_idx c.world in (answer, with_world c w)

  -- The slot of the ring that the head stands on.
  abbrev pub head_slot : Cluster W → ℕ → IngressQueue → ℕ
  head_slot c owner_idx queue =
      queue.offset
      + env.desc_offset
      + bit_and (env.spsc_head owner_idx c.world) queue.mask * env.desc_size

  unfoldable pub pop_queue : Cluster W → ℕ → IngressQueue → PopCode × Cluster W
  pop_queue c owner_idx queue =
      if out_of_region c queue
      then (invalid, c)
      else let (desc_done, c1) = update c (head_slot c owner_idx queue) env.desc_size false in
        if not desc_done
        then (io_error, c1)
        else let (tail_done, c2) =
            update c1 (queue.offset + env.tail_offset) env.index_size false in
          if not tail_done then (io_error, c2) else finish_pop queue (spsc_pop c2 owner_idx)

  pop_from : Cluster W → ℕ → Option IngressQueue → PopCode × Cluster W
  pop_from c owner_idx none = (invalid, c)
  pop_from c owner_idx (some queue) = pop_queue c owner_idx queue

  unfoldable pub pop_ingress_desc : Cluster W → ℕ → PopCode × Cluster W
  unfolding pop_from
  pop_ingress_desc c owner_idx =
      if any_of (pop_conditions c owner_idx)
      then (invalid, c)
      else pop_from c owner_idx (c.ingress owner_idx)
