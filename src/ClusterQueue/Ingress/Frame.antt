-- ===== src/ClusterQueue/Ingress/Frame.antt =====
-- What the queue functions leave alone: everything but the pending descriptors and the world, which
-- moves only by calls of the environment.
use mem_service.Base.{
  ℕ, ◌+◌, ◌%◌, ◌^◌, ◌≡◌, refl, subst, ap, Bool, true, false, not, ◌||◌, Option, none, some, ltb,
  ◌==◌, any_of, if_both,
}
use mem_service.ClusterQueue.Descs.{Desc}
use mem_service.ClusterQueue.Runtime.{Cluster, Env, IngressQueue, Slot, with_world}
use mem_service.ClusterQueue.Ingress.{
  PopCode, popped, nothing, invalid, io_error, update_region_range_at, update, out_of_region,
  finish_pop, spsc_pop, head_slot, pop_queue, pop_from, pop_ingress_desc, pop_conditions,
}

-- A relation between worlds that every call of the environment stays in.
pub record Monotone {W : Type 0} (env : Env W) (R : W → W → Type 0) : Type 0 where
  pub same : (w : W) → R w w
  pub trans : (w w' w'' : W) → R w w' → R w' w'' → R w w''
  pub on_usleep : (n : ℕ) (w : W) → R w (env.usleep n w)
  pub on_push : (i : ℕ) (d : Desc) (w : W) → R w (env.spsc_push i d w).1
  pub on_pop : (i : ℕ) (w : W) → R w (env.spsc_pop i w).1
  pub on_ioctl :
      (a b : ℕ) (for_write : Bool) (w : W) → R w (env.ioctl_update_range a b for_write w).1

-- A predicate of a descriptor and the node it came from that a pop makes true, and that stays true.
pub record Receives {W : Type 0} (env : Env W) (R : W → W → Type 0) (P : W → ℕ → Desc → Type 0)
    : Type 0 where
  pub monotone : Monotone env R
  pub arrives :
      (i : ℕ) (w : W) (d : Desc) → (env.spsc_pop i w).0 ≡ some d → P (env.spsc_pop i w).1 i d
  pub stays : (w w' : W) (i : ℕ) (d : Desc) → R w w' → P w i d → P w' i d

-- A relation of the worlds around a pop that answers with a descriptor: of an earlier world, and of
-- the world after it or a later one.
pub record Pops {W : Type 0} (env : Env W) (R : W → W → Type 0) (A : W → W → ℕ → Desc → Type 0)
    : Type 0 where
  pub monotone : Monotone env R
  pub arrives :
      (w0 w : W) (i : ℕ) (d : Desc)
      → R w0 w
      → (env.spsc_pop i w).0 ≡ some d
      → A w0 (env.spsc_pop i w).1 i d
  pub stays : (w0 w w' : W) (i : ℕ) (d : Desc) → R w w' → A w0 w i d → A w0 w' i d

pub Receives-Pops :
    {W : Type 0} (env : Env W) (R : W → W → Type 0) (P : W → ℕ → Desc → Type 0)
    → Receives env R P
    → Pops env R (λ w0 w i d. P w i d)
Receives-Pops env R P r = record {
  monotone = r.monotone;
  arrives = λ w0 w i d l e. r.arrives i w d e;
  stays = λ w0 w w' i d l p. r.stays w w' i d l p;
}

-- The cluster after a call that reads no pending descriptors.
pub record Moved {W : Type 0} (R : W → W → Type 0) (c c' : Cluster W) : Type 0 where
  pub frame : c' ≡ with_world c c'.world
  pub later : R c.world c'.world

module _ {W : Type 0} (env : Env W) (R : W → W → Type 0) (A : W → W → ℕ → Desc → Type 0)
    (r : Pops env R A) where
  update_region_range_at-Monotone :
      (slot : Slot) (addr len offset length : ℕ) (for_write : Bool) (w : W)
      → R w (update_region_range_at env slot addr len offset length for_write w).1
  unfolding update_region_range_at
  update_region_range_at-Monotone slot addr len offset length for_write w =
      let unchanged = r.monotone.same w in
      if_both (λ (t : Bool × W). R w t.1) (addr == 0 || not slot.fd_open) unchanged
        (if_both (λ (t : Bool × W). R w t.1) slot.map_osync unchanged
          (if_both (λ (t : Bool × W). R w t.1) (length == 0 || ltb len ((offset + length) % 2 ^ 64))
            unchanged (r.monotone.on_ioctl _ _ for_write w)))

  -- What a pop answers and leaves.
  unfoldable pub Answered : Cluster W → ℕ → PopCode × Cluster W → Type 0
  Answered c i (popped d, c') = Moved R c c' × A c.world c'.world i d
  Answered c i (nothing, c') = Moved R c c'
  Answered c i (invalid, c') = Moved R c c'
  Answered c i (io_error, c') = Moved R c c'

  update-Moved :
      (c c1 : Cluster W) (offset length : ℕ) (for_write : Bool)
      → Moved R c c1
      → Moved R c (update env c1 offset length for_write).1
  update-Moved c c1 offset length for_write v = record {
    frame = ap (λ x. with_world x (update env c1 offset length for_write).1.world) v.frame;
    later = r.monotone.trans c.world c1.world _ v.later (
        update_region_range_at-Monotone c1.local_slot c1.ingress_queue_base c1.region_size offset
          length for_write c1.world);
  }

  finish_pop-Answered :
      (c c2 : Cluster W) (i : ℕ) (queue : IngressQueue)
      → Moved R c c2
      → Answered c i (finish_pop env queue (spsc_pop env c2 i))
  unfolding finish_pop Answered
  finish_pop-Answered c c2 i queue v = split (spsc_pop env c2 i) refl
    where
      moved : Moved R c (spsc_pop env c2 i).1
      moved = record {
        frame = ap (λ x. with_world x (env.spsc_pop i c2.world).1) v.frame;
        later = r.monotone.trans c.world c2.world _ v.later (r.monotone.on_pop i c2.world);
      }

      split :
          (t : Option Desc × Cluster W)
          → spsc_pop env c2 i ≡ t
          → Answered c i (finish_pop env queue t)
      split (none, c3) e = subst (Moved R c) (ap (λ x. x.1) e) moved
      split (some d, c3) e =
          let here : Moved R c c3 = subst (Moved R c) (ap (λ x. x.1) e) moved in
          let back = update env c3 (queue.offset + env.head_offset) env.index_size true in
          let v' = update-Moved c c3 (queue.offset + env.head_offset) env.index_size true here in
          let came : A c.world c3.world i d =
            subst (λ (x : Cluster W). A c.world x.world i d) (ap (λ x. x.1) e)
              (r.arrives c.world c2.world i d v.later (ap (λ x. x.0) e)) in
          let still : A c.world back.1.world i d =
            r.stays c.world c3.world back.1.world i d
              (update_region_range_at-Monotone c3.local_slot c3.ingress_queue_base c3.region_size
                (queue.offset + env.head_offset) env.index_size true c3.world)
              came in
          if_both (Answered c i) back.0 (v', still) v'

  pop_queue-Answered :
      (c : Cluster W) (i : ℕ) (queue : IngressQueue) → Answered c i (pop_queue env c i queue)
  unfolding pop_queue Answered
  pop_queue-Answered c i queue =
      let none_yet : Moved R c c = record { frame = refl; later = r.monotone.same c.world } in
      let t1 = update env c (head_slot env c i queue) env.desc_size false in
      let v1 = update-Moved c c (head_slot env c i queue) env.desc_size false none_yet in
      let t2 = update env t1.1 (queue.offset + env.tail_offset) env.index_size false in
      let v2 = update-Moved c t1.1 (queue.offset + env.tail_offset) env.index_size false v1 in
      if_both (Answered c i) (out_of_region env c queue) none_yet (
        if_both (Answered c i) (not t1.0) v1
          (if_both (Answered c i) (not t2.0) v2 (finish_pop-Answered c t2.1 i queue v2)))

  pub pop_ingress_desc-Answered : (c : Cluster W) (i : ℕ) → Answered c i (pop_ingress_desc env c i)
  unfolding pop_ingress_desc pop_from Answered
  pop_ingress_desc-Answered c i =
      let none_yet : Moved R c c = record { frame = refl; later = r.monotone.same c.world } in
      if_both (Answered c i) (any_of (pop_conditions env c i)) none_yet (queue (c.ingress i))
    where
      queue : (o : Option IngressQueue) → Answered c i (pop_from env c i o)
      queue none = record { frame = refl; later = r.monotone.same c.world }
      queue (some q) = pop_queue-Answered c i q
