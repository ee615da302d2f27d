-- ===== src/ClusterQueue/Remote/Drained.antt =====
-- The draining of a node's queue while its objects are waited for.
use mem_service.Base.{
  ℕ, zero, suc, refl, Bool, true, not, ◌||◌, Option, none, some, List, All, if◌then◌else◌, if_both,
  inl, inr, Bool-cases,
}
use mem_service.ClusterQueue.Descs.{Desc}
use mem_service.ClusterQueue.Runtime.{Cluster, Env}
use mem_service.ClusterQueue.Pending.{stash_pending_desc}
use mem_service.ClusterQueue.Ingress.{PopCode, popped, nothing, invalid, io_error, pop_ingress_desc}
use mem_service.ClusterQueue.Ingress.Frame.{
  Receives, Receives-Pops, Moved, Answered, pop_ingress_desc-Answered,
}
use mem_service.ClusterQueue.Ingress.Known.{
  Known, Moved-Known, stash_pending_desc-Known, stash_pending_desc-Follows,
}
use mem_service.ClusterQueue.Remote.{Wanted, see_all, any_named, other_desc, drain_objects}
use mem_service.ClusterQueue.Remote.Seen.{
  Sound, Kept, see_all-Sound, Sound-later, objects-see_all, Kept-trans,
}

module _ {W : Type 0} (env : Env W) (R : W → W → Type 0) (P : W → ℕ → Desc → Type 0)
    (r : Receives env R P) (epoch i : ℕ) where
  unfoldable pub Drained :
      Cluster W → List Wanted → Option (Bool × List Wanted × Cluster W) → Type 0
  Drained c wants none = Unit
  Drained c wants (some (drained, wants', c')) = Kept env R P r epoch i c wants wants' c'

  pub Drained-from :
      (c c1 : Cluster W) (wants wants1 : List Wanted) (o : Option (Bool × List Wanted × Cluster W))
      → Kept env R P r epoch i c wants wants1 c1
      → Drained c1 wants1 o
      → Drained c wants o
  unfolding Drained
  Drained-from c c1 wants wants1 none a b = tt
  Drained-from c c1 wants wants1 (some (drained, wants', c')) a b =
      Kept-trans env R P r epoch i c c1 c' wants wants1 wants' a b

  -- What a popped descriptor does to the flags and the pending descriptors.
  popped-Kept :
      (c c' : Cluster W) (wants : List Wanted) (d : Desc)
      → Moved R c c'
      → P c'.world i d
      → Known P c
      → All (Sound env R P r epoch i c.world) wants
      → Kept env R P r epoch i c wants
          (if other_desc epoch d then wants else see_all d wants)
          (if other_desc epoch d || not (any_named d wants) then stash_pending_desc c' i d else c')
  popped-Kept c c' wants d v p k s =
      let k' = Moved-Known env R P r c c' v k in
      let x = stash_pending_desc c' i d in
      let s' = Sound-later env R P r epoch i c.world c'.world wants v.later s in
      let stashed = stash_pending_desc-Follows env R P r c' i d in
      let kx = stash_pending_desc-Known env R P r c' i d p k' in
      let lx = r.monotone.trans c.world c'.world x.world v.later stashed.later in
      elim (Bool-cases (other_desc epoch d)) [
        | inl other ↦ rw other (record {
          known = kx;
          sound = Sound-later env R P r epoch i c'.world x.world wants stashed.later s';
          later = lx;
          same_objects = refl;
        })
        | inr same ↦
            let seen = see_all-Sound env R P r epoch i c'.world d wants p same s' in
            let objs = objects-see_all env R P r epoch i d wants in
            rw same (
              if_both (Kept env R P r epoch i c wants (see_all d wants)) (not (any_named d wants))
                (record {
                  known = kx;
                  sound =
                      Sound-later env R P r epoch i c'.world x.world (see_all d wants) stashed.later
                        seen;
                  later = lx;
                  same_objects = objs;
                })
                (record { known = k'; sound = seen; later = v.later; same_objects = objs }))
      ]

  pub Moved-Kept :
      (c c' : Cluster W) (wants : List Wanted)
      → Moved R c c'
      → Known P c
      → All (Sound env R P r epoch i c.world) wants
      → Kept env R P r epoch i c wants wants c'
  Moved-Kept c c' wants v k s = record {
    known = Moved-Known env R P r c c' v k;
    sound = Sound-later env R P r epoch i c.world c'.world wants v.later s;
    later = v.later;
    same_objects = refl;
  }

  Drained-pop :
      (c : Cluster W) (wants : List Wanted) (drained : Bool) (t : PopCode × Cluster W)
      (rest : List Wanted → Cluster W → Option (Bool × List Wanted × Cluster W))
      → Answered env R (λ w0 w j d. P w j d) (Receives-Pops env R P r) c i t
      → Known P c
      → All (Sound env R P r epoch i c.world) wants
      → ((ws : List Wanted) (x : Cluster W)
          → Known P x
          → All (Sound env R P r epoch i x.world) ws
          → Drained x ws (rest ws x))
      → Drained c wants (elim t.0 [
        | popped d ↦
            let other = other_desc epoch d in
            rest
              (if other then wants else see_all d wants)
              (if other || not (any_named d wants) then stash_pending_desc t.1 i d else t.1)
        | _ ↦ some (drained, wants, t.1)
      ])
  unfolding Drained Answered
  Drained-pop c wants drained (popped d, c') rest (v, p) k s next =
      let a = popped-Kept c c' wants d v p k s in
      Drained-from c _ wants _ _ a (next _ _ a.known a.sound)
  Drained-pop c wants drained (nothing, c') rest v k s next = Moved-Kept c c' wants v k s
  Drained-pop c wants drained (invalid, c') rest v k s next = Moved-Kept c c' wants v k s
  Drained-pop c wants drained (io_error, c') rest v k s next = Moved-Kept c c' wants v k s

  pub drain_objects-Drained :
      (fuel : ℕ) (drained : Bool) (wants : List Wanted) (c : Cluster W)
      → Known P c
      → All (Sound env R P r epoch i c.world) wants
      → Drained c wants (drain_objects env i epoch fuel drained wants c)
  unfolding drain_objects Drained
  drain_objects-Drained zero drained wants c k s = tt
  drain_objects-Drained (suc fuel) drained wants c k s =
      Drained-pop c wants drained (pop_ingress_desc env c i) (drain_objects env i epoch fuel true)
        (pop_ingress_desc-Answered env R (λ w0 w j d. P w j d) (Receives-Pops env R P r) c i) k s
        (λ ws x k' s'. drain_objects-Drained fuel true ws x k' s')
