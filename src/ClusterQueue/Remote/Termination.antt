-- ===== src/ClusterQueue/Remote/Termination.antt =====
-- The wait for the objects of a node returns. A round that popped something does not sleep, so what
-- bounds the rounds is the time and the descriptors that are still to come, together.
use mem_service.Base.{
  ℕ, zero, suc, ◌+◌, ◌≤◌, ◌<◌, ◌≡◌, ◌⊎◌, subst, Bool, true, false, not, ◌||◌, Option, none, some,
  List, [], ◌∷◌, ltb, leb, if◌then◌else◌, if_both, is_none, arith, inl, inr, Bool-cases,
  Option-cases,
}
use mem_service.ClusterQueue.Descs.{ObjectRecord, pending_object_desc_matches}
use mem_service.ClusterQueue.Runtime.{Cluster, Env, now, sleep, obmm_service_wait_ms}
use mem_service.ClusterQueue.Pending.{take_pending_object_record_desc, stash_pending_desc}
use mem_service.ClusterQueue.Ingress.{PopCode, popped, nothing, invalid, io_error, pop_ingress_desc}
use mem_service.ClusterQueue.Ingress.Frame.{Answered, pop_ingress_desc-Answered}
use mem_service.ClusterQueue.Ingress.Known.{
  Follows, Follows-refl, Moved-Follows, stash_pending_desc-Follows, take_pending-Follows,
}
use mem_service.ClusterQueue.Barrier.Draining.{
  Finite, R, finite-Pops, finite-Receives, then_Follows, sleep-Follows, Ends, Ends-from,
}
use mem_service.ClusterQueue.Remote.{
  Wanted, see_all, any_named, all_seen, other_desc, take_wanted, take_all, drain_objects,
  wait_objects, wait_remote_obmm_object_descs,
}

module _ {W : Type 0} (env : Env W) (left : W → ℕ → ℕ) (f : Finite env left) (epoch i : ℕ) where
  abbrev stays_Follows : (c : Cluster W) → Follows (R env left f) c c
  stays_Follows = Follows-refl env (R env left f) (λ w j d. Unit) (finite-Receives env left f)

  take_all-Follows :
      (wants : List Wanted) (c : Cluster W) → Follows (R env left f) c (take_all i epoch wants c).1
  unfolding take_all take_wanted take_pending_object_record_desc
  take_all-Follows [] c = stays_Follows c
  take_all-Follows (want ∷ wants) c =
      let t = take_wanted i epoch want c in
      let g =
        if_both (λ (t : Wanted × Cluster W). Follows (R env left f) c t.1) want.saw
          (stays_Follows c)
          (take_pending-Follows env (R env left f) (λ w j d. Unit) (finite-Receives env left f)
            (pending_object_desc_matches epoch want.object want.kind) c i) in
      then_Follows env left f c t.1 (take_all i epoch wants t.1).1 g (take_all-Follows wants t.1)

  -- A drain that popped something has left fewer descriptors to come.
  Ended : Cluster W → Bool → Option (Bool × List Wanted × Cluster W) → Type 0
  Ended c drained none = ⊥
  Ended c drained (some (drained', wants, c')) =
      Follows (R env left f) c c'
      × (drained' ≡ true → (drained ≡ true) ⊎ (left c'.world i + 1 ≤ left c.world i))

  Ended-from :
      (c x : Cluster W) (drained : Bool) (o : Option (Bool × List Wanted × Cluster W))
      → Follows (R env left f) c x
      → left x.world i + 1 ≤ left c.world i
      → Ended x true o
      → Ended c drained o
  unfolding Ended
  Ended-from c x drained none g less e = e
  Ended-from c x drained (some (drained', wants, c')) g less (g', _) =
      (then_Follows env left f c x c' g g', λ _. inr (omega (arith, g'.later.fewer i, less)))

  Ended-pop :
      (drained : Bool) (wants : List Wanted) (c : Cluster W) (t : PopCode × Cluster W)
      (rest : List Wanted → Cluster W → Option (Bool × List Wanted × Cluster W))
      → Answered env
          (R env left f)
          (λ w w' j d. left w' j + 1 ≤ left w j)
          (finite-Pops env left f)
          c
          i
          t
      → ((ws : List Wanted) (x : Cluster W)
          → left x.world i + 1 ≤ left c.world i
          → Ended x true (rest ws x))
      → Ended c drained (elim t.0 [
        | popped d ↦
            let other = other_desc epoch d in
            rest
              (if other then wants else see_all d wants)
              (if other || not (any_named d wants) then stash_pending_desc t.1 i d else t.1)
        | _ ↦ some (drained, wants, t.1)
      ])
  unfolding Ended Answered
  Ended-pop drained wants c (popped d, c') rest (v, less) next =
      let g =
        Moved-Follows env (R env left f) (λ w j e. Unit) (finite-Receives env left f) c c' v in
      let s =
        stash_pending_desc-Follows env (R env left f) (λ w j e. Unit) (finite-Receives env left f)
          c' i d in
      let stashed = stash_pending_desc c' i d in
      let ws = if other_desc epoch d then wants else see_all d wants in
      if_both (λ (x : Cluster W). Ended c drained (rest ws x))
        (other_desc epoch d || not (any_named d wants))
        (Ended-from c stashed drained (rest ws stashed) (then_Follows env left f c c' stashed g s)
          (omega (arith, s.later.fewer i, less))
          (next ws stashed (omega (arith, s.later.fewer i, less))))
        (Ended-from c c' drained (rest ws c') g less (next ws c' less))
  Ended-pop drained wants c (nothing, c') rest v next = (
    Moved-Follows env (R env left f) (λ w j e. Unit) (finite-Receives env left f) c c' v,
    λ e. inl e,
  )
  Ended-pop drained wants c (invalid, c') rest v next = (
    Moved-Follows env (R env left f) (λ w j e. Unit) (finite-Receives env left f) c c' v,
    λ e. inl e,
  )
  Ended-pop drained wants c (io_error, c') rest v next = (
    Moved-Follows env (R env left f) (λ w j e. Unit) (finite-Receives env left f) c c' v,
    λ e. inl e,
  )

  drain_objects-Ended :
      (fuel : ℕ) (drained : Bool) (wants : List Wanted) (c : Cluster W)
      → left c.world i < fuel
      → Ended c drained (drain_objects env i epoch fuel drained wants c)
  unfolding drain_objects Ended
  drain_objects-Ended zero drained wants c h = absurd (omega arith)
  drain_objects-Ended (suc fuel) drained wants c h =
      Ended-pop drained wants c (pop_ingress_desc env c i) (drain_objects env i epoch fuel true)
        (pop_ingress_desc-Answered env (R env left f) (λ w w' j d. left w' j + 1 ≤ left w j)
          (finite-Pops env left f) c i)
        (λ ws x less. drain_objects-Ended fuel true ws x (omega arith))

  wait_objects-Ends :
      (deadline fuel rounds : ℕ) (wants : List Wanted) (c : Cluster W)
      → left c.world i < fuel
      → 1 ≤ rounds
      → deadline + left c.world i + 1 ≤ now env c + rounds
      → Ends env left f c (wait_objects env i epoch deadline fuel rounds wants c)
  unfolding wait_objects Ends Ended
  wait_objects-Ends deadline fuel zero wants c h some_rounds enough = absurd (omega arith)
  wait_objects-Ends deadline fuel (suc rounds) wants c h some_rounds enough =
      let t = take_all i epoch wants c in
      let g = take_all-Follows wants c in
      let o = drain_objects env i epoch fuel false t.0 t.1 in
      let q = drain_objects-Ended fuel false t.0 t.1 (omega (arith, g.later.fewer i, h)) in
      elim (Bool-cases (ltb (now env c) deadline)) [
        | inr over ↦ rw over (stays_Follows c)
        | inl soon ↦ rw soon (elim (Option-cases o) [
          | inl spent ↦ absurd (subst (Ended t.1 false) spent q)
          | inr (u, e) ↦
              let (g', less) = subst (Ended t.1 false) e q in
              let far = then_Follows env left f c t.1 u.2 g g' in
              let early : now env c < deadline = ground arith in
              rw e (
                if_both (Ends env left f c) (all_seen u.1) far (
                  next u far
                    (λ d. elim (less d) [
                      | inl never ↦ absurd (ground arith)
                      | inr l ↦ omega (arith, l, g.later.fewer i)
                    ])
                    early (wait_objects-Ends deadline fuel rounds u.1)))
        ])
      ]
    where
      next :
          (u : Bool × List Wanted × Cluster W)
          → Follows (R env left f) c u.2
          → (u.0 ≡ true → left u.2.world i + 1 ≤ left c.world i)
          → now env c < deadline
          → ((x : Cluster W)
              → left x.world i < fuel
              → 1 ≤ rounds
              → deadline + left x.world i + 1 ≤ now env x + rounds
              → Ends env left f x (wait_objects env i epoch deadline fuel rounds u.1 x))
          → Ends env left f c (
              wait_objects env i epoch deadline fuel rounds u.1
                (if u.0 then u.2 else sleep env u.2))
      next u far less early rec = elim (Bool-cases u.0) [
        | inl drained ↦
            let l = less drained in
            rw drained (
              Ends-from env left f c u.2 _ far (
                rec u.2 (omega (arith, far.later.fewer i, h)) (omega arith)
                  (omega (arith, far.later.time, l))))
        | inr idle ↦
            let x = sleep env u.2 in
            let time = f.ticks u.2.world in
            let g = then_Follows env left f c u.2 x far (sleep-Follows env left f u.2) in
            rw idle (
              Ends-from env left f c x _ g (
                rec x (omega (arith, g.later.fewer i, h)) (omega arith)
                  (omega (arith, far.later.time, time, g.later.fewer i))))
      ]

module _ {W : Type 0} (env : Env W) (left : W → ℕ → ℕ) (f : Finite env left) where
  -- A wait for the objects of a node returns, on a clock that goes on and with peers that send
  -- finitely many descriptors, given fuel for the 300000 ms of its deadline, one round more, and the
  -- descriptors that the queue still brings.
  pub wait_remote_obmm_object_descs-Ends :
      (fuel : ℕ) (c : Cluster W) (owner epoch : ℕ)
      (weight kvcache hidden_input hidden_output : ObjectRecord)
      → obmm_service_wait_ms + left c.world owner + 1 ≤ fuel
      → Ends env left f c (
          wait_remote_obmm_object_descs env fuel c owner epoch weight kvcache hidden_input
            hidden_output)
  unfolding wait_remote_obmm_object_descs Ends
  wait_remote_obmm_object_descs-Ends fuel c owner epoch weight kvcache hidden_input hidden_output
        h =
      let stay = Follows-refl env (R env left f) (λ w j d. Unit) (finite-Receives env left f) c in
      if_both (Ends env left f c) (leb c.node_count owner) stay (
        if_both (Ends env left f c) (is_none (c.ingress owner)) stay (
          wait_objects-Ends env left f epoch owner (now env c + obmm_service_wait_ms) fuel fuel _ c
            (omega arith) (omega arith) (omega arith)))
