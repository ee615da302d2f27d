-- ===== src/ClusterQueue/Send/Termination.antt =====
-- The loops that push come to an end, by the clock: as much fuel as the milliseconds of the deadline
-- is enough.
use mem_service.Base.{
  ℕ, zero, suc, ◌+◌, ◌-◌, ◌≤◌, ◌<◌, ◌^◌, ◌≡◌, Bool, true, false, not, ◌||◌, Option, none, some,
  List, [], ◌∷◌, ltb, ◌==◌, if_both, arith, inl, inr, Bool-cases,
}
use mem_service.ClusterQueue.Descs.{Desc, object_put_desc}
use mem_service.ClusterQueue.Runtime.{Cluster, Env, now, sleep, nodes_from, cluster_wait_ms}
use mem_service.ClusterQueue.Ingress.Frame.{Monotone}
use mem_service.ClusterQueue.Send.{
  push, push_until, push_all, push_obmm_object_descs, is_pushed, and_then,
}

-- A clock that is never turned back, and that a sleep of 1000 microseconds moves on.
pub record Clock {W : Type 0} (env : Env W) : Type 0 where
  pub monotone : Monotone env (λ w w'. env.now_ms w ≤ env.now_ms w')
  pub ticks : (w : W) → env.now_ms w + 1 ≤ env.now_ms (env.usleep 1000 w)

-- A run that did not use its fuel up, on a clock that was not turned back.
unfoldable pub Returns : {W : Type 0} → Env W → Cluster W → Option (Bool × Cluster W) → Type 0
Returns env c none = ⊥
Returns env c (some (b, c')) = now env c ≤ now env c'

Returns-from :
    {W : Type 0} (env : Env W) (c c' : Cluster W) (o : Option (Bool × Cluster W))
    → now env c ≤ now env c'
    → Returns env c' o
    → Returns env c o
unfolding Returns
Returns-from env c c' none h r = r
Returns-from env c c' (some (b, c'')) h r = omega arith

Returns-and_then :
    {W : Type 0} (env : Env W) (c : Cluster W) (o : Option (Bool × Cluster W))
    (next : Cluster W → Option (Bool × Cluster W))
    → Returns env c o
    → ((c' : Cluster W) → now env c ≤ now env c' → Returns env c' (next c'))
    → Returns env c (and_then o next)
unfolding Returns
Returns-and_then env c none next r q = r
Returns-and_then env c (some (true, c')) next r q = Returns-from env c c' (next c') r (q c' r)
Returns-and_then env c (some (false, c')) next r q = r

module _ {W : Type 0} (env : Env W) (k : Clock env) where
  pub push_until-Returns :
      (late : ℕ → Bool) (deadline fuel : ℕ) (c : Cluster W) (peer : ℕ) (d : Desc)
      → ((n : ℕ) → deadline < n → late n ≡ true)
      → 1 ≤ fuel
      → deadline + 2 ≤ now env c + fuel
      → Returns env c (push_until env late fuel c peer d)
  unfolding push_until Returns
  push_until-Returns late deadline zero c peer d h some_fuel enough = absurd (omega arith)
  push_until-Returns late deadline (suc fuel) c peer d h some_fuel enough =
      let t = push env c peer d in
      let after_push = k.monotone.on_push peer d c.world in
      let slept = k.ticks t.1.world in
      if_both (Returns env c) (is_pushed t.0) after_push (elim (Bool-cases (late (now env t.1))) [
        | inl e ↦ rw e after_push
        | inr e ↦
            let in_time : ¬ (deadline < now env t.1) =
              λ over. absurd (ground (arith, h (now env t.1) over)) in
            rw e (
              Returns-from env c (sleep env t.1) _ (omega arith) (
                push_until-Returns late deadline fuel (sleep env t.1) peer d h (omega arith)
                  (omega arith)))
      ])

  pub push_all-Returns :
      (late : ℕ → Bool) (deadline fuel : ℕ) (peers : List ℕ) (d : Desc) (c : Cluster W)
      → ((n : ℕ) → deadline < n → late n ≡ true)
      → 1 ≤ fuel
      → deadline + 2 ≤ now env c + fuel
      → Returns env c (push_all env late fuel peers d c)
  unfolding push_all Returns
  push_all-Returns late deadline fuel [] d c h some_fuel enough = omega arith
  push_all-Returns late deadline fuel (i ∷ peers) d c h some_fuel enough =
      if_both (Returns env c) (i == c.local_idx || not (c.egress i))
        (push_all-Returns late deadline fuel peers d c h some_fuel enough)
        (Returns-and_then env c (push_until env late fuel c i d) (push_all env late fuel peers d)
          (push_until-Returns late deadline fuel c i d h some_fuel enough)
          (λ c' later. push_all-Returns late deadline fuel peers d c' h some_fuel (omega arith)))

  -- A broadcast returns, whatever its arguments, with fuel for the 300000 ms of its deadline and two
  -- rounds more.
  pub push_obmm_object_descs-Returns :
      (fuel : ℕ) (c : Cluster W) (kind offset len checksum epoch : ℕ)
      → cluster_wait_ms + 2 ≤ fuel
      → Returns env c (push_obmm_object_descs env fuel c kind offset len checksum epoch)
  unfolding push_obmm_object_descs Returns
  push_obmm_object_descs-Returns fuel c kind offset len checksum epoch h =
      if_both (Returns env c) (ltb (2 ^ 32 - 1) len || ltb (2 ^ 16 - 1) kind) (omega arith) (
        push_all-Returns (ltb (now env c + cluster_wait_ms)) (now env c + cluster_wait_ms) fuel
          (nodes_from 0 c.node_count) (object_put_desc c.local_idx kind offset len checksum epoch) c
          (λ n late. ground arith) (omega arith) (omega arith))
