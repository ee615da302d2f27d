-- ===== src/ClusterQueue/Barrier/Draining.antt =====
-- The draining of a queue ends when the peer has sent all that it sends.
use mem_service.Base.{
  refl, ℕ, zero, suc, ◌+◌, ◌≤◌, ◌<◌, ◌≡◌, Bool, true, false, ◌||◌, Option, none, some,
  if◌then◌else◌, arith, inl, inr, Bool-cases,
}
use mem_service.ClusterQueue.Descs.{Desc, desc_matches_barrier}
use mem_service.ClusterQueue.Runtime.{Cluster, Env, sleep}
use mem_service.ClusterQueue.Pending.{take_pending, take_pending_barrier_desc, stash_pending_desc}
use mem_service.ClusterQueue.Ingress.{PopCode, popped, nothing, invalid, io_error, pop_ingress_desc}
use mem_service.ClusterQueue.Ingress.Frame.{
  Monotone, Receives, Pops, Answered, pop_ingress_desc-Answered,
}
use mem_service.ClusterQueue.Ingress.Known.{
  Follows, Follows-trans, Moved-Follows, stash_pending_desc-Follows, take_pending-Follows,
}
use mem_service.ClusterQueue.Send.Delivered.{Sends}
use mem_service.ClusterQueue.Send.Termination.{Clock}
use mem_service.ClusterQueue.Barrier.{drain_barrier, drain_unless, poll_peer}

-- Time goes on, and what a node has still to receive from each other does not become more.
pub record Progress {W : Type 0} (env : Env W) (left : W → ℕ → ℕ) (w w' : W) : Type 0 where
  pub time : env.now_ms w ≤ env.now_ms w'
  pub fewer : (i : ℕ) → left w' i ≤ left w i

-- The peers send finitely many descriptors, `left` of which are still to be popped, on a clock that
-- a sleep moves on.
pub record Finite {W : Type 0} (env : Env W) (left : W → ℕ → ℕ) : Type 0 where
  pub progress : Monotone env (Progress env left)
  pub ticks : (w : W) → env.now_ms w + 1 ≤ env.now_ms (env.usleep 1000 w)
  pub shrinks :
      (i : ℕ) (w : W) (d : Desc)
      → (env.spsc_pop i w).0 ≡ some d
      → left (env.spsc_pop i w).1 i + 1 ≤ left w i

module _ {W : Type 0} (env : Env W) (left : W → ℕ → ℕ) (f : Finite env left) where
  abbrev pub R : W → W → Type 0
  R = Progress env left

  pub finite-Pops : Pops env R (λ w w' i d. left w' i + 1 ≤ left w i)
  finite-Pops = record {
    monotone = f.progress;
    arrives = λ w0 w i d p e. omega (arith, p.fewer i, f.shrinks i w d e);
    stays = λ w0 w w' i d p h. omega (arith, p.fewer i, h);
  }

  -- Nothing is asked of what has arrived.
  pub finite-Receives : Receives env R (λ w i d. Unit)
  finite-Receives = record {
    monotone = f.progress;
    arrives = λ i w d e. tt;
    stays = λ w w' i d p h. tt;
  }

  pub finite-Sends : Sends env R (λ w i d. Unit)
  finite-Sends = record {
    monotone = f.progress;
    delivers = λ i d w e. tt;
    stays = λ w w' i d p h. tt;
  }

  pub finite-Clock : Clock env
  finite-Clock = record {
    monotone = record {
      same = λ w. omega arith;
      trans = λ w w' w'' h h'. omega arith;
      on_usleep = λ n w. (f.progress.on_usleep n w).time;
      on_push = λ i d w. (f.progress.on_push i d w).time;
      on_pop = λ i w. (f.progress.on_pop i w).time;
      on_ioctl = λ a b for_write w. (f.progress.on_ioctl a b for_write w).time;
    };
    ticks = f.ticks;
  }

  abbrev pub then_Follows :
      (c c' c'' : Cluster W) → Follows R c c' → Follows R c' c'' → Follows R c c''
  then_Follows = Follows-trans env R (λ w i d. Unit) finite-Receives

  pub sleep-Follows : (c : Cluster W) → Follows R c (sleep env c)
  sleep-Follows c = record {
    node_count = refl;
    local_idx = refl;
    ingress = refl;
    later = f.progress.on_usleep 1000 c.world;
  }

  -- A run that did not use its fuel up.
  unfoldable pub Ends : Cluster W → Option (Bool × Cluster W) → Type 0
  Ends c none = ⊥
  Ends c (some (b, c')) = Follows R c c'

  pub Ends-from :
      (c x : Cluster W) (o : Option (Bool × Cluster W)) → Follows R c x → Ends x o → Ends c o
  unfolding Ends
  Ends-from c x none g e = e
  Ends-from c x (some (b, c')) g e = then_Follows c x c' g e

  -- One pop of the loop that drains a queue.
  Ends-pop :
      (desc_type epoch i : ℕ) (got : Bool) (c : Cluster W) (t : PopCode × Cluster W)
      (rest : Bool → Cluster W → Option (Bool × Cluster W))
      → Answered env R (λ w w' j d. left w' j + 1 ≤ left w j) finite-Pops c i t
      → ((g : Bool) (x : Cluster W) → left x.world i + 1 ≤ left c.world i → Ends x (rest g x))
      → Ends c (elim t.0 [
        | popped d ↦
            let hit = desc_matches_barrier desc_type epoch d in
            rest (hit || got) (if hit then t.1 else stash_pending_desc t.1 i d)
        | _ ↦ some (got, t.1)
      ])
  unfolding Ends Answered
  Ends-pop desc_type epoch i got c (popped d, c') rest (v, less) next =
      let g = Moved-Follows env R (λ w j e. Unit) finite-Receives c c' v in
      let s = stash_pending_desc-Follows env R (λ w j e. Unit) finite-Receives c' i d in
      elim (Bool-cases (desc_matches_barrier desc_type epoch d)) [
        | inl e ↦ rw e (Ends-from c c' (rest true c') g (next true c' less))
        | inr e ↦
            let x = stash_pending_desc c' i d in
            rw e (
              Ends-from c x (rest got x) (then_Follows c c' x g s)
                (next got x (omega (arith, s.later.fewer i, less))))
      ]
  Ends-pop desc_type epoch i got c (nothing, c') rest v next =
      Moved-Follows env R (λ w j e. Unit) finite-Receives c c' v
  Ends-pop desc_type epoch i got c (invalid, c') rest v next =
      Moved-Follows env R (λ w j e. Unit) finite-Receives c c' v
  Ends-pop desc_type epoch i got c (io_error, c') rest v next =
      Moved-Follows env R (λ w j e. Unit) finite-Receives c c' v

  drain_barrier-Ends :
      (desc_type epoch i fuel : ℕ) (got : Bool) (c : Cluster W)
      → left c.world i < fuel
      → Ends c (drain_barrier env desc_type epoch i fuel got c)
  unfolding drain_barrier Ends
  drain_barrier-Ends desc_type epoch i zero got c h = absurd (omega arith)
  drain_barrier-Ends desc_type epoch i (suc fuel) got c h =
      Ends-pop desc_type epoch i got c (pop_ingress_desc env c i)
        (drain_barrier env desc_type epoch i fuel)
        (pop_ingress_desc-Answered env R (λ w w' j d. left w' j + 1 ≤ left w j) finite-Pops c i)
        (λ g x less. drain_barrier-Ends desc_type epoch i fuel g x (omega arith))

  pub poll_peer-Ends :
      (desc_type epoch fuel i : ℕ) (c : Cluster W)
      → left c.world i < fuel
      → Ends c (poll_peer env desc_type epoch fuel i c)
  unfolding poll_peer drain_unless Ends take_pending_barrier_desc
  poll_peer-Ends desc_type epoch fuel i c h =
      split (take_pending (desc_matches_barrier desc_type epoch) c i) (
        take_pending-Follows env R (λ w j d. Unit) finite-Receives
          (desc_matches_barrier desc_type epoch) c i)
    where
      split :
          (t : Option Desc × Cluster W)
          → Follows R c t.1
          → Ends c (drain_unless env desc_type epoch i fuel t)
      split (some d, c') g = g
      split (none, c') g =
          Ends-from c c' (drain_barrier env desc_type epoch i fuel false c') g
            (drain_barrier-Ends desc_type epoch i fuel false c' (omega (arith, g.later.fewer i, h)))
