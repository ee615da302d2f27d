-- ===== src/ClusterQueue/Tests.antt =====
-- A network that logs what is sent and received: what the theorems are applied to.
pub mod Runs
pub mod Objects
use mem_service.Base.{
  ℕ, ◌+◌, ◌≤◌, ◌<◌, ◌^◌, ◌≡◌, ◌≢◌, ◌⊎◌, ◌↔◌, inl, inr, refl, sym, ap, subst, Bool, true, false,
  Option, none, some, List, [], ◌∷◌, All, length, arith, ◌==◌, if◌then◌else◌, if_both, Bool-cases,
}
use mem_service.ClusterQueue.Descs.{
  Desc, ObjectRecord, object_put, object_put_desc, ack_desc, barrier_desc, checksum_cookie,
  desc_matches_barrier, object_ack_matches, pending_object_desc_matches,
}
use mem_service.ClusterQueue.Descs.Matching.{
  pending_object_desc_matches-object_put_desc, object_ack_matches_iff,
  desc_matches_barrier-barrier_desc,
}
use mem_service.ClusterQueue.Runtime.{Cluster, Env, PushCode, pushed, IngressQueue, cluster_wait_ms}
use mem_service.ClusterQueue.Pending.{
  take_first, taken, take_pending, take_pending_barrier_desc, stash_pending_desc,
}
use mem_service.ClusterQueue.Pending.Order.{
  Taken, take_pending_lem, take_pending-stash_pending_desc,
}
use mem_service.ClusterQueue.Ingress.{
  update_region_range_at, finish_pop, pop_queue, pop_ingress_desc,
}
use mem_service.ClusterQueue.Ingress.Frame.{Monotone, Receives}
use mem_service.ClusterQueue.Ingress.Known.{Known}
use mem_service.ClusterQueue.Send.{push_until, push_all, push_obmm_object_descs}
use mem_service.ClusterQueue.Barrier.Draining.{Progress, Finite}
use mem_service.ClusterQueue.Send.Delivered.{Sends, Broadcast, push_obmm_object_descs_lem}
use mem_service.ClusterQueue.Send.Termination.{Clock, Returns, push_obmm_object_descs-Returns}
use mem_service.ClusterQueue.Barrier.{drain_barrier, poll_peer, poll_all, collect, queue_barrier}
use mem_service.ClusterQueue.Barrier.Reached.{Passed, queue_barrier_lem}

-- `incoming` is what the peers will have sent, in order; the newest entry of a log stands first.
pub record Net : Type 0 where
  pub clock : ℕ
  pub incoming : List (ℕ × Desc)
  pub received : List (ℕ × Desc)
  pub sent : List (ℕ × Desc)

pub Logged : List (ℕ × Desc) → ℕ → Desc → Type 0
Logged [] i d = ⊥
Logged ((j, e) ∷ log) i d = ((j ≡ i) × (e ≡ d)) ⊎ Logged log i d

abbrev pub pop_log : ℕ → Net → List (ℕ × Desc) → Option Desc × Net
pop_log i w [] = (none, w)
pop_log i w ((j, d) ∷ rest) =
    if j == i
    then (some d, record w { incoming = rest; received = (i, d) ∷ w.received })
    else (none, w)

abbrev pub test_env : Env Net
test_env = record {
  now_ms = λ w. w.clock;
  usleep = λ n w. record w { clock = w.clock + 1 };
  spsc_push = λ i d w. (pushed, record w { sent = (i, d) ∷ w.sent });
  spsc_pop = λ i w. pop_log i w w.incoming;
  spsc_head = λ i w. 0;
  queue_region_size = λ n. 64;
  head_offset = 0;
  tail_offset = 8;
  desc_offset = 16;
  index_size = 4;
  desc_size = 32;
  page_size = 4096;
  ioctl_update_range = λ a b for_write w. (true, w);
}

pub Grows : Net → Net → Type 0
Grows w w' =
    (w.clock ≤ w'.clock)
    × ((i : ℕ) (d : Desc) → Logged w.received i d → Logged w'.received i d)
    × ((i : ℕ) (d : Desc) → Logged w.sent i d → Logged w'.sent i d)

pop-Grows : (i : ℕ) (w : Net) (incoming : List (ℕ × Desc)) → Grows w (pop_log i w incoming).1
unfolding Grows Logged
pop-Grows i w [] = (omega arith, (λ j e p. p), λ j e p. p)
pop-Grows i w ((j, d) ∷ rest) =
    if_both (λ (t : Option Desc × Net). Grows w t.1) (j == i)
      (omega arith, (λ j' e p. inr p), λ j' e p. p) (omega arith, (λ j' e p. p), λ j' e p. p)

pop-arrives :
    (i : ℕ) (w : Net) (incoming : List (ℕ × Desc)) (d : Desc)
    → (pop_log i w incoming).0 ≡ some d
    → Logged (pop_log i w incoming).1.received i d
unfolding Logged
pop-arrives i w [] d e = absurd (ground arith)
pop-arrives i w ((j, d') ∷ rest) d e = elim (Bool-cases (j == i)) [
  | inl same ↦
      let e' : some d' ≡ some d = rw same at e in
      let e'' : d' ≡ d = cc e' in rw same (inl (refl, e''))
  | inr other ↦ absurd (let e' : none ≡ some d = rw other at e in ground arith)
]

test_env-Monotone : Monotone test_env Grows
unfolding Grows Logged
test_env-Monotone = record {
  same = λ w. (omega arith, (λ i d p. p), λ i d p. p);
  trans = λ w w' w'' (h, p, q) (h', p', q').
      (omega arith, (λ i d l. p' i d (p i d l)), λ i d l. q' i d (q i d l));
  on_usleep = λ n w. (omega arith, (λ i d p. p), λ i d p. p);
  on_push = λ i d w. (omega arith, (λ i' d' p. p), λ i' d' p. inr p);
  on_pop = λ i w. pop-Grows i w w.incoming;
  on_ioctl = λ a b for_write w. (omega arith, (λ i d p. p), λ i d p. p);
}

pub test_env-Receives : Receives test_env Grows (λ w i d. Logged w.received i d)
unfolding Grows
test_env-Receives = record {
  monotone = test_env-Monotone;
  arrives = λ i w d e. pop-arrives i w w.incoming d e;
  stays = λ w w' i d (h, p, q) l. p i d l;
}

pub test_env-Sends : Sends test_env Grows (λ w i d. Logged w.sent i d)
unfolding Grows Logged
test_env-Sends = record {
  monotone = test_env-Monotone;
  delivers = λ i d w e. inl (refl, refl);
  stays = λ w w' i d (h, p, q) l. q i d l;
}

pop-clock :
    (i : ℕ) (w : Net) (incoming : List (ℕ × Desc)) → w.clock ≤ (pop_log i w incoming).1.clock
pop-clock i w [] = omega arith
pop-clock i w ((j, d) ∷ rest) =
    if_both (λ (t : Option Desc × Net). w.clock ≤ t.1.clock) (j == i) (omega arith) (omega arith)

pub test_env-Clock : Clock test_env
test_env-Clock = record {
  monotone = record {
    same = λ w. omega arith;
    trans = λ w w' w'' h h'. omega arith;
    on_usleep = λ n w. omega arith;
    on_push = λ i d w. omega arith;
    on_pop = λ i w. pop-clock i w w.incoming;
    on_ioctl = λ a b for_write w. omega arith;
  };
  ticks = λ w. omega arith;
}

-- Every pop takes one of the descriptors that are on the way.
abbrev pub test_left : Net → ℕ → ℕ
test_left w i = length w.incoming

pop-left :
    (i : ℕ) (w : Net) (incoming : List (ℕ × Desc))
    → w.incoming ≡ incoming
    → length (pop_log i w incoming).1.incoming ≤ length w.incoming
pop-left i w [] e = omega arith
pop-left i w ((j, d) ∷ rest) e =
    if_both (λ (t : Option Desc × Net). length t.1.incoming ≤ length w.incoming) (j == i)
      (omega (arith, ap length e)) (omega arith)

pop-shrinks :
    (i : ℕ) (w : Net) (incoming : List (ℕ × Desc)) (d : Desc)
    → w.incoming ≡ incoming
    → (pop_log i w incoming).0 ≡ some d
    → length (pop_log i w incoming).1.incoming + 1 ≤ length w.incoming
pop-shrinks i w [] d e p = absurd (ground arith)
pop-shrinks i w ((j, d') ∷ rest) d e p = elim (Bool-cases (j == i)) [
  | inl same ↦ rw same (omega (arith, ap length e))
  | inr other ↦ absurd (let p' : none ≡ some d = rw other at p in ground arith)
]

pub test_env-Finite : Finite test_env test_left
test_env-Finite = record {
  progress = record {
    same = λ w. record { time = omega arith; fewer = λ i. omega arith };
    trans = λ w w' w'' p q. record {
      time = omega (arith, p.time, q.time);
      fewer = λ i. omega (arith, p.fewer i, q.fewer i);
    };
    on_usleep = λ n w. record { time = omega arith; fewer = λ i. omega arith };
    on_push = λ i d w. record { time = omega arith; fewer = λ i. omega arith };
    on_pop = λ i w. record {
      time = pop-clock i w w.incoming;
      fewer = λ j. pop-left i w w.incoming refl;
    };
    on_ioctl = λ a b for_write w. record { time = omega arith; fewer = λ i. omega arith };
  };
  ticks = λ w. omega arith;
  shrinks = λ i w d e. pop-shrinks i w w.incoming d refl e;
}
