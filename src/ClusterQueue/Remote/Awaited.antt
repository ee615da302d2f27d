-- ===== src/ClusterQueue/Remote/Awaited.antt =====
-- A wait for the objects of a node that returns 0 has seen them all.
use mem_service.Base.{
  ℕ, zero, suc, ◌+◌, ◌≡◌, refl, subst, ◌∙◌, Bool, true, false, Option, none, some, List, [], ◌∷◌,
  All, ltb, leb, if◌then◌else◌, is_none, arith, if_both, inl, inr, Bool-cases, Option-cases,
}
use mem_service.ClusterQueue.Descs.{
  Desc, ObjectRecord, kind_weight_tile, kind_kvcache_block, kind_hidden_range_input,
  kind_hidden_range_output,
}
use mem_service.ClusterQueue.Runtime.{Cluster, Env, now, sleep, obmm_service_wait_ms}
use mem_service.ClusterQueue.Ingress.Frame.{Receives, Moved}
use mem_service.ClusterQueue.Ingress.Known.{Known}
use mem_service.ClusterQueue.Remote.{
  Wanted, all_seen, take_all, drain_objects, wait_objects, wanted, wait_remote_obmm_object_descs,
}
use mem_service.ClusterQueue.Remote.Seen.{Arrived, Sound, objects, Kept, take_all-Kept}
use mem_service.ClusterQueue.Remote.Drained.{
  Drained, Drained-from, drain_objects-Drained, Moved-Kept,
}

module _ {W : Type 0} (env : Env W) (R : W → W → Type 0) (P : W → ℕ → Desc → Type 0)
    (r : Receives env R P) (epoch i : ℕ) where
  -- What the wait answers for a list of objects.
  unfoldable pub Awaited : List (ObjectRecord × ℕ) → Option (Bool × Cluster W) → Type 0
  Awaited objs none = Unit
  Awaited objs (some (true, c')) = Known P c' × All (λ o. Arrived P epoch c'.world i o.0 o.1) objs
  Awaited objs (some (false, c')) = Known P c'

  all_seen-Arrived :
      (w : W) (wants : List Wanted)
      → All (Sound env R P r epoch i w) wants
      → all_seen wants ≡ true
      → All (λ o. Arrived P epoch w i o.0 o.1) (objects env R P r epoch i wants)
  unfolding all_seen
  all_seen-Arrived w [] s e = tt
  all_seen-Arrived w (want ∷ wants) (s, ss) e =
      (s (ground arith), all_seen-Arrived w wants ss (ground arith))

  wait_objects-Awaited :
      (deadline fuel rounds : ℕ) (wants : List Wanted) (c : Cluster W)
      (objs : List (ObjectRecord × ℕ))
      → objects env R P r epoch i wants ≡ objs
      → Known P c
      → All (Sound env R P r epoch i c.world) wants
      → Awaited objs (wait_objects env i epoch deadline fuel rounds wants c)
  unfolding wait_objects Awaited Drained
  wait_objects-Awaited deadline fuel zero wants c objs h k s = tt
  wait_objects-Awaited deadline fuel (suc rounds) wants c objs h k s =
      let t = take_all i epoch wants c in
      let a = take_all-Kept env R P r epoch i wants c k s in
      let o = drain_objects env i epoch fuel false t.0 t.1 in
      let q =
        Drained-from env R P r epoch i c t.1 wants t.0 o a
          (drain_objects-Drained env R P r epoch i fuel false t.0 t.1 a.known a.sound) in
      elim (Bool-cases (ltb (now env c) deadline)) [
        | inr over ↦ rw over k
        | inl soon ↦ rw soon (elim (Option-cases o) [
          | inl spent ↦ rw spent tt
          | inr (u, e) ↦ rw e (
              round u (subst (Drained env R P r epoch i c wants) e q)
                (λ ws x. wait_objects-Awaited deadline fuel rounds ws x objs))
        ])
      ]
    where
      round :
          (u : Bool × List Wanted × Cluster W)
          → Kept env R P r epoch i c wants u.1 u.2
          → ((ws : List Wanted) (x : Cluster W)
              → objects env R P r epoch i ws ≡ objs
              → Known P x
              → All (Sound env R P r epoch i x.world) ws
              → Awaited objs (wait_objects env i epoch deadline fuel rounds ws x))
          → Awaited objs (
              if all_seen u.1
              then some (true, u.2)
              else wait_objects env i epoch deadline fuel rounds u.1
                  (if u.0 then u.2 else sleep env u.2))
      round u b next = elim (Bool-cases (all_seen u.1)) [
        | inl all ↦ rw all (
          b.known,
          subst (All (λ o. Arrived P epoch u.2.world i o.0 o.1)) (b.same_objects ∙ h)
              (all_seen-Arrived u.2.world u.1 b.sound all),
        )
        | inr missing ↦
            let asleep : Moved R u.2 (sleep env u.2) = record {
              frame = refl;
              later = r.monotone.on_usleep 1000 u.2.world;
            } in
            let z = Moved-Kept env R P r epoch i u.2 (sleep env u.2) u.1 asleep b.known b.sound in
            rw missing (
              if_both
                (λ (x : Cluster W).
                  Awaited objs (wait_objects env i epoch deadline fuel rounds u.1 x))
                u.0 (next u.1 u.2 (b.same_objects ∙ h) b.known b.sound)
                (next u.1 (sleep env u.2) (b.same_objects ∙ h) z.known z.sound))
      ]

module _ {W : Type 0} (env : Env W) (R : W → W → Type 0) (P : W → ℕ → Desc → Type 0)
    (r : Receives env R P) where
  -- Where the lists of pending descriptors hold at most 16 each, all of them arrived, a wait for the
  -- objects of a node that returns 0 has got a descriptor of that node and epoch for each of the four
  -- records, under its kind; the lists are still so.
  pub wait_remote_obmm_object_descs_lem :
      (fuel : ℕ) (c c' : Cluster W) (owner epoch : ℕ)
      (weight kvcache hidden_input hidden_output : ObjectRecord)
      → Known P c
      → wait_remote_obmm_object_descs env fuel c owner epoch weight kvcache hidden_input
          hidden_output
        ≡ some (true, c')
      → Known P c'
        × Arrived P epoch c'.world owner weight kind_weight_tile
        × Arrived P epoch c'.world owner kvcache kind_kvcache_block
        × Arrived P epoch c'.world owner hidden_input kind_hidden_range_input
        × Arrived P epoch c'.world owner hidden_output kind_hidden_range_output
  unfolding wait_remote_obmm_object_descs Awaited
  wait_remote_obmm_object_descs_lem fuel c c' owner epoch weight kvcache hidden_input hidden_output
        k e =
      let wants =
        wanted env weight kind_weight_tile
        ∷ wanted env kvcache kind_kvcache_block
        ∷ wanted env hidden_input kind_hidden_range_input
        ∷ wanted env hidden_output kind_hidden_range_output
        ∷ [] in
      let unseen : All (Sound env R P r epoch owner c.world) wants = (
        (λ x. absurd (ground arith)),
        (
          (λ x. absurd (ground arith)),
          ((λ x. absurd (ground arith)), ((λ x. absurd (ground arith)), tt)),
        ),
      ) in
      let q =
        wait_objects-Awaited env R P r epoch owner (now env c + obmm_service_wait_ms) fuel fuel
          wants c (objects env R P r epoch owner wants) refl k unseen in
      elim (Bool-cases (leb c.node_count owner)) [
        | inl outside ↦
            absurd (let e' : some (false, c) ≡ some (true, c') = rw outside at e in ground arith)
        | inr inside ↦ elim (Bool-cases (is_none (c.ingress owner))) [
          | inl missing ↦ absurd (
              let e' : some (false, c) ≡ some (true, c') = rw (inside, missing) at e in
              ground arith)
          | inr queue ↦
              let e' = rw (inside, queue) at e in
              let w =
                subst (Awaited env R P r epoch owner (objects env R P r epoch owner wants)) e' q in
              (w.0, w.1.0, w.1.1.0, w.1.1.1.0, w.1.1.1.1.0)
        ]
      ]
