-- ===== src/ClusterQueue/Send/Delivered.antt =====
-- What is known after sending: who has the descriptor, and that the loops come to an end.
use mem_service.Base.{
  ℕ, zero, suc, ◌+◌, ◌-◌, ◌≤◌, ◌<◌, ◌^◌, ◌≡◌, ◌≢◌, refl, ap, subst, ◌∙◌, Bool, true, false, not,
  ◌||◌, Option, none, some, List, All, [], ◌∷◌, ltb, ◌==◌, if◌then◌else◌, arith, inl, inr,
  Bool-cases,
}
use mem_service.ClusterQueue.Descs.{Desc, object_put_desc}
use mem_service.ClusterQueue.Runtime.{
  Cluster, Env, PushCode, pushed, again, refused, now, sleep, with_world, nodes_from,
  cluster_wait_ms,
}
use mem_service.ClusterQueue.Ingress.Frame.{Monotone, Moved}
use mem_service.ClusterQueue.Send.{
  push, push_until, push_all, push_obmm_object_descs, is_pushed, and_then,
}

-- A predicate of a node and a descriptor that a successful push makes true, and that stays true.
pub record Sends {W : Type 0} (env : Env W) (R : W → W → Type 0) (S : W → ℕ → Desc → Type 0)
    : Type 0 where
  pub monotone : Monotone env R
  pub delivers :
      (i : ℕ) (d : Desc) (w : W) → (env.spsc_push i d w).0 ≡ pushed → S (env.spsc_push i d w).1 i d
  pub stays : (w w' : W) (i : ℕ) (d : Desc) → R w w' → S w i d → S w' i d

if_pushed :
    {A : Type 0} (Q : A → Type 0) (code : PushCode) {x y : A}
    → (code ≡ pushed → Q x)
    → Q y
    → Q (if is_pushed code then x else y)
if_pushed Q pushed p q = p refl
if_pushed Q again p q = q
if_pushed Q refused p q = q

pub All-nodes_from : (P : ℕ → Type 0) (i n j : ℕ) → i ≤ j → j < i + n → All P (nodes_from i n) → P j
All-nodes_from P i zero j h k p = absurd (omega arith)
All-nodes_from P i (suc n) j h k (p, q) = elim (Bool-cases (j == i)) [
  | inl e ↦ let same : i ≡ j = ground arith in subst P same p
  | inr e ↦ All-nodes_from P (i + 1) n j (ground arith) (omega arith) q
]

module _ {W : Type 0} (env : Env W) (R : W → W → Type 0) (S : W → ℕ → Desc → Type 0)
    (s : Sends env R S) where
  -- What a loop of pushes to one node answers.
  Pushed : (ℕ → Bool) → Cluster W → ℕ → Desc → Option (Bool × Cluster W) → Type 0
  Pushed late c peer d none = Unit
  Pushed late c peer d (some (true, c')) = Moved R c c' × S c'.world peer d
  Pushed late c peer d (some (false, c')) = Moved R c c' × (late (now env c') ≡ true)

  Moved-trans : (c c' c'' : Cluster W) → Moved R c c' → Moved R c' c'' → Moved R c c''
  Moved-trans c c' c'' v v' = record {
    frame = v'.frame ∙ ap (λ x. with_world x c''.world) v.frame;
    later = s.monotone.trans c.world c'.world c''.world v.later v'.later;
  }

  Pushed-from :
      (late : ℕ → Bool) (c c' : Cluster W) (peer : ℕ) (d : Desc) (o : Option (Bool × Cluster W))
      → Moved R c c'
      → Pushed late c' peer d o
      → Pushed late c peer d o
  unfolding Pushed
  Pushed-from late c c' peer d none v p = tt
  Pushed-from late c c' peer d (some (true, c'')) v (v', p) = (Moved-trans c c' c'' v v', p)
  Pushed-from late c c' peer d (some (false, c'')) v (v', p) = (Moved-trans c c' c'' v v', p)

  push_until-Pushed :
      (late : ℕ → Bool) (fuel : ℕ) (c : Cluster W) (peer : ℕ) (d : Desc)
      → Pushed late c peer d (push_until env late fuel c peer d)
  unfolding push_until Pushed
  push_until-Pushed late zero c peer d = tt
  push_until-Pushed late (suc fuel) c peer d =
      let t = push env c peer d in
      let moved : Moved R c t.1 = record {
        frame = refl;
        later = s.monotone.on_push peer d c.world;
      } in
      let slept : Moved R t.1 (sleep env t.1) = record {
        frame = refl;
        later = s.monotone.on_usleep 1000 t.1.world;
      } in
      let next =
        Pushed-from late c (sleep env t.1) peer d _ (Moved-trans c t.1 (sleep env t.1) moved slept)
          (push_until-Pushed late fuel (sleep env t.1) peer d) in
      if_pushed (Pushed late c peer d) t.0 (λ e. (moved, s.delivers peer d c.world e))
        (elim (Bool-cases (late (now env t.1))) [ inl e ↦ rw e (moved, e) | inr e ↦ rw e next ])

  -- What the loop over the nodes answers, given the node's own index and its queues.
  SentTo :
      (ℕ → Bool) → ℕ → (ℕ → Bool) → Cluster W → List ℕ → Desc → Option (Bool × Cluster W) → Type 0
  SentTo late self egress c peers d none = Unit
  SentTo late self egress c peers d (some (true, c')) =
      Moved R c c' × All (λ i. i ≢ self → egress i ≡ true → S c'.world i d) peers
  SentTo late self egress c peers d (some (false, c')) = Moved R c c' × (late (now env c') ≡ true)

  -- A node that is passed over is the node itself or has no queue.
  SentTo-skip :
      (late egress : ℕ → Bool) (self i : ℕ) (c : Cluster W) (peers : List ℕ) (d : Desc)
      (o : Option (Bool × Cluster W))
      → (i == self || not (egress i)) ≡ true
      → SentTo late self egress c peers d o
      → SentTo late self egress c (i ∷ peers) d o
  unfolding SentTo
  SentTo-skip late egress self i c peers d none skip p = tt
  SentTo-skip late egress self i c peers d (some (true, c')) skip (v, p) =
      (v, ((λ apart here. absurd (ground arith)), p))
  SentTo-skip late egress self i c peers d (some (false, c')) skip p = p

  SentTo-next :
      (late egress : ℕ → Bool) (self i : ℕ) (c c' : Cluster W) (peers : List ℕ) (d : Desc)
      (o : Option (Bool × Cluster W))
      → Moved R c c'
      → S c'.world i d
      → SentTo late self egress c' peers d o
      → SentTo late self egress c (i ∷ peers) d o
  unfolding SentTo
  SentTo-next late egress self i c c' peers d none v p q = tt
  SentTo-next late egress self i c c' peers d (some (true, c'')) v p (v', q) =
      (Moved-trans c c' c'' v v', ((λ apart here. s.stays c'.world c''.world i d v'.later p), q))
  SentTo-next late egress self i c c' peers d (some (false, c'')) v p (v', q) =
      (Moved-trans c c' c'' v v', q)

  SentTo-and_then :
      (late egress : ℕ → Bool) (self i : ℕ) (c : Cluster W) (peers : List ℕ) (d : Desc)
      (o : Option (Bool × Cluster W)) (rest : Cluster W → Option (Bool × Cluster W))
      → Pushed late c i d o
      → ((c' : Cluster W) → Moved R c c' → SentTo late self egress c' peers d (rest c'))
      → SentTo late self egress c (i ∷ peers) d (and_then o rest)
  unfolding SentTo Pushed
  SentTo-and_then late egress self i c peers d none rest p q = tt
  SentTo-and_then late egress self i c peers d (some (true, c')) rest (v, p) q =
      SentTo-next late egress self i c c' peers d (rest c') v p (q c' v)
  SentTo-and_then late egress self i c peers d (some (false, c')) rest p q = p

  push_all-SentTo :
      (late egress : ℕ → Bool) (self fuel : ℕ) (peers : List ℕ) (d : Desc) (c : Cluster W)
      → c.local_idx ≡ self
      → c.egress ≡ egress
      → SentTo late self egress c peers d (push_all env late fuel peers d c)
  unfolding push_all SentTo
  push_all-SentTo late egress self fuel [] d c h k =
      (record { frame = refl; later = s.monotone.same c.world }, tt)
  push_all-SentTo late egress self fuel (i ∷ peers) d c h k =
      let same : (i == c.local_idx || not (c.egress i)) ≡ (i == self || not (egress i)) =
        rw (h, k) in
      elim (Bool-cases (i == self || not (egress i))) [
        | inl skip ↦
            rw (same, skip)
              (SentTo-skip late egress self i c peers d _ skip
                (push_all-SentTo late egress self fuel peers d c h k))
        | inr keep ↦
            rw (same, keep)
              (SentTo-and_then late egress self i c peers d _ (push_all env late fuel peers d)
                (push_until-Pushed late fuel c i d)
                (λ c' v.
                  push_all-SentTo late egress self fuel peers d c'
                    (ap (λ x. x.local_idx) v.frame ∙ h) (ap (λ x. x.egress) v.frame ∙ k)))
      ]

  -- A loop over the nodes that comes through has reached each.
  pub push_all-reached :
      (late : ℕ → Bool) (fuel : ℕ) (d : Desc) (c c' : Cluster W)
      → push_all env late fuel (nodes_from 0 c.node_count) d c ≡ some (true, c')
      → Moved R c c'
        × ((i : ℕ) → i < c.node_count → i ≢ c.local_idx → c.egress i ≡ true → S c'.world i d)
  unfolding SentTo
  push_all-reached late fuel d c c' e =
      let (v, p) = subst (SentTo late c.local_idx c.egress c (nodes_from 0 c.node_count) d) e (
        push_all-SentTo late c.egress c.local_idx fuel (nodes_from 0 c.node_count) d c refl refl) in
      (
        v,
        λ i below.
            All-nodes_from (λ j. j ≢ c.local_idx → c.egress j ≡ true → S c'.world j d) 0
              c.node_count i (omega arith) (omega arith) p,
      )

  pub push_all-Moved :
      (late : ℕ → Bool) (fuel : ℕ) (d : Desc) (c c' : Cluster W) (b : Bool)
      → push_all env late fuel (nodes_from 0 c.node_count) d c ≡ some (b, c')
      → Moved R c c'
  unfolding SentTo
  push_all-Moved late fuel d c c' true e = (push_all-reached late fuel d c c' e).0
  push_all-Moved late fuel d c c' false e =
      (subst (SentTo late c.local_idx c.egress c (nodes_from 0 c.node_count) d) e (
        push_all-SentTo late c.egress c.local_idx fuel (nodes_from 0 c.node_count) d c refl refl)).0

  -- What a broadcast answers: its arguments are refused, every other node with a queue has the
  -- descriptor, or the deadline has passed.
  pub Broadcast : Cluster W → Desc → Option (Bool × Cluster W) → Type 0
  Broadcast c d none = Unit
  Broadcast c d (some (true, c')) =
      (i : ℕ) → i < c.node_count → i ≢ c.local_idx → c.egress i ≡ true → S c'.world i d
  Broadcast c d (some (false, c')) = now env c + cluster_wait_ms < now env c'

  -- With a length of 32 bits and a kind of 16, a broadcast of an object that returns 0 has handed
  -- its descriptor to every other node with a queue; one that returns -1 has run past its deadline.
  pub push_obmm_object_descs_lem :
      (fuel : ℕ) (c : Cluster W) (kind offset len checksum epoch : ℕ)
      → len < 2 ^ 32
      → kind < 2 ^ 16
      → Broadcast c
          (object_put_desc c.local_idx kind offset len checksum epoch)
          (push_obmm_object_descs env fuel c kind offset len checksum epoch)
  unfolding push_obmm_object_descs SentTo Broadcast
  push_obmm_object_descs_lem fuel c kind offset len checksum epoch h k =
      let passes : (ltb (2 ^ 32 - 1) len || ltb (2 ^ 16 - 1) kind) ≡ false = ground arith in
      let d = object_put_desc c.local_idx kind offset len checksum epoch in
      let late = ltb (now env c + cluster_wait_ms) in
      rw passes (
        told (push_all env late fuel (nodes_from 0 c.node_count) d c) d (
          push_all-SentTo late c.egress c.local_idx fuel (nodes_from 0 c.node_count) d c refl refl))
    where
      told :
          (o : Option (Bool × Cluster W)) (d : Desc)
          → SentTo
              (ltb (now env c + cluster_wait_ms))
              c.local_idx
              c.egress
              c
              (nodes_from 0 c.node_count)
              d
              o
          → Broadcast c d o
      told none d p = tt
      told (some (true, c')) d (v, p) = λ i below.
          All-nodes_from (λ j. j ≢ c.local_idx → c.egress j ≡ true → S c'.world j d) 0 c.node_count
            i (omega arith) (omega arith) p
      told (some (false, c')) d (v, p) = ground arith
