-- ===== src/ClusterQueue/Barrier/Rounds.antt =====
-- The rounds of a barrier over the nodes, until all have been heard of.
use mem_service.Base.{
  ℕ, zero, suc, ◌≤◌, ◌<◌, ◌≡◌, ◌≢◌, ◌⊎◌, refl, ap, subst, ◌∙◌, Bool, true, false, ◌||◌, Option,
  none, some, List, [], ◌∷◌, All, ltb, is_none, arith, inl, inr, Bool-cases, Option-cases,
}
use mem_service.ClusterQueue.Descs.{Desc}
use mem_service.ClusterQueue.Runtime.{Cluster, Env, now, sleep, nodes_from}
use mem_service.ClusterQueue.Ingress.Frame.{Receives, Moved}
use mem_service.ClusterQueue.Ingress.Known.{
  Follows, Known, Follows-refl, Follows-trans, Moved-Follows, Moved-Known,
}
use mem_service.ClusterQueue.Send.Delivered.{All-nodes_from}
use mem_service.ClusterQueue.Barrier.{poll_peer, set_got, RoundResult, with_hit, poll_all, collect}
use mem_service.ClusterQueue.Barrier.Polling.{Heard, Polled, Heard-later, poll_peer-Polled}

module _ {W : Type 0} (env : Env W) (R : W → W → Type 0) (P : W → ℕ → Desc → Type 0)
    (r : Receives env R P) (desc_type epoch self : ℕ) (ingress : ℕ → Bool) where
  -- The nodes that count as heard of are the node itself and those that have been.
  unfoldable pub GotOk : (ℕ → Bool) → W → Type 0
  GotOk got w = (j : ℕ) → got j ≡ true → (j ≡ self) ⊎ Heard P desc_type epoch w j

  -- What a round over some nodes leaves; `ingress` tells which have no queue.
  Round : List ℕ → (ℕ → Bool) → Cluster W → RoundResult env → Type 0
  Round peers got c none = Unit
  Round peers got c (some (all, got', c')) =
      Follows R c c'
      × Known P c'
      × GotOk got' c'.world
      × ((j : ℕ) → got j ≡ true → got' j ≡ true)
      × (all ≡ true → All (λ j. (got' j || ingress j) ≡ true) peers)

  Round-skip :
      (i : ℕ) (peers : List ℕ) (got : ℕ → Bool) (c : Cluster W) (o : RoundResult env)
      → (got i || ingress i) ≡ true
      → Round peers got c o
      → Round (i ∷ peers) got c o
  unfolding Round
  Round-skip i peers got c none skip q = tt
  Round-skip i peers got c (some (all, got', c')) skip (f, k, ok, mono, done) =
      (f, k, ok, mono, λ e. (ground (arith, mono i), done e))

  Round-hit :
      (i : ℕ) (peers : List ℕ) (got : ℕ → Bool) (hit : Bool) (c c1 : Cluster W)
      (o : RoundResult env)
      → Follows R c c1
      → Round peers (set_got env got i hit) c1 o
      → Round (i ∷ peers) got c (with_hit env hit o)
  unfolding Round
  Round-hit i peers got hit c c1 none f q = tt
  Round-hit i peers got hit c c1 (some (all, got', c')) f (f', k, ok, mono, done) = (
    Follows-trans env R P r c c1 c' f f',
    k,
    ok,
    (λ j e. mono j (ground arith)),
    λ e.
        let heard : hit ≡ true = ground arith in
        let here : set_got env got i hit i ≡ true = ground arith in
        let there = mono i here in (ground arith, done (ground arith)),
  )

  GotOk-set :
      (got : ℕ → Bool) (i : ℕ) (hit : Bool) (w w' : W)
      → R w w'
      → (hit ≡ true → (false ≡ true) ⊎ Heard P desc_type epoch w' i)
      → GotOk got w
      → GotOk (set_got env got i hit) w'
  unfolding GotOk
  GotOk-set got i hit w w' l heard ok j g =
      let old : got j ≡ true → (j ≡ self) ⊎ Heard P desc_type epoch w' j = λ e. elim (ok j e) [
        | inl own ↦ inl own
        | inr before ↦ inr (Heard-later env R P r desc_type epoch w w' j l before)
      ] in
      elim (Bool-cases (got j)) [
        | inl e ↦ old e
        | inr e ↦
            let here : i ≡ j = ground (arith, e) in
            elim (heard (ground arith)) [
              | inl never ↦ absurd (ground arith)
              | inr h ↦ inr (subst (Heard P desc_type epoch w') here h)
            ]
      ]

  poll_all-Round :
      (fuel : ℕ) (peers : List ℕ) (got : ℕ → Bool) (c : Cluster W)
      → ((j : ℕ) → is_none (c.ingress j) ≡ ingress j)
      → Known P c
      → GotOk got c.world
      → Round peers got c (poll_all env desc_type epoch fuel peers got c)
  unfolding poll_all Round Polled
  poll_all-Round fuel [] got c h k ok = (Follows-refl env R P r c, k, ok, (λ j e. e), λ _. tt)
  poll_all-Round fuel (i ∷ peers) got c h k ok = elim (Bool-cases (got i || ingress i)) [
    | inl skip ↦
        rw (h i, skip) (Round-skip i peers got c _ skip (poll_all-Round fuel peers got c h k ok))
    | inr keep ↦
        rw (h i, keep)
          (elim (Option-cases (poll_peer env desc_type epoch fuel i c)) [
            | inl nothing ↦ rw nothing tt
            | inr (t, e) ↦
                let (f, k', heard) =
                  subst (Polled env R P r desc_type epoch i false c) e
                    (poll_peer-Polled env R P r desc_type epoch fuel i c k) in
                let ok' : GotOk (set_got env got i t.0) t.1.world =
                  GotOk-set got i t.0 c.world t.1.world f.later heard ok in
                rw e (
                  Round-hit i peers got t.0 c t.1 _ f (
                    poll_all-Round fuel peers (set_got env got i t.0) t.1
                      (λ j. ap (λ q. is_none (q j)) f.ingress ∙ h j) k' ok'))
          ])
  ]

  -- What the rounds leave: with 0, every node but the own one that has a queue has been heard of.
  unfoldable pub Collected : ℕ → ℕ → Cluster W → Option (Bool × Cluster W) → Type 0
  Collected deadline n c none = Unit
  Collected deadline n c (some (true, c')) =
      Follows R c c'
      × Known P c'
      × ((i : ℕ) → i < n → i ≢ self → ingress i ≡ false → Heard P desc_type epoch c'.world i)
  Collected deadline n c (some (false, c')) = Follows R c c' × Known P c' × (deadline ≤ now env c')

  Collected-from :
      (deadline n : ℕ) (c x : Cluster W) (o : Option (Bool × Cluster W))
      → Follows R c x
      → Collected deadline n x o
      → Collected deadline n c o
  unfolding Collected
  Collected-from deadline n c x none f q = tt
  Collected-from deadline n c x (some (true, c')) f (f', k, all) =
      (Follows-trans env R P r c x c' f f', k, all)
  Collected-from deadline n c x (some (false, c')) f (f', k, late) =
      (Follows-trans env R P r c x c' f f', k, late)

  -- A round in which all were heard of ends the wait.
  Round-all :
      (deadline n : ℕ) (got : ℕ → Bool) (c : Cluster W) (t : Bool × (ℕ → Bool) × Cluster W)
      → Round (nodes_from 0 n) got c (some t)
      → t.0 ≡ true
      → Collected deadline n c (some (true, t.2))
  unfolding Round Collected GotOk
  Round-all deadline n got c (all, got', c') (f, k, ok, mono, done) e = (
    f,
    k,
    λ i below other queue.
        let here =
          All-nodes_from (λ j. (got' j || ingress j) ≡ true) 0 n i (omega arith) (omega arith)
            (done e) in
        elim (ok i (ground (arith, here, queue))) [ inl own ↦ absurd (other own) | inr h ↦ h ],
  )

  -- What the next round starts from.
  Round-next :
      (peers : List ℕ) (got : ℕ → Bool) (c : Cluster W) (t : Bool × (ℕ → Bool) × Cluster W)
      → Round peers got c (some t)
      → Follows R c (sleep env t.2) × Known P (sleep env t.2) × GotOk t.1 (sleep env t.2).world
  unfolding Round GotOk
  Round-next peers got c (all, got', c') (f, k, ok, _, _) =
      let v : Moved R c' (sleep env c') = record {
        frame = refl;
        later = r.monotone.on_usleep 1000 c'.world;
      } in
      (
        Follows-trans env R P r c c' (sleep env c') f (Moved-Follows env R P r c' (sleep env c') v),
        Moved-Known env R P r c' (sleep env c') v k,
        λ j e. elim (ok j e) [
          | inl own ↦ inl own
          | inr h ↦
              inr (Heard-later env R P r desc_type epoch c'.world (sleep env c').world j v.later h)
        ],
      )

  collect-Collected :
      (deadline fuel rounds n : ℕ) (got : ℕ → Bool) (c : Cluster W)
      → ((j : ℕ) → is_none (c.ingress j) ≡ ingress j)
      → c.node_count ≡ n
      → Known P c
      → GotOk got c.world
      → Collected deadline n c (collect env desc_type epoch deadline fuel rounds got c)
  unfolding collect Collected
  collect-Collected deadline fuel zero n got c h count k ok = tt
  collect-Collected deadline fuel (suc rounds) n got c h count k ok =
      elim (Bool-cases (ltb (now env c) deadline)) [
        | inr over ↦ rw over (Follows-refl env R P r c, k, ground arith)
        | inl soon ↦
            let o = poll_all env desc_type epoch fuel (nodes_from 0 c.node_count) got c in
            let q = poll_all-Round fuel (nodes_from 0 c.node_count) got c h k ok in
            rw soon (elim (Option-cases o) [
              | inl nothing ↦ rw nothing tt
              | inr (t, e) ↦
                  let q' = subst (Round (nodes_from 0 c.node_count) got c) e q in
                  rw e (elim (Bool-cases t.0) [
                    | inl all ↦ rw all (
                        subst (λ m. Collected deadline m c (some (true, t.2))) count
                          (Round-all deadline c.node_count got c t q' all))
                    | inr some_missing ↦
                        let (f, k', ok') = Round-next (nodes_from 0 c.node_count) got c t q' in
                        rw some_missing (
                          Collected-from deadline n c (sleep env t.2) _ f (
                            collect-Collected deadline fuel rounds n t.1 (sleep env t.2)
                              (λ j. ap (λ x. is_none (x j)) f.ingress ∙ h j) (f.node_count ∙ count)
                              k' ok'))
                  ])
            ])
      ]

  pub Collected-true :
      (deadline fuel : ℕ) (got : ℕ → Bool) (c c' : Cluster W)
      → ((j : ℕ) → is_none (c.ingress j) ≡ ingress j)
      → Known P c
      → GotOk got c.world
      → collect env desc_type epoch deadline fuel fuel got c ≡ some (true, c')
      → Collected deadline c.node_count c (some (true, c'))
  Collected-true deadline fuel got c c' h k ok e =
      subst (Collected deadline c.node_count c) e
        (collect-Collected deadline fuel fuel c.node_count got c h refl k ok)
