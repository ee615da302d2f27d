-- ===== src/ClusterQueue/Remote/Seen.antt =====
-- What a wait for the objects of a node that returns 0 has seen.
use mem_service.Base.{
  ℕ, ◌≡◌, refl, ap, ◌∙◌, true, false, Option, none, some, List, [], ◌∷◌, All, all_of-AllTrue,
  AllTrue-all_of, is_some, arith, if_both, inl, inr, Bool-cases,
}
use mem_service.ClusterQueue.Descs.{
  Desc, ObjectRecord, pending_object_desc_tests, pending_object_desc_matches,
}
use mem_service.ClusterQueue.Runtime.{Cluster, Env}
use mem_service.ClusterQueue.Pending.{take_pending, take_pending_object_record_desc}
use mem_service.ClusterQueue.Ingress.Frame.{Receives}
use mem_service.ClusterQueue.Ingress.Known.{
  Known, TakenKnown, take_pending-TakenKnown, take_pending-Follows,
}
use mem_service.ClusterQueue.Remote.{
  Wanted, object_tests, names_object, see_all, other_desc, take_wanted, take_all,
}

-- A descriptor of the object, under the kind and of the epoch, has come from the node.
pub record Arrived {W : Type 0} (P : W → ℕ → Desc → Type 0) (epoch : ℕ) (w : W) (i : ℕ)
    (r : ObjectRecord) (kind : ℕ) : Type 0 where
  pub desc : Desc
  pub arrived : P w i desc
  pub matches : pending_object_desc_matches epoch r kind desc ≡ true

-- The tests of type and epoch and then of the object are the test of a pending descriptor.
names_object-matches :
    (epoch : ℕ) (want : Wanted) (d : Desc)
    → other_desc epoch d ≡ false
    → names_object want d ≡ true
    → pending_object_desc_matches epoch want.object want.kind d ≡ true
unfolding names_object pending_object_desc_matches
names_object-matches epoch want d same named =
    let c = all_of-AllTrue (object_tests want.object want.kind d) named in
    AllTrue-all_of (pending_object_desc_tests epoch want.object want.kind d)
      (ground (arith, same), (ground (arith, same), c))

module _ {W : Type 0} (env : Env W) (R : W → W → Type 0) (P : W → ℕ → Desc → Type 0)
    (r : Receives env R P) (epoch i : ℕ) where
  -- A flag that is set has its reason.
  abbrev pub Sound : W → Wanted → Type 0
  Sound w want = want.saw ≡ true → Arrived P epoch w i want.object want.kind

  pub Sound-later :
      (w w' : W) (wants : List Wanted) → R w w' → All (Sound w) wants → All (Sound w') wants
  Sound-later w w' [] l s = tt
  Sound-later w w' (want ∷ wants) l (s, ss) = (
    λ e.
        let a = s e in
        record { desc = a.desc; arrived = r.stays w w' i a.desc l a.arrived; matches = a.matches },
    Sound-later w w' wants l ss,
  )

  pub see_all-Sound :
      (w : W) (d : Desc) (wants : List Wanted)
      → P w i d
      → other_desc epoch d ≡ false
      → All (Sound w) wants
      → All (Sound w) (see_all d wants)
  unfolding see_all
  see_all-Sound w d [] p same s = tt
  see_all-Sound w d (want ∷ wants) p same (s, ss) = (
    λ e. elim (Bool-cases (names_object want d)) [
      | inl named ↦ record {
        desc = d;
        arrived = p;
        matches = names_object-matches epoch want d same named;
      }
      | inr not_named ↦ s (ground (arith, not_named))
    ],
    see_all-Sound w d wants p same ss,
  )

  -- The objects that the list is about.
  abbrev pub objects : List Wanted → List (ObjectRecord × ℕ)
  objects [] = []
  objects (want ∷ wants) = (want.object, want.kind) ∷ objects wants

  pub objects-see_all : (d : Desc) (wants : List Wanted) → objects (see_all d wants) ≡ objects wants
  unfolding see_all
  objects-see_all d [] = refl
  objects-see_all d (want ∷ wants) = ap (◌∷◌ (want.object, want.kind)) (objects-see_all d wants)

  -- What a step leaves: everything known, the flags with their reasons, the objects as they were.
  pub record Kept (c : Cluster W) (wants : List Wanted) (wants' : List Wanted) (c' : Cluster W)
      : Type 0 where
    pub known : Known P c'
    pub sound : All (Sound c'.world) wants'
    pub later : R c.world c'.world
    pub same_objects : objects wants' ≡ objects wants

  take_wanted-Kept :
      (want : Wanted) (c : Cluster W)
      → Known P c
      → Sound c.world want
      → Kept c (want ∷ []) ((take_wanted i epoch want c).0 ∷ []) (take_wanted i epoch want c).1
  unfolding take_wanted take_pending_object_record_desc TakenKnown
  take_wanted-Kept want c k s =
      let matches = pending_object_desc_matches epoch want.object want.kind in
      let f = take_pending-Follows env R P r matches c i in
      if_both (λ (t : Wanted × Cluster W). Kept c (want ∷ []) (t.0 ∷ []) t.1) want.saw
        (record {
          known = k;
          sound = (s, tt);
          later = r.monotone.same c.world;
          same_objects = refl;
        })
        (took (take_pending matches c i) f.later (take_pending-TakenKnown env R P r matches c i k))
    where
      took :
          (t : Option Desc × Cluster W)
          → R c.world t.1.world
          → TakenKnown env R P r (pending_object_desc_matches epoch want.object want.kind) i t
          → Kept c (want ∷ []) (record want { saw = is_some t.0 } ∷ []) t.1
      took (none, c') l q = record {
        known = q;
        sound = ((λ e. absurd (ground arith)), tt);
        later = l;
        same_objects = refl;
      }
      took (some d, c') l (q, p, e) = record {
        known = q;
        sound = ((λ _. record { desc = d; arrived = p; matches = e }), tt);
        later = l;
        same_objects = refl;
      }

  pub Kept-trans :
      (c c1 c2 : Cluster W) (wants wants1 wants2 : List Wanted)
      → Kept c wants wants1 c1
      → Kept c1 wants1 wants2 c2
      → Kept c wants wants2 c2
  Kept-trans c c1 c2 wants wants1 wants2 a b = record {
    known = b.known;
    sound = b.sound;
    later = r.monotone.trans c.world c1.world c2.world a.later b.later;
    same_objects = b.same_objects ∙ a.same_objects;
  }

  pub take_all-Kept :
      (wants : List Wanted) (c : Cluster W)
      → Known P c
      → All (Sound c.world) wants
      → Kept c wants (take_all i epoch wants c).0 (take_all i epoch wants c).1
  unfolding take_all
  take_all-Kept [] c k s = record {
    known = k;
    sound = tt;
    later = r.monotone.same c.world;
    same_objects = refl;
  }
  take_all-Kept (want ∷ wants) c k (s, ss) =
      let t = take_wanted i epoch want c in
      let a = take_wanted-Kept want c k s in
      let b = take_all-Kept wants t.1 a.known (Sound-later c.world t.1.world wants a.later ss) in
      let u = take_all i epoch wants t.1 in
      record {
        known = b.known;
        sound = ((Sound-later t.1.world u.1.world (t.0 ∷ []) b.later a.sound).0, b.sound);
        later = r.monotone.trans c.world t.1.world u.1.world a.later b.later;
        same_objects = same_cons t.0 want u.0 wants a.same_objects b.same_objects;
      }
    where
      same_cons :
          (v w : Wanted) (vs ws : List Wanted)
          → objects (v ∷ []) ≡ objects (w ∷ [])
          → objects vs ≡ objects ws
          → objects (v ∷ vs) ≡ objects (w ∷ ws)
      same_cons v w vs ws e e' =
          let x : ObjectRecord × ℕ = (v.object, v.kind) in
          let y : ObjectRecord × ℕ = (w.object, w.kind) in
          let first : x ≡ y = cc e in rw (first, e')
