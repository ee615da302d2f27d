-- ===== src/Service/Metadata/Evolves.antt =====
-- How a service moves under an action: by records that are put one at a time, each of which stands
-- in a relation R to what its key held.
use mem_service.Base.{
  ◌≡◌, refl, sym, subst, inl, inr, Bool, true, false, Option, none, some, Option-cases, if_both,
  ◌!=◌,
}
use mem_service.Base.Text.{Text}
use mem_service.Service.{Record, MemService}
use mem_service.Service.Keys.{BlockCtx}
use mem_service.Service.Records.{get_record}
use mem_service.Service.Records.Valid.{IsValid, RecordValid, Puts}
use mem_service.Service.Metadata.{Rc, failed, done, unchanged, not_owner}
use mem_service.Service.Metadata.Flows.{
  Action, Reply, ok, stop, continue, ◌>>=◌, given, fetch, require, required, check, code_reply,
  demand, strict_reply, owned_by,
}
use mem_service.Service.Metadata.Puts.{PutResult, UpdateResult, found-RecordValid, get_record-some}

pub data Evolves (R : Option Record → Record → Type 0) (svc : MemService)
    : MemService → Type 0 where
  here : Evolves R svc svc
  put :
      {t u : MemService} (key : Text) (b : Record)
      → Evolves R svc t
      → Puts t key b u
      → RecordValid b
      → R (get_record t key) b
      → Evolves R svc u

module _ {R : Option Record → Record → Type 0} where
  pub Evolves-trans : {s t u : MemService} → Evolves R s t → Evolves R t u → Evolves R s u
  Evolves-trans e here = e
  Evolves-trans e (put key b e' p good r) = put key b (Evolves-trans e e') p good r

  pub Evolves-IsValid : {s t : MemService} → Evolves R s t → IsValid s → IsValid t
  Evolves-IsValid here v = v
  Evolves-IsValid (put key b e p good r) v = p.kept (Evolves-IsValid e v) good

abbrev pub Post : {A : Type 0} → (A → Type 0) → Reply A → Type 0
Post Q (ok a) = Q a
Post Q (stop rc) = Unit

-- From a valid service the action moves by R, and what it answers satisfies Q.
pub record Runs (R : Option Record → Record → Type 0) {A : Type 0} (Q : A → Type 0) (m : Action A)
    : Type 0 where
  pub at : (svc : MemService) → IsValid svc → Evolves R svc (m svc).1 × Post Q (m svc).0

module _ {R : Option Record → Record → Type 0} {A B : Type 0} {Q : A → Type 0}
    {S : B → Type 0} where
  pub continue-Runs :
      (r : Reply A × MemService) (svc : MemService) (f : A → Action B)
      → IsValid svc
      → Evolves R svc r.1 × Post Q r.0
      → ((a : A) → Q a → Runs R S (f a))
      → Evolves R svc (continue r f).1 × Post S (continue r f).0
  continue-Runs (ok a, t) svc f v (e, q) kf =
      let (e', s) = (kf a q).at t (Evolves-IsValid e v) in (Evolves-trans e e', s)
  continue-Runs (stop rc, t) svc f v (e, _) kf = (e, tt)

  pub Runs-bind :
      (m : Action A) (f : A → Action B)
      → Runs R Q m
      → ((a : A) → Q a → Runs R S (f a))
      → Runs R S (m >>= f)
  Runs-bind m f km kf = record { at = λ svc v. continue-Runs (m svc) svc f v (km.at svc v) kf }

pub get_record-RecordValid :
    (svc : MemService) (key : Text) {r : Record}
    → IsValid svc
    → get_record svc key ≡ some r
    → RecordValid r
get_record-RecordValid svc key v e = (found-RecordValid svc key v (get_record-some svc key e).1).0

pub any_code : (rc : Rc) → Post {A = Unit {0}} (λ _. Unit {0}) (code_reply rc)
any_code done = tt
any_code failed = tt
any_code unchanged = tt
any_code not_owner = tt

any_strict : (rc : Rc) → Post {A = Unit {0}} (λ _. Unit {0}) (strict_reply rc)
any_strict done = tt
any_strict failed = tt
any_strict unchanged = tt
any_strict not_owner = tt

module _ {R : Option Record → Record → Type 0} where
  -- What is known of the value that is given holds after it.
  pub Runs-given :
      {A : Type 0} {Q : A → Type 0} (o : Option A)
      → ((a : A) → o ≡ some a → Q a)
      → Runs R Q (given o)
  Runs-given none h = record { at = λ svc v. (here, tt) }
  Runs-given (some a) h = record { at = λ svc v. (here, h a refl) }

  pub Runs-fetch : (key : Text) → Runs R RecordValid (fetch key)
  Runs-fetch key = record {
    at = λ svc v. (
      here,
      elim (Option-cases (get_record svc key)) [
        | inl missing ↦ rw missing tt
        | inr (r, found) ↦ rw found (get_record-RecordValid svc key v found)
      ],
    );
  }

  put_moves :
      (key : Text) (P : Record → Type 0) (svc : MemService) (r : Bool × MemService)
      → PutResult svc key P r
      → ((b : Record) → P b → RecordValid b × R (get_record svc key) b)
      → Evolves R svc (required r).1 × Post {A = Unit {0}} (λ _. Unit {0}) (required r).0
  unfolding PutResult
  put_moves key P svc (true, t) (b, p, h) good = let (v, r) = good b h in (put key b here p v r, tt)
  put_moves key P svc (false, t) e good = (subst (Evolves R svc) (sym e) here, tt)

  pub Runs-require :
      (key : Text) (P : MemService → Record → Type 0) (call : MemService → Bool × MemService)
      → ((svc : MemService) → IsValid svc → PutResult svc key (P svc) (call svc))
      → ((svc : MemService) (b : Record) → P svc b → RecordValid b × R (get_record svc key) b)
      → Runs R (λ _. Unit {0}) (require call)
  Runs-require key P call puts good = record {
    at = λ svc v. put_moves key (P svc) svc (call svc) (puts svc v) (good svc);
  }

  pub update_moves :
      (key : Text) (P : Record → Type 0) (svc : MemService) (r : Rc × MemService)
      → UpdateResult svc key P r
      → ((b : Record) → P b → RecordValid b × R (get_record svc key) b)
      → Evolves R svc r.1
  unfolding UpdateResult
  update_moves key P svc (done, t) (b, p, h) good = let (v, r) = good b h in put key b here p v r
  update_moves key P svc (failed, t) e good = subst (Evolves R svc) (sym e) here
  update_moves key P svc (unchanged, t) e good = subst (Evolves R svc) (sym e) here
  update_moves key P svc (not_owner, t) e good = subst (Evolves R svc) (sym e) here

  module _ (key : Text) (P : MemService → Record → Type 0) (call : MemService → Rc × MemService)
      (updates : (svc : MemService) → IsValid svc → UpdateResult svc key (P svc) (call svc))
      (good : (svc : MemService) (b : Record)
        → P svc b
        → RecordValid b × R (get_record svc key) b) where
    pub Runs-check : Runs R (λ _. Unit {0}) (check call)
    Runs-check = record {
      at = λ svc v. (
        update_moves key (P svc) svc (call svc) (updates svc v) (good svc),
        any_code (call svc).0,
      );
    }

    pub Runs-demand : Runs R (λ _. Unit {0}) (demand call)
    Runs-demand = record {
      at = λ svc v. (
        update_moves key (P svc) svc (call svc) (updates svc v) (good svc),
        any_strict (call svc).0,
      );
    }

  pub Runs-owned_by :
      (ctx : BlockCtx) (current : Record) → Runs R (λ _. Unit {0}) (owned_by ctx current)
  Runs-owned_by ctx current = record {
    at = λ svc v.
        if_both
          (λ (r : Reply (Unit {0}) × MemService). Evolves R svc r.1 × Post (λ _. Unit {0}) r.0)
          (current.placement_node != ctx.placement_node) (here, tt) (here, tt);
  }

  pub Runs-answer : {Q : Record → Type 0} (r : Record) → Q r → Runs R Q (λ svc. (ok r, svc))
  Runs-answer r q = record { at = λ svc v. (here, q) }
