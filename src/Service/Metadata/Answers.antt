-- ===== src/Service/Metadata/Answers.antt =====
-- What an operation that is answered with a record says of the calls that it began with.
use mem_service.Base.{
  ◌≡◌, refl, ap, Bool, true, false, Option, none, some, if◌then◌else◌, ◌!=◌, !=_false, arith,
}
use mem_service.Service.{Record, MemService}
use mem_service.Service.Keys.{BlockCtx}
use mem_service.Service.Metadata.{Rc, done, unchanged, not_owner, failed}
use mem_service.Service.Metadata.Flows.{
  Action, ok, stop, continue, ◌>>=◌, ◌>>◌, given, require, required, check, checked, demand,
  demanded, owned_by,
}

module _ {A B : Type 0} {b : B} {t : MemService} where
  pub given-ok :
      (o : Option A) (f : A → Action B) (svc : MemService)
      → (given o >>= f) svc ≡ (ok b, t)
      → (a : A) × (o ≡ some a) × (f a svc ≡ (ok b, t))
  given-ok none f svc e = absurd (let x = ap (λ p. p.0) e in ground (arith, x))
  given-ok (some a) f svc e = (a, refl, e)

pub given-answer :
    {A : Type 0} {a : A} {t : MemService} (o : Option A) (svc : MemService)
    → given o svc ≡ (ok a, t)
    → (o ≡ some a) × (svc ≡ t)
given-answer none svc e = absurd (let x = ap (λ p. p.0) e in ground (arith, x))
given-answer (some b) svc e = (let x = ap (λ p. p.0) e in cc, ap (λ p. p.1) e)

module _ {B : Type 0} {b : B} {t : MemService} (n : Action B) where
  required-ok :
      (r : Bool × MemService)
      → continue (required r) (λ _. n) ≡ (ok b, t)
      → (s : MemService) × (r ≡ (true, s)) × (n s ≡ (ok b, t))
  required-ok (true, s) e = (s, refl, e)
  required-ok (false, s) e = absurd (let x = ap (λ p. p.0) e in ground (arith, x))

  checked-ok :
      (r : Rc × MemService)
      → continue (checked r) (λ _. n) ≡ (ok b, t)
      → (s : MemService) × (r ≡ (done, s)) × (n s ≡ (ok b, t))
  checked-ok (done, s) e = (s, refl, e)
  checked-ok (failed, s) e = absurd (let x = ap (λ p. p.0) e in ground (arith, x))
  checked-ok (unchanged, s) e = absurd (let x = ap (λ p. p.0) e in ground (arith, x))
  checked-ok (not_owner, s) e = absurd (let x = ap (λ p. p.0) e in ground (arith, x))

  demanded-ok :
      (r : Rc × MemService)
      → continue (demanded r) (λ _. n) ≡ (ok b, t)
      → (s : MemService) × (r ≡ (done, s)) × (n s ≡ (ok b, t))
  demanded-ok (done, s) e = (s, refl, e)
  demanded-ok (failed, s) e = absurd (let x = ap (λ p. p.0) e in ground (arith, x))
  demanded-ok (unchanged, s) e = absurd (let x = ap (λ p. p.0) e in ground (arith, x))
  demanded-ok (not_owner, s) e = absurd (let x = ap (λ p. p.0) e in ground (arith, x))

  passed-ok :
      (refused : Bool) (rc : Rc) (svc : MemService)
      → continue (if refused then (stop rc, svc) else (ok tt, svc)) (λ (_ : Unit {0}). n)
        ≡ (ok b, t)
      → (refused ≡ false) × (n svc ≡ (ok b, t))
  passed-ok true rc svc e = absurd (let x = ap (λ p. p.0) e in ground (arith, x))
  passed-ok false rc svc e = (refl, e)

  pub require-ok :
      (call : MemService → Bool × MemService) (svc : MemService)
      → (require call >> n) svc ≡ (ok b, t)
      → (s : MemService) × (call svc ≡ (true, s)) × (n s ≡ (ok b, t))
  require-ok call svc e = required-ok (call svc) e

  pub check-ok :
      (call : MemService → Rc × MemService) (svc : MemService)
      → (check call >> n) svc ≡ (ok b, t)
      → (s : MemService) × (call svc ≡ (done, s)) × (n s ≡ (ok b, t))
  check-ok call svc e = checked-ok (call svc) e

  pub demand-ok :
      (call : MemService → Rc × MemService) (svc : MemService)
      → (demand call >> n) svc ≡ (ok b, t)
      → (s : MemService) × (call svc ≡ (done, s)) × (n s ≡ (ok b, t))
  demand-ok call svc e = demanded-ok (call svc) e

  pub owned_by-ok :
      (ctx : BlockCtx) (current : Record) (svc : MemService)
      → (owned_by ctx current >> n) svc ≡ (ok b, t)
      → (current.placement_node ≡ ctx.placement_node) × (n svc ≡ (ok b, t))
  owned_by-ok ctx current svc e =
      let (home, e') = passed-ok (current.placement_node != ctx.placement_node) not_owner svc e in
      (!=_false current.placement_node ctx.placement_node home, e')
