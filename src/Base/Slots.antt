-- ===== src/Base/Slots.antt =====
-- Arrays of slots: the first slot that passes a test, a write to a slot, and how many slots pass.
use Prim.Native.Nat.{ℕ, zero, suc, ◌+◌, ◌≤◌, ◌<◌}
use mathlib.Core.Path.{◌≡◌, refl, ap}
use mathlib.Core.Logic.{◌↔◌, inl, inr}
use mathlib.Core.Bool.{Bool, true, false}
use mathlib.Core.List.{List, [], ◌∷◌}
use mathlib.Core.Option.{Option, none, some}
use mathlib.Core.Option
use native.Mathlib.Omega.{arith}
use mem_service.Base.Tests.{if◌then◌else◌, Bool-cases}
use mem_service.Base.Lists.{length, get_elem?, replicate, All}

module _ {ℓ} {A : Type ℓ} where
  -- A write out of bounds changes nothing.
  abbrev pub set : List A → ℕ → A → List A
  set [] i a = []
  set (x ∷ xs) zero a = a ∷ xs
  set (x ∷ xs) (suc i) a = x ∷ set xs i a

  pub length-set : (xs : List A) (i : ℕ) (a : A) → length (set xs i a) ≡ length xs
  length-set [] i a = refl
  length-set (x ∷ xs) zero a = refl
  length-set (x ∷ xs) (suc i) a = ap suc (length-set xs i a)

  pub get_elem?-some : (xs : List A) (i : ℕ) → i < length xs → (a : A) × (get_elem? xs i ≡ some a)
  get_elem?-some [] i h = elim h [ ]
  get_elem?-some (x ∷ xs) zero h = (x, refl)
  get_elem?-some (x ∷ xs) (suc i) h = get_elem?-some xs i (omega arith)

  pub set-set : (xs : List A) (i : ℕ) (a b : A) → set (set xs i a) i b ≡ set xs i b
  set-set [] i a b = refl
  set-set (x ∷ xs) zero a b = refl
  set-set (x ∷ xs) (suc i) a b = ap (◌∷◌ x) (set-set xs i a b)

  pub All-set {κ} :
      (P : A → Type κ) (xs : List A) (i : ℕ) (a : A) → All P xs → P a → All P (set xs i a)
  All-set P [] i a h k = tt
  All-set P (x ∷ xs) zero a (_, h) k = (k, h)
  All-set P (x ∷ xs) (suc i) a (p, h) k = (p, All-set P xs i a h k)

  abbrev pub next_slot : ℕ × A → ℕ × A
  next_slot (i, a) = (suc i, a)

  pub get_elem?-set_self :
      (xs : List A) (i : ℕ) (a : A) → i < length xs → get_elem? (set xs i a) i ≡ some a
  get_elem?-set_self [] i a h = elim h [ ]
  get_elem?-set_self (x ∷ xs) zero a h = refl
  get_elem?-set_self (x ∷ xs) (suc i) a h = get_elem?-set_self xs i a (omega arith)

  pub get_elem?-set_ne :
      (xs : List A) (i j : ℕ) (a : A) → ¬ (i ≡ j) → get_elem? (set xs i a) j ≡ get_elem? xs j
  get_elem?-set_ne [] i j a h = refl
  get_elem?-set_ne (x ∷ xs) zero zero a h = absurd (h refl)
  get_elem?-set_ne (x ∷ xs) zero (suc j) a h = refl
  get_elem?-set_ne (x ∷ xs) (suc i) zero a h = refl
  get_elem?-set_ne (x ∷ xs) (suc i) (suc j) a h = get_elem?-set_ne xs i j a (λ e. h (ap suc e))

-- `for (i = 0; i < n; ++i) if (p(&a[i])) return &a[i];`: the slot, with what it holds.
module _ {ℓ} {A : Type ℓ} (p : A → Bool) where
  unfoldable pub find_slot : List A → Option (ℕ × A)
  find_slot [] = none
  find_slot (x ∷ xs) = if p x then some (0, x) else Option.map next_slot (find_slot xs)

  unfoldable pub count : List A → ℕ
  count [] = 0
  count (x ∷ xs) = if p x then suc (count xs) else count xs

abbrev pub one_if : Bool → ℕ
one_if true = 1
one_if false = 0

module _ {ℓ} {A : Type ℓ} (p : A → Bool) where
  -- Where the search moves on, a result comes from the rest of the array.
  Option-map-next_slot :
      (o : Option (ℕ × A)) {i : ℕ} {a : A}
      → Option.map next_slot o ≡ some (i, a)
      → (j : ℕ) × (o ≡ some (j, a)) × (suc j ≡ i)
  Option-map-next_slot none e = absurd (ground arith)
  Option-map-next_slot (some (j, b)) e = (j, ground arith, ground arith)

  pub find_slot-some :
      (xs : List A) {i : ℕ} {a : A}
      → find_slot p xs ≡ some (i, a)
      → (get_elem? xs i ≡ some a) × (p a ≡ true)
  unfolding find_slot
  find_slot-some [] e = absurd (ground arith)
  find_slot-some (x ∷ xs) {i} {a} e = elim (Bool-cases (p x)) [
    | inl hit ↦
        let e' : ◌≡◌ {A = Option (ℕ × A)} (some (0, x)) (some (i, a)) = rw hit at e in
        let here : 0 ≡ i = ground arith in
        let same : x ≡ a = ground arith in (rw (← here) (ap some same), rw (← same) hit)
    | inr miss ↦
        let (j, found, at) = Option-map-next_slot (find_slot p xs) (rw miss at e) in
        let (held, passes) = find_slot-some xs found in (rw (← at) held, passes)
  ]

  -- No slot passes exactly when none is found.
  pub count-eq-zero : (xs : List A) → (count p xs ≡ 0) ↔ (find_slot p xs ≡ none)
  unfolding count find_slot
  count-eq-zero [] = (λ _. refl, λ _. refl)
  count-eq-zero (x ∷ xs) = ground (arith, count-eq-zero xs)

  pub count-le-length : (xs : List A) → count p xs ≤ length xs
  unfolding count
  count-le-length [] = omega arith
  count-le-length (x ∷ xs) = ground (arith, count-le-length xs)

  -- A write moves the count by what it removes and what it puts there.
  pub count-set :
      (xs : List A) (i : ℕ) (a b : A)
      → get_elem? xs i ≡ some a
      → count p (set xs i b) + one_if (p a) ≡ count p xs + one_if (p b)
  unfolding count
  count-set [] i a b e = absurd (ground arith)
  count-set (x ∷ xs) zero a b e = let same : x ≡ a = ground arith in rw same (ground arith)
  count-set (x ∷ xs) (suc i) a b e = ground (arith, count-set xs i a b)

  -- A write of an element that passes is found, where an earlier one was, or none was.
  pub find_slot-set_found :
      (xs : List A) {i : ℕ} {a : A} (b : A)
      → find_slot p xs ≡ some (i, a)
      → p b ≡ true
      → find_slot p (set xs i b) ≡ some (i, b)
  unfolding find_slot
  find_slot-set_found [] b e h = absurd (ground arith)
  find_slot-set_found (x ∷ xs) {i} {a} b e h = elim (Bool-cases (p x)) [
    | inl hit ↦
        let e' : ◌≡◌ {A = Option (ℕ × A)} (some (0, x)) (some (i, a)) = rw hit at e in
        let here : 0 ≡ i = ground arith in rw (← here) (rw h refl)
    | inr miss ↦
        let (j, found, at) = Option-map-next_slot (find_slot p xs) (rw miss at e) in
        rw (← at) (rw miss (ap (Option.map next_slot) (find_slot-set_found xs b found h)))
  ]

  pub find_slot-set_fresh :
      (xs : List A) (i : ℕ) (b : A)
      → find_slot p xs ≡ none
      → i < length xs
      → p b ≡ true
      → find_slot p (set xs i b) ≡ some (i, b)
  unfolding find_slot
  find_slot-set_fresh [] i b e k h = elim k [ ]
  find_slot-set_fresh (x ∷ xs) zero b e k h = rw h refl
  find_slot-set_fresh (x ∷ xs) (suc i) b e k h = ground (arith, find_slot-set_fresh xs i b)

  -- A write that takes no element that passes, and puts none, is not seen.
  pub find_slot-set_other :
      (xs : List A) (i : ℕ) (a b : A)
      → get_elem? xs i ≡ some a
      → p a ≡ false
      → p b ≡ false
      → find_slot p (set xs i b) ≡ find_slot p xs
  unfolding find_slot
  find_slot-set_other [] i a b e h k = refl
  find_slot-set_other (x ∷ xs) zero a b e h k =
      let same : x ≡ a = ground arith in rw (same, h, k) refl
  find_slot-set_other (x ∷ xs) (suc i) a b e h k = rw (find_slot-set_other xs i a b e h k) refl

  pub find_slot-replicate : (n : ℕ) (a : A) → p a ≡ false → find_slot p (replicate n a) ≡ none
  unfolding find_slot
  find_slot-replicate zero a h = refl
  find_slot-replicate (suc n) a h = rw (h, find_slot-replicate n a h) refl

-- Two tests that agree count alike and find the same slot.
module _ {ℓ} {A : Type ℓ} (p q : A → Bool) (agree : (a : A) → p a ≡ q a) where
  pub count_congr : (xs : List A) → count p xs ≡ count q xs
  unfolding count
  count_congr [] = refl
  count_congr (x ∷ xs) = ground (arith, agree x, count_congr xs)

-- Where no slot passes, none is found; where one passes, one is.
module _ {ℓ} {A : Type ℓ} (p : A → Bool) where
  pub find_slot-none :
      (xs : List A)
      → ((i : ℕ) (a : A) → get_elem? xs i ≡ some a → p a ≡ false)
      → find_slot p xs ≡ none
  unfolding find_slot
  find_slot-none [] h = refl
  find_slot-none (x ∷ xs) h = rw (h 0 x refl, find_slot-none xs (λ i a e. h (suc i) a e)) refl

  -- At most one slot passes, if any two that do are one.
  pub count-le-one :
      (xs : List A)
      → ((i j : ℕ) (a b : A)
          → get_elem? xs i ≡ some a
          → get_elem? xs j ≡ some b
          → p a ≡ true
          → p b ≡ true
          → i ≡ j)
      → count p xs ≤ 1
  unfolding count
  count-le-one [] h = omega arith
  count-le-one (x ∷ xs) h = elim (Bool-cases (p x)) [
    | inl hit ↦
        let none_left = find_slot-none xs (λ j b e. elim (Bool-cases (p b)) [
          | inl again ↦ absurd (let one = h 0 (suc j) x b refl e hit again in omega (arith, one))
          | inr not_again ↦ not_again
        ]) in
        let empty = (count-eq-zero p xs).1 none_left in rw hit (omega (arith, empty))
    | inr miss ↦ rw miss (
        count-le-one xs
          (λ i j a b e f g k. let same = h (suc i) (suc j) a b e f g k in omega (arith, same)))
  ]
