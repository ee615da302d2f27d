-- ===== src/Base/Tests.antt =====
-- Boolean tests on the native numbers, the conditional, and guards of several conditions.
use Prim.Native.Nat.{ℕ, ◌≤◌, compare, Ordering}
use mathlib.Core.Path.{◌≡◌, refl}
use mathlib.Core.Logic.{◌↔◌, ◌⊎◌, inl, inr}
use mathlib.Core.Bool.{Bool, true, false, not, ◌&&◌, ◌||◌}
use mathlib.Core.Option.{Option, none, some}
use mathlib.Core.List.{List, [], ◌∷◌}
use native.Mathlib.Omega.{arith}

abbrev pub ltb : ℕ → ℕ → Bool
ltb a b = elim (compare a b) [ Ordering.lt ↦ true | _ ↦ false ]

abbrev pub leb : ℕ → ℕ → Bool
leb a b = elim (compare a b) [ Ordering.gt ↦ false | _ ↦ true ]

infix 50 ◌==◌
abbrev pub ◌==◌ : ℕ → ℕ → Bool
a == b = elim (compare a b) [ Ordering.eq ↦ true | _ ↦ false ]

infix 50 ◌!=◌
abbrev pub ◌!=◌ : ℕ → ℕ → Bool
a != b = not (a == b)

infix 1 if◌then◌else◌
abbrev pub if◌then◌else◌ {ℓ} : {A : Type ℓ} → Bool → A → A → A
if true then x else y = x
if false then x else y = y

pub ==_iff : (a b : ℕ) → ((a == b) ≡ true) ↔ (a ≡ b)
==_iff a b = ground arith

pub !=_false : (a b : ℕ) → (a != b) ≡ false → a ≡ b
!=_false a b h = ground arith

pub ==_false : (a b : ℕ) → (a == b) ≡ false → ¬ (a ≡ b)
==_false a b h = ground arith

pub ltb-false : (a b : ℕ) → ltb a b ≡ false → b ≤ a
ltb-false a b h = ground arith

-- To split on a computed value and keep the equation.
pub Bool-cases : (b : Bool) → (b ≡ true) ⊎ (b ≡ false)
Bool-cases true = inl refl
Bool-cases false = inr refl

pub Option-cases {ℓ} : {A : Type ℓ} (o : Option A) → (o ≡ none) ⊎ ((a : A) × (o ≡ some a))
Option-cases none = inl refl
Option-cases (some a) = inr (a, refl)

-- `if (c1 || c2 || …) return -1;` with the conditions as a list.
abbrev pub any_of : List Bool → Bool
any_of [] = false
any_of (c ∷ cs) = c || any_of cs

abbrev pub AllFalse : List Bool → Type 0
AllFalse [] = Unit
AllFalse (c ∷ cs) = (c ≡ false) × AllFalse cs

-- A guard that lets the call through has every condition false.
pub any_of-AllFalse : (cs : List Bool) → any_of cs ≡ false → AllFalse cs
any_of-AllFalse [] h = tt
any_of-AllFalse (true ∷ cs) h = absurd (ground arith)
any_of-AllFalse (false ∷ cs) h = (refl, any_of-AllFalse cs h)

pub AllFalse-any_of : (cs : List Bool) → AllFalse cs → any_of cs ≡ false
AllFalse-any_of [] h = refl
AllFalse-any_of (true ∷ cs) (h, _) = absurd (ground arith)
AllFalse-any_of (false ∷ cs) (_, h) = AllFalse-any_of cs h

abbrev pub is_none {ℓ} : {A : Type ℓ} → Option A → Bool
is_none none = true
is_none (some a) = false

abbrev pub is_some {ℓ} : {A : Type ℓ} → Option A → Bool
is_some none = false
is_some (some a) = true

pub is_none-false {ℓ} : {A : Type ℓ} (o : Option A) → is_none o ≡ false → (a : A) × (o ≡ some a)
is_none-false none h = absurd (ground arith)
is_none-false (some a) h = (a, refl)

pub is_some-false {ℓ} : {A : Type ℓ} (o : Option A) → is_some o ≡ false → o ≡ none
is_some-false none h = refl
is_some-false (some a) h = absurd (ground arith)

-- A call behind a guard that returned has passed the guard.
pub guard-some {ℓ} :
    {A : Type ℓ} {a : A} (refused : Bool) (call : Option A)
    → (if refused then none else call) ≡ some a
    → (refused ≡ false) × (call ≡ some a)
guard-some true call h = absurd (ground arith)
guard-some false call h = (refl, h)

pub test-some {ℓ} :
    {A : Type ℓ} {a : A} (passed : Bool) (call : Option A)
    → (if passed then call else none) ≡ some a
    → (passed ≡ true) × (call ≡ some a)
test-some true call h = (refl, h)
test-some false call h = absurd (ground arith)

-- `return c1 && c2 && …;` with the tests as a list.
abbrev pub all_of : List Bool → Bool
all_of [] = true
all_of (c ∷ cs) = c && all_of cs

abbrev pub AllTrue : List Bool → Type 0
AllTrue [] = Unit
AllTrue (c ∷ cs) = (c ≡ true) × AllTrue cs

pub all_of-AllTrue : (cs : List Bool) → all_of cs ≡ true → AllTrue cs
all_of-AllTrue [] h = tt
all_of-AllTrue (true ∷ cs) h = (refl, all_of-AllTrue cs h)
all_of-AllTrue (false ∷ cs) h = absurd (ground arith)

pub AllTrue-all_of : (cs : List Bool) → AllTrue cs → all_of cs ≡ true
AllTrue-all_of [] h = refl
AllTrue-all_of (true ∷ cs) (_, h) = AllTrue-all_of cs h
AllTrue-all_of (false ∷ cs) (h, _) = absurd (ground arith)

-- What holds of both branches holds of the conditional.
pub if_both {ℓ κ} :
    {A : Type ℓ} (Q : A → Type κ) (b : Bool) {x y : A} → Q x → Q y → Q (if b then x else y)
if_both Q true p q = p
if_both Q false p q = q
