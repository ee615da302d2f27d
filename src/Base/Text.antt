-- ===== src/Base/Text.antt =====
-- C strings. A character array and the memory behind a `const char *` are lists of bytes; the text
-- ends before the first NUL. `snprintf` and `strcmp` are those of the C library.
use Prim.Native.Char.{code}
use Prim.Native.String.{String}
use Prim.Native.Nat.{ℕ, zero, suc, ◌-◌, ◌≤◌, ◌<◌}
use mathlib.Core.Path.{◌≡◌, refl}
use mathlib.Core.Logic.{◌↔◌, ◌≢◌}
use mathlib.Core.Bool.{Bool, true, false, ◌&&◌}
use mathlib.Core.List.{List, [], ◌∷◌, ◌++◌}
use native.Mathlib.Omega.{arith}
use mem_service.Base.Tests.{◌==◌, if◌then◌else◌}
use mem_service.Base.Lists.{length, take, replicate, All, take_all, length-take-le}

abbrev pub Text : Type 0
Text = List ℕ

-- A literal of the source, which is ASCII.
abbrev pub codes : String → Text
codes String.[] = []
codes (String.◌∷◌ c s) = code c ∷ codes s

-- The characters before the first NUL: what `strlen` counts.
unfoldable pub c_str : Text → Text
c_str [] = []
c_str (c ∷ cs) = if c == 0 then [] else c ∷ c_str cs

abbrev pub strlen : Text → ℕ
strlen s = length (c_str s)

unfoldable pub text_eq : Text → Text → Bool
text_eq [] [] = true
text_eq [] (d ∷ ds) = false
text_eq (c ∷ cs) [] = false
text_eq (c ∷ cs) (d ∷ ds) = c == d && text_eq cs ds

-- `strcmp(a, b) == 0`
abbrev pub strcmp_eq : Text → Text → Bool
strcmp_eq a b = text_eq (c_str a) (c_str b)

-- `memset` of an array of `n` bytes, then the bytes `s` at its front.
abbrev pub padded : ℕ → Text → Text
padded n s = s ++ replicate (n - length s) 0

-- `snprintf(out, n, "%s", s)` into an array of `n` zeroed bytes.
unfoldable pub snprintf_text : ℕ → Text → Text
snprintf_text n s = padded n (take (n - 1) (c_str s))

abbrev pub NoNul : Text → Type 0
NoNul = All (λ c. c ≢ 0)

pub text_eq_refl : (a : Text) → text_eq a a ≡ true
unfolding text_eq
text_eq_refl [] = refl
text_eq_refl (c ∷ cs) = ground (arith, text_eq_refl cs)

pub text_eq→eq : (a b : Text) → text_eq a b ≡ true → a ≡ b
unfolding text_eq
text_eq→eq [] [] h = refl
text_eq→eq [] (d ∷ ds) h = absurd (ground arith)
text_eq→eq (c ∷ cs) [] h = absurd (ground arith)
text_eq→eq (c ∷ cs) (d ∷ ds) h = ground (arith, text_eq→eq cs ds)

pub text_eq_iff : (a b : Text) → (text_eq a b ≡ true) ↔ (a ≡ b)
text_eq_iff a b = (text_eq→eq a b, λ e. rw e (text_eq_refl b))

pub c_str-NoNul : (s : Text) → NoNul (c_str s)
unfolding c_str
c_str-NoNul [] = tt
c_str-NoNul (c ∷ cs) = ground (arith, c_str-NoNul cs)

-- A text without NUL in front of zeroes is read back whole.
pub c_str-append_zeroes : (s : Text) (n : ℕ) → NoNul s → c_str (s ++ replicate n 0) ≡ s
unfolding c_str
c_str-append_zeroes [] zero h = refl
c_str-append_zeroes [] (suc n) h = refl
c_str-append_zeroes (c ∷ cs) n h = ground (arith, c_str-append_zeroes cs n h.1)

-- A text that fits its array is stored whole.
pub c_str-snprintf_text : (n : ℕ) (s : Text) → strlen s < n → c_str (snprintf_text n s) ≡ c_str s
unfolding snprintf_text
c_str-snprintf_text n s h =
    rw (take_all (n - 1) (c_str s) (omega arith)) (c_str-append_zeroes (c_str s) _ (c_str-NoNul s))

-- `strncmp(a, b, n) == 0`
abbrev pub strncmp_eq : ℕ → Text → Text → Bool
strncmp_eq n a b = text_eq (take n (c_str a)) (take n (c_str b))

pub strncmp_eq_iff :
    (n : ℕ) (a b : Text) → (strncmp_eq n a b ≡ true) ↔ (take n (c_str a) ≡ take n (c_str b))
strncmp_eq_iff n a b = text_eq_iff _ _

pub NoNul-take : (n : ℕ) (s : Text) → NoNul s → NoNul (take n s)
NoNul-take zero s h = tt
NoNul-take (suc n) [] h = tt
NoNul-take (suc n) (c ∷ cs) (p, h) = (p, NoNul-take n cs h)

-- What is stored is the text, cut to what the array holds beside the NUL.
pub c_str-snprintf_text_cut :
    (n : ℕ) (s : Text) → c_str (snprintf_text n s) ≡ take (n - 1) (c_str s)
unfolding snprintf_text
c_str-snprintf_text_cut n s =
    c_str-append_zeroes (take (n - 1) (c_str s)) _ (NoNul-take (n - 1) (c_str s) (c_str-NoNul s))

-- A copy of an array into one of the same size is the same text.
pub c_str-snprintf_text_copy :
    (n : ℕ) (s : Text)
    → 1 ≤ n
    → c_str (snprintf_text n (snprintf_text n s)) ≡ c_str (snprintf_text n s)
c_str-snprintf_text_copy n s h =
    c_str-snprintf_text n (snprintf_text n s)
      (rw c_str-snprintf_text_cut (omega (arith, length-take-le (n - 1) (c_str s))))
