-- ===== src/ExpertCache/Keys.antt =====
-- Lists of keys: membership, removal of a key, no key twice; and the packing of a key.
use mem_service.Base.{
  ℕ, suc, ◌+◌, ◌<◌, ◌≡◌, refl, sym, ◌∙◌, true, false, ◌||◌, none, some, List, [], ◌∷◌, ◌++◌, ◌==◌,
  if◌then◌else◌, length, arith, ◌⊎◌, inl, inr, Bool-cases,
}
use mem_service.ExpertCache.{expert_key, is_resident, find, remove_at}

unfoldable pub erase : ℕ → List ℕ → List ℕ
erase key [] = []
erase key (k ∷ ks) = if k == key then ks else k ∷ erase key ks

abbrev pub NoTwice : List ℕ → Type 0
NoTwice [] = Unit
NoTwice (k ∷ ks) = (is_resident ks k ≡ false) × NoTwice ks

remove_at_front : (k : ℕ) (ks : List ℕ) → remove_at (k ∷ ks) 0 ≡ ks
unfolding remove_at
remove_at_front k [] = refl
remove_at_front k (l ∷ ks) = refl

remove_at_next :
    (k i key : ℕ) (ks : List ℕ)
    → find ks key ≡ some i
    → remove_at (k ∷ ks) (suc i) ≡ k ∷ remove_at ks i
unfolding remove_at find
remove_at_next k i key [] h = absurd (ground arith)
remove_at_next k i key (l ∷ ks) h = refl

-- The code's search and removal by index, as membership and removal by key.
abbrev pub Found : List ℕ → ℕ → Type 0
Found ks key =
    ((find ks key ≡ none) × (is_resident ks key ≡ false))
    ⊎ ((i : ℕ) × (find ks key ≡ some i)
        × (is_resident ks key ≡ true)
        × (remove_at ks i ≡ erase key ks))

Found-here : (k key : ℕ) (ks : List ℕ) → (k == key) ≡ true → Found (k ∷ ks) key
unfolding find is_resident erase
Found-here k key ks e = inr (0, rw e, rw e, remove_at_front k ks ∙ sym (rw e))

Found-later : (k key : ℕ) (ks : List ℕ) → (k == key) ≡ false → Found ks key → Found (k ∷ ks) key
unfolding find is_resident erase
Found-later k key ks e (inl (f, r)) = inl (rw (e, f), rw (e, r))
Found-later k key ks e (inr (i, f, r, g)) =
    inr (suc i, rw (e, f), rw (e, r), remove_at_next k i key ks f ∙ rw (e, g))

pub find-is_resident : (ks : List ℕ) (key : ℕ) → Found ks key
find-is_resident [] key = inl (unfold find in refl, unfold is_resident in refl)
find-is_resident (k ∷ ks) key = elim (Bool-cases (k == key)) [
  | inl e ↦ Found-here k key ks e
  | inr e ↦ Found-later k key ks e (find-is_resident ks key)
]

pub is_resident-append :
    (xs ys : List ℕ) (key : ℕ)
    → is_resident (xs ++ ys) key ≡ (is_resident xs key || is_resident ys key)
unfolding is_resident
is_resident-append [] ys key = refl
is_resident-append (x ∷ xs) ys key = ground (arith, is_resident-append xs ys key)

pub erase-append_right :
    (key : ℕ) (xs ys : List ℕ)
    → is_resident xs key ≡ false
    → erase key (xs ++ ys) ≡ xs ++ erase key ys
unfolding is_resident erase
erase-append_right key [] ys h = refl
erase-append_right key (x ∷ xs) ys h = ground (arith, erase-append_right key xs ys)

pub erase_absent : (key : ℕ) (ks : List ℕ) → is_resident ks key ≡ false → erase key ks ≡ ks
unfolding is_resident erase
erase_absent key [] h = refl
erase_absent key (k ∷ ks) h = ground (arith, erase_absent key ks)

pub erase-append_left :
    (key : ℕ) (xs ys : List ℕ)
    → is_resident ys key ≡ false
    → erase key (xs ++ ys) ≡ erase key xs ++ ys
unfolding is_resident erase
erase-append_left key [] ys h = erase_absent key ys h
erase-append_left key (x ∷ xs) ys h = ground (arith, erase-append_left key xs ys h)

pub is_resident-erase :
    (key other : ℕ) (ks : List ℕ)
    → is_resident ks other ≡ false
    → is_resident (erase key ks) other ≡ false
unfolding is_resident erase
is_resident-erase key other [] h = refl
is_resident-erase key other (k ∷ ks) h = ground (arith, is_resident-erase key other ks)

pub erase_gone : (key : ℕ) (ks : List ℕ) → NoTwice ks → is_resident (erase key ks) key ≡ false
unfolding is_resident erase
erase_gone key [] h = refl
erase_gone key (k ∷ ks) (a, h) = ground (arith, erase_gone key ks h)

pub erase-NoTwice : (key : ℕ) (ks : List ℕ) → NoTwice ks → NoTwice (erase key ks)
unfolding erase
erase-NoTwice key [] h = tt
erase-NoTwice key (k ∷ ks) (a, h) =
    ground (arith, erase-NoTwice key ks h, is_resident-erase key k ks)

pub NoTwice-append_one :
    (ks : List ℕ) (key : ℕ) → NoTwice ks → is_resident ks key ≡ false → NoTwice (ks ++ key ∷ [])
unfolding is_resident
NoTwice-append_one [] key h a = (refl, tt)
NoTwice-append_one (k ∷ ks) key (c, h) a =
    (ground (arith, is_resident-append ks (key ∷ []) k), NoTwice-append_one ks key h (ground arith))

pub NoTwice-append_right : (xs ys : List ℕ) → NoTwice (xs ++ ys) → NoTwice ys
NoTwice-append_right [] ys h = h
NoTwice-append_right (x ∷ xs) ys (_, h) = NoTwice-append_right xs ys h

-- A key of the back is not one of the front.
pub NoTwice-apart :
    (xs ys : List ℕ) (key : ℕ)
    → NoTwice (xs ++ ys)
    → is_resident ys key ≡ true
    → is_resident xs key ≡ false
unfolding is_resident
NoTwice-apart [] ys key h a = refl
NoTwice-apart (x ∷ xs) ys key (c, h) a =
    ground (arith, NoTwice-apart xs ys key h a, is_resident-append xs ys x)

pub length-erase :
    (key : ℕ) (ks : List ℕ) → is_resident ks key ≡ true → length (erase key ks) + 1 ≡ length ks
unfolding is_resident erase
length-erase key [] h = absurd (ground arith)
length-erase key (k ∷ ks) h = ground (arith, length-erase key ks)

-- The packed key tells the pairs apart as long as expert ids stay below 1000.
pub expert_key-injective :
    (layer expert layer' expert' : ℕ)
    → expert < 1000
    → expert' < 1000
    → expert_key layer expert ≡ expert_key layer' expert'
    → (layer ≡ layer') × (expert ≡ expert')
unfolding expert_key
expert_key-injective layer expert layer' expert' h h' e = omega arith
