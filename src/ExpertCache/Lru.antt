-- ===== src/ExpertCache/Lru.antt =====
-- A touch of the code against the textbook step of an LRU list.
use mem_service.Base.{
  ℕ, zero, suc, ◌-◌, ◌≤◌, ◌≡◌, refl, sym, ap, ◌∙◌, Bool, true, false, List, [], ◌∷◌, ◌++◌, leb,
  if◌then◌else◌, length, length-append, drop, arith, inl, inr, Bool-cases,
}
use mem_service.ExpertCache.{
  Cache, is_resident, find, remove_at, default_slots, touch_key, touch_hit, count_miss, evict,
  insert,
}
use mem_service.ExpertCache.Keys.{erase, NoTwice, Found, erase_absent, length-erase}

pub record IsValid (c : Cache) : Type 0 where
  pub some_slots : 1 ≤ c.capacity_slots
  pub cap_bounded : c.capacity_slots ≤ default_slots
  pub within : length c.resident ≤ c.capacity_slots
  pub no_twice : NoTwice c.resident

-- Least recently used, as a specification on lists: the key goes to the back, and what is over the
-- capacity falls off the front.
unfoldable pub lru_step : ℕ → List ℕ → ℕ → List ℕ
lru_step capacity ks key =
    let moved = erase key ks ++ key ∷ [] in drop (length moved - capacity) moved

pub remove_at_first : (ks : List ℕ) → remove_at ks 0 ≡ drop 1 ks
unfolding remove_at
remove_at_first [] = refl
remove_at_first (k ∷ []) = refl
remove_at_first (k ∷ l ∷ ks) = refl

pub length-drop_one : (ks : List ℕ) → length (drop 1 ks) ≡ length ks - 1
length-drop_one [] = omega arith
length-drop_one (k ∷ ks) = omega arith

-- A miss on a cache with a slot at least: the front goes if the cache is full.
miss-resident :
    (c : Cache) (key : ℕ)
    → 1 ≤ c.capacity_slots
    → length c.resident ≤ c.capacity_slots
    → (insert (evict (count_miss c)) key).resident
      ≡ (if leb c.capacity_slots (length c.resident) then drop 1 c.resident else c.resident)
        ++ key ∷ []
unfolding insert evict count_miss
miss-resident c key h k = ground (arith, remove_at_first c.resident, length-drop_one c.resident)

pub lru_step_hit :
    (capacity : ℕ) (ks : List ℕ) (key : ℕ)
    → length ks ≤ capacity
    → is_resident ks key ≡ true
    → lru_step capacity ks key ≡ erase key ks ++ key ∷ []
unfolding lru_step
lru_step_hit capacity ks key h r =
    let none_over : length (erase key ks ++ key ∷ []) - capacity ≡ 0 =
      omega (arith, length-append (erase key ks) (key ∷ []), length-erase key ks r) in
    rw none_over

drop-append_one :
    (n : ℕ) (ks : List ℕ) (key : ℕ)
    → n ≤ length ks
    → drop n (ks ++ key ∷ []) ≡ drop n ks ++ key ∷ []
drop-append_one zero ks key h = refl
drop-append_one (suc n) [] key h = absurd (omega arith)
drop-append_one (suc n) (k ∷ ks) key h = drop-append_one n ks key (omega arith)

pub lru_step_miss :
    (capacity : ℕ) (ks : List ℕ) (key : ℕ)
    → 1 ≤ capacity
    → length ks ≤ capacity
    → is_resident ks key ≡ false
    → lru_step capacity ks key ≡ (if leb capacity (length ks) then drop 1 ks else ks) ++ key ∷ []
unfolding lru_step
lru_step_miss capacity ks key some_slots h r =
    rw (erase_absent key ks r) (elim (Bool-cases (leb capacity (length ks))) [
      | inl full ↦
          let over : length (ks ++ key ∷ []) - capacity ≡ 1 =
            ground (arith, length-append ks (key ∷ [])) in
          rw (over, full) (drop-append_one 1 ks key (ground arith))
      | inr room ↦
          let over : length (ks ++ key ∷ []) - capacity ≡ 0 =
            ground (arith, length-append ks (key ∷ [])) in
          rw (over, room)
    ])

miss-capacity_slots :
    (c : Cache) (key : ℕ) → (insert (evict (count_miss c)) key).capacity_slots ≡ c.capacity_slots
unfolding insert evict count_miss
miss-capacity_slots c key = ground arith

-- What a touch of a key answers and leaves.
abbrev pub Touched : Cache → ℕ → Bool × Cache → Type 0
Touched c key t =
    (t.0 ≡ is_resident c.resident key)
    × (t.1.resident ≡ lru_step c.capacity_slots c.resident key)
    × (t.1.capacity_slots ≡ c.capacity_slots)

pub touch_key-Touched :
    (c : Cache) (key : ℕ)
    → IsValid c
    → Found c.resident key
    → Touched c key (touch_key c key (find c.resident key))
unfolding touch_key touch_hit
touch_key-Touched c key v (inl (f, r)) = rw f (
  sym r,
  miss-resident c key v.some_slots v.within
      ∙ sym (lru_step_miss c.capacity_slots c.resident key v.some_slots v.within r),
  miss-capacity_slots c key,
)
touch_key-Touched c key v (inr (i, f, r, g)) = rw f (
  sym r,
  ap (λ ks. ks ++ key ∷ []) g ∙ sym (lru_step_hit c.capacity_slots c.resident key v.within r),
  refl,
)
