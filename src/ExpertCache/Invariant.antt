-- ===== src/ExpertCache/Invariant.antt =====
-- What a touch does to the resident keys, and what holds of them throughout.
use mem_service.Base.{
  ℕ, zero, suc, ◌-◌, ◌≤◌, ◌≡◌, List, [], ◌∷◌, ◌++◌, ltb, length, length-append, length-drop, drop,
  arith, inl, inr, Bool-cases,
}
use mem_service.ExpertCache.{
  Cache, expert_key, is_resident, init, touch, preload, preload_loop, preload_one,
}
use mem_service.ExpertCache.Lru.{IsValid, lru_step, touch_key-Touched}
use mem_service.ExpertCache.Keys.{
  erase, NoTwice, find-is_resident, erase-NoTwice, erase_gone, NoTwice-append_one,
}

-- A touch answers whether the key was resident, moves the resident keys as an LRU list does, and
-- keeps the capacity.
pub touch_lru :
    (c : Cache) (layer expert : ℕ)
    → IsValid c
    → ((touch c layer expert).0 ≡ is_resident c.resident (expert_key layer expert))
      × ((touch c layer expert).1.resident
          ≡ lru_step c.capacity_slots c.resident (expert_key layer expert))
      × ((touch c layer expert).1.capacity_slots ≡ c.capacity_slots)
unfolding touch
touch_lru c layer expert v =
    touch_key-Touched c (expert_key layer expert) v
      (find-is_resident c.resident (expert_key layer expert))

NoTwice-drop : (n : ℕ) (ks : List ℕ) → NoTwice ks → NoTwice (drop n ks)
NoTwice-drop zero ks h = h
NoTwice-drop (suc n) [] h = tt
NoTwice-drop (suc n) (k ∷ ks) (_, h) = NoTwice-drop n ks h

lru_step-NoTwice :
    (capacity : ℕ) (ks : List ℕ) (key : ℕ) → NoTwice ks → NoTwice (lru_step capacity ks key)
unfolding lru_step
lru_step-NoTwice capacity ks key h =
    NoTwice-drop _ (erase key ks ++ key ∷ [])
      (NoTwice-append_one (erase key ks) key (erase-NoTwice key ks h) (erase_gone key ks h))

length-lru_step :
    (capacity : ℕ) (ks : List ℕ) (key : ℕ)
    → 1 ≤ capacity
    → length (lru_step capacity ks key) ≤ capacity
unfolding lru_step
length-lru_step capacity ks key h =
    let moved = erase key ks ++ key ∷ [] in
    omega (arith, length-drop (length moved - capacity) moved)

pub touch-IsValid : (c : Cache) (layer expert : ℕ) → IsValid c → IsValid (touch c layer expert).1
touch-IsValid c layer expert v =
    let key = expert_key layer expert in
    let (_, moved, same) = touch_lru c layer expert v in
    record {
      some_slots = rw same v.some_slots;
      cap_bounded = rw same v.cap_bounded;
      within = rw (moved, same) (length-lru_step c.capacity_slots c.resident key v.some_slots);
      no_twice = rw moved (lru_step-NoTwice c.capacity_slots c.resident key v.no_twice);
    }

pub init-IsValid : (capacity_slots expert_bytes : ℕ) → IsValid (init capacity_slots expert_bytes)
unfolding init
init-IsValid capacity_slots expert_bytes = record {
  some_slots = ground arith;
  cap_bounded = ground arith;
  within = omega arith;
  no_twice = tt;
}

preload_loop-NoTwice :
    (capacity : ℕ) (ks : List ℕ) (pairs : List (ℕ × ℕ))
    → NoTwice ks
    → length ks ≤ capacity
    → NoTwice (preload_loop capacity ks pairs)
      × (length (preload_loop capacity ks pairs) ≤ capacity)
unfolding preload_loop preload_one
preload_loop-NoTwice capacity ks [] h k = (h, k)
preload_loop-NoTwice capacity ks ((layer, expert) ∷ pairs) h k =
    elim (Bool-cases (ltb (length ks) capacity)) [
      | inr full ↦ rw full (h, k)
      | inl room ↦ rw room (elim (Bool-cases (is_resident ks (expert_key layer expert))) [
        | inl old ↦ rw old (preload_loop-NoTwice capacity ks pairs h k)
        | inr new ↦ rw new (
            preload_loop-NoTwice capacity (ks ++ expert_key layer expert ∷ []) pairs
              (NoTwice-append_one ks (expert_key layer expert) h new)
              (ground (arith, length-append ks (expert_key layer expert ∷ []))))
      ])
    ]

preload-IsValid : (c : Cache) (pairs : List (ℕ × ℕ)) → IsValid c → IsValid (preload c pairs)
unfolding preload
preload-IsValid c pairs v =
    let (no_twice, within) =
      preload_loop-NoTwice c.capacity_slots c.resident pairs v.no_twice v.within in
    record {
      some_slots = v.some_slots;
      cap_bounded = v.cap_bounded;
      within = within;
      no_twice = no_twice;
    }

-- A cache that is set up with any capacity, preloaded with any list and touched any number of times.
unfoldable pub touches : Cache → List (ℕ × ℕ) → Cache
touches c [] = c
touches c ((layer, expert) ∷ rest) = touches (touch c layer expert).1 rest

pub touches-IsValid : (c : Cache) (history : List (ℕ × ℕ)) → IsValid c → IsValid (touches c history)
unfolding touches
touches-IsValid c [] v = v
touches-IsValid c ((layer, expert) ∷ rest) v =
    touches-IsValid (touch c layer expert).1 rest (touch-IsValid c layer expert v)

-- Whatever capacity is asked for, whatever is preloaded and touched, the cache has 1 to 64 slots,
-- never holds more keys than slots, and never holds a key twice.
pub cache-IsValid :
    (capacity_slots expert_bytes : ℕ) (hotlist history : List (ℕ × ℕ))
    → IsValid (touches (preload (init capacity_slots expert_bytes) hotlist) history)
cache-IsValid capacity_slots expert_bytes hotlist history =
    touches-IsValid _ history (preload-IsValid _ hotlist (init-IsValid capacity_slots expert_bytes))
