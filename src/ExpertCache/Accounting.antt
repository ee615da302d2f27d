-- ===== src/ExpertCache/Accounting.antt =====
-- The statistics of the cache, and the latency that they are turned into.
use native.Mathlib.Nat.{mul-le-mul_right}
use mem_service.Base.{
  ℕ, zero, suc, ◌+◌, ◌*◌, ◌%◌, ◌^◌, ◌<◌, ◌≤◌, ◌≡◌, refl, sym, ap, ◌∙◌, List, [], ◌∷◌, subst, max,
  length, length-append, arith, inl, inr, Option, none, some,
}
use mem_service.ExpertCache.{
  Cache, expert_key, find, remove_at, touch, touch_key, touch_hit, count_miss, evict, insert, init,
  fill_latency, snapshot, compute_us,
}
use mem_service.ExpertCache.Keys.{find-is_resident, length-erase}
use mem_service.ExpertCache.Lru.{IsValid}
use mem_service.ExpertCache.Invariant.{touch-IsValid, touches, init-IsValid}

-- The counters agree with each other and with the number of touches so far.
pub record Balanced (c : Cache) (touched : ℕ) : Type 0 where
  pub every_touch : c.stats.hits + c.stats.misses ≡ touched
  pub read : c.stats.pread_bytes ≡ c.stats.misses * c.expert_bytes
  pub kept_or_evicted : length c.resident + c.stats.evictions ≡ c.stats.misses

length-remove_at : (ks : List ℕ) (i : ℕ) → 1 ≤ length ks → length (remove_at ks i) + 1 ≡ length ks
unfolding remove_at
length-remove_at [] i h = absurd (omega arith)
length-remove_at (k ∷ []) i h = omega arith
length-remove_at (k ∷ l ∷ ks) zero h = omega arith
length-remove_at (k ∷ l ∷ ks) (suc i) h = omega (arith, length-remove_at (l ∷ ks) i (omega arith))

hit-Balanced :
    (c : Cache) (key i n : ℕ)
    → n + 1 < 2 ^ 64
    → 1 ≤ length c.resident
    → Balanced c n
    → Balanced (touch_hit c key i) (n + 1)
unfolding touch_hit
hit-Balanced c key i n h some_key b = record {
  every_touch = omega (arith, b.every_touch);
  read = b.read;
  kept_or_evicted = omega (
    arith,
    b.kept_or_evicted,
    length-append (remove_at c.resident i) (key ∷ []),
    length-remove_at c.resident i some_key,
  );
}

-- A miss counts one miss and the bytes of one expert; hits stay.
miss_counts :
    (c : Cache) (key : ℕ)
    → ((insert (evict (count_miss c)) key).stats.hits ≡ c.stats.hits)
      × ((insert (evict (count_miss c)) key).stats.misses ≡ (c.stats.misses + 1) % 2 ^ 64)
      × ((insert (evict (count_miss c)) key).stats.pread_bytes
          ≡ (c.stats.pread_bytes + c.expert_bytes) % 2 ^ 64)
      × ((insert (evict (count_miss c)) key).expert_bytes ≡ c.expert_bytes)
unfolding insert evict count_miss
miss_counts c key = ground arith

-- It keeps one key more, or evicts one more.
miss_keeps :
    (c : Cache) (key : ℕ)
    → IsValid c
    → c.stats.evictions + 1 < 2 ^ 64
    → length (insert (evict (count_miss c)) key).resident
        + (insert (evict (count_miss c)) key).stats.evictions
      ≡ length c.resident + c.stats.evictions + 1
unfolding insert evict count_miss
miss_keeps c key v h = ground (
  arith,
  v.within,
  v.some_slots,
  length-remove_at c.resident 0,
  length-append c.resident (key ∷ []),
  length-append (remove_at c.resident 0) (key ∷ []),
)

miss-Balanced :
    (c : Cache) (key n : ℕ)
    → IsValid c
    → n + 1 < 2 ^ 64
    → (n + 1) * c.expert_bytes < 2 ^ 64
    → Balanced c n
    → Balanced (insert (evict (count_miss c)) key) (n + 1)
miss-Balanced c key n v h k b =
    let (hits, misses, bytes, same) = miss_counts c key in
    let one_more : c.stats.misses + 1 ≤ n + 1 = omega (arith, b.every_touch) in
    record {
      every_touch = omega (arith, b.every_touch, hits, misses);
      read =
          let e : (c.stats.misses + 1) * c.expert_bytes
              ≡ c.stats.misses * c.expert_bytes + c.expert_bytes =
            omega arith in
          let bound = mul-le-mul_right c.expert_bytes one_more in
          let counted : (c.stats.misses + 1) % 2 ^ 64 ≡ c.stats.misses + 1 = omega arith in
          bytes ∙ sym (rw (misses, same, counted) (omega (arith, b.read, e, bound)));
      kept_or_evicted = omega (
        arith,
        b.every_touch,
        b.kept_or_evicted,
        misses,
        miss_keeps c key v (omega (arith, b.kept_or_evicted, b.every_touch)),
      );
    }

touch_key-Balanced :
    (c : Cache) (key n : ℕ)
    → IsValid c
    → n + 1 < 2 ^ 64
    → (n + 1) * c.expert_bytes < 2 ^ 64
    → Balanced c n
    → Balanced (touch_key c key (find c.resident key)).1 (n + 1)
      × ((touch_key c key (find c.resident key)).1.expert_bytes ≡ c.expert_bytes)
unfolding touch_key touch_hit
touch_key-Balanced c key n v h k b = elim (find-is_resident c.resident key) [
  | inl (f, r) ↦ rw f (miss-Balanced c key n v h k b, (miss_counts c key).3)
  | inr (i, f, r, g) ↦
      let some_key : 1 ≤ length c.resident = omega (arith, length-erase key c.resident r) in
      rw f (hit-Balanced c key i n h some_key b, refl)
]

touches-Balanced :
    (history : List (ℕ × ℕ)) (c : Cache) (n : ℕ)
    → IsValid c
    → n + length history < 2 ^ 64
    → (n + length history) * c.expert_bytes < 2 ^ 64
    → Balanced c n
    → Balanced (touches c history) (n + length history)
unfolding touches touch
touches-Balanced [] c n v h k b = let e : n ≡ n + 0 = omega arith in subst (Balanced c) e b
touches-Balanced ((layer, expert) ∷ rest) c n v h k b =
    let key = expert_key layer expert in
    let e : n + 1 + length rest ≡ n + suc (length rest) = omega arith in
    let less : n + 1 ≤ n + suc (length rest) = omega arith in
    let bound = mul-le-mul_right c.expert_bytes less in
    let (b', same) = touch_key-Balanced c key n v (omega arith) (omega arith) b in
    subst (Balanced _) e (
      touches-Balanced rest (touch_key c key (find c.resident key)).1 (n + 1)
        (touch-IsValid c layer expert v) (omega arith) (rw (same, e) k) b')

touch_key-expert_bytes :
    (c : Cache) (key : ℕ) (o : Option ℕ) → (touch_key c key o).1.expert_bytes ≡ c.expert_bytes
unfolding touch_key touch_hit
touch_key-expert_bytes c key (some i) = refl
touch_key-expert_bytes c key none = (miss_counts c key).3

touches-expert_bytes :
    (history : List (ℕ × ℕ)) (c : Cache) → (touches c history).expert_bytes ≡ c.expert_bytes
unfolding touches touch
touches-expert_bytes [] c = refl
touches-expert_bytes ((layer, expert) ∷ rest) c =
    touches-expert_bytes rest (touch c layer expert).1
    ∙ touch_key-expert_bytes c (expert_key layer expert) (find c.resident (expert_key layer expert))

-- After a history of fewer than 2 ^ 63 touches on a fresh cache, whose experts together have fewer
-- than 2 ^ 63 bytes, the snapshot's hits and misses sum to the number of touches, every miss has read
-- one expert, every missed key is resident or was evicted, the compute time is 2 us a touch, and the
-- estimated latency is the larger of the compute time and the load time.
pub snapshot-Balanced :
    (capacity_slots expert_bytes : ℕ) (history : List (ℕ × ℕ))
    → length history < 2 ^ 63
    → length history * expert_bytes < 2 ^ 63
    → let c = touches (init capacity_slots expert_bytes) history in
      ((snapshot c).hits + (snapshot c).misses ≡ length history)
      × ((snapshot c).pread_bytes ≡ (snapshot c).misses * expert_bytes)
      × (length c.resident + (snapshot c).evictions ≡ (snapshot c).misses)
      × ((snapshot c).compute_time_us ≡ length history * compute_us)
      × ((snapshot c).estimated_latency_us
          ≡ max ((snapshot c).compute_time_us) ((snapshot c).miss_load_time_us))
unfolding snapshot fill_latency
snapshot-Balanced capacity_slots expert_bytes history h k =
    let b =
      touches-Balanced history (init capacity_slots expert_bytes) 0
        (init-IsValid capacity_slots expert_bytes) (omega arith) (unfold init in omega arith)
        fresh in
    let same = touches-expert_bytes history (init capacity_slots expert_bytes) in
    (
      omega (arith, b.every_touch),
      b.read
          ∙ ap (λ e. (touches (init capacity_slots expert_bytes) history).stats.misses * e)
              (same ∙ (unfold init in refl)),
      b.kept_or_evicted,
      ground (arith, b.every_touch),
      ground arith,
    )
  where
    fresh : Balanced (init capacity_slots expert_bytes) 0
    fresh = unfold init in record { every_touch = refl; read = omega arith; kept_or_evicted = refl }
