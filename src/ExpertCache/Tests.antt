-- ===== src/ExpertCache/Tests.antt =====
-- The theorems of the cache at small caches and histories.
use mem_service.Base.{ℕ, ◌+◌, ◌*◌, ◌≡◌, max, refl, true, List, [], ◌∷◌, length, arith}
use mem_service.ExpertCache.{
  expert_key, is_resident, init, clamp_slots, preload, touch, find, touch_key, touch_hit,
  count_miss, evict, insert, remove_at, snapshot, compute_us,
}
use mem_service.ExpertCache.Lru.{IsValid}
use mem_service.ExpertCache.Invariant.{touches, cache-IsValid}
use mem_service.ExpertCache.Recency.{recency, last_of, touches-recency}
use mem_service.ExpertCache.Accounting.{snapshot-Balanced}

-- Two slots are not enough for three experts.
abbrev test_history : List (ℕ × ℕ)
test_history = (0, 1) ∷ (0, 2) ∷ (0, 1) ∷ (0, 3) ∷ []

cache-IsValid_example : IsValid (touches (preload (init 2 512) ((0, 7) ∷ [])) test_history)
cache-IsValid_example = cache-IsValid 2 512 ((0, 7) ∷ []) test_history

touches-recency_example :
    (touches (init 2 512) test_history).resident ≡ last_of (clamp_slots 2) (recency test_history)
touches-recency_example = touches-recency 2 512 test_history

still_resident : is_resident (touches (init 2 512) test_history).resident 1 ≡ true
unfolding touches touch touch_key touch_hit count_miss evict insert find remove_at expert_key
    is_resident init clamp_slots
still_resident = refl

snapshot-Balanced_example :
    let c = touches (init 2 512) test_history in
    ((snapshot c).hits + (snapshot c).misses ≡ length test_history)
    × ((snapshot c).pread_bytes ≡ (snapshot c).misses * 512)
    × (length c.resident + (snapshot c).evictions ≡ (snapshot c).misses)
    × ((snapshot c).compute_time_us ≡ length test_history * compute_us)
    × ((snapshot c).estimated_latency_us
        ≡ max ((snapshot c).compute_time_us) ((snapshot c).miss_load_time_us))
snapshot-Balanced_example = snapshot-Balanced 2 512 test_history (omega arith) (omega arith)
