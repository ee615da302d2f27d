-- ===== src/ExpertCache.antt =====
-- components/mem_service/mem_service_expert_cache.h and mem_service_expert_cache.c: the cache of
-- expert weight tiles that a node keeps, as keys and statistics. Counters are `uint64_t` and wrap;
-- layer and expert ids are `uint32_t`.
pub mod Keys
pub mod Lru
pub mod Invariant
pub mod Recency
pub mod Accounting
mod Tests
use mem_service.Base.{
  ℕ, zero, suc, ◌+◌, ◌-◌, ◌*◌, ◌/◌, ◌%◌, ◌^◌, Bool, true, false, ◌&&◌, ◌||◌, Option, none, some,
  List, [], ◌∷◌, ◌++◌, ltb, leb, ◌==◌, if◌then◌else◌, length,
}
use mathlib.Core.Option

abbrev pub default_slots : ℕ
default_slots = 64

abbrev pub compute_us : ℕ
compute_us = 2

abbrev pub load_bytes : ℕ
load_bytes = 4096

pub record Stats : Type 0 where
  pub hits : ℕ
  pub misses : ℕ
  pub evictions : ℕ
  pub pread_bytes : ℕ
  pub compute_time_us : ℕ
  pub miss_load_time_us : ℕ
  pub estimated_latency_us : ℕ
  pub compute_us_per_touch : ℕ
  pub load_bytes_per_us : ℕ

abbrev pub zero_stats : Stats
zero_stats = record {
  hits = 0;
  misses = 0;
  evictions = 0;
  pread_bytes = 0;
  compute_time_us = 0;
  miss_load_time_us = 0;
  estimated_latency_us = 0;
  compute_us_per_touch = 0;
  load_bytes_per_us = 0;
}

-- `resident` is the part of the array in use, least recently used first; `resident_count` is its
-- length.
pub record Cache : Type 0 where
  pub capacity_slots : ℕ
  pub expert_bytes : ℕ
  pub resident : List ℕ
  pub stats : Stats

-- `layer * 1000 + expert` of two `uint32_t` does not reach 2 ^ 64.
unfoldable pub expert_key : ℕ → ℕ → ℕ
expert_key layer_id expert_id = layer_id * 1000 + expert_id

unfoldable pub clamp_slots : ℕ → ℕ
clamp_slots capacity_slots =
    if ltb default_slots capacity_slots
    then default_slots
    else if capacity_slots == 0
    then default_slots
    else capacity_slots

unfoldable pub init : ℕ → ℕ → Cache
unfolding clamp_slots
init capacity_slots expert_bytes = record {
  capacity_slots = clamp_slots capacity_slots;
  expert_bytes = expert_bytes;
  resident = [];
  stats = zero_stats;
}

unfoldable pub is_resident : List ℕ → ℕ → Bool
is_resident [] key = false
is_resident (k ∷ ks) key = k == key || is_resident ks key

-- One round of the preload, for a pair that the loop reaches.
unfoldable pub preload_one : List ℕ → ℕ → List ℕ
preload_one resident key = if is_resident resident key then resident else resident ++ key ∷ []

-- The loop ends at the first pair that finds the cache full.
unfoldable pub preload_loop : ℕ → List ℕ → List (ℕ × ℕ) → List ℕ
preload_loop capacity resident [] = resident
preload_loop capacity resident ((layer_id, expert_id) ∷ pairs) =
    let rest = preload_loop capacity (preload_one resident (expert_key layer_id expert_id)) pairs in
    if ltb (length resident) capacity then rest else resident

unfoldable pub preload : Cache → List (ℕ × ℕ) → Cache
preload cache pairs = record cache {
  resident = preload_loop cache.capacity_slots cache.resident pairs;
}

-- The index of the key, if it is resident.
unfoldable pub find : List ℕ → ℕ → Option ℕ
find [] key = none
find (k ∷ ks) key = if k == key then some 0 else Option.map suc (find ks key)

-- Later entries move down by one; an index out of range drops the last entry.
unfoldable pub remove_at : List ℕ → ℕ → List ℕ
remove_at [] index = []
remove_at (k ∷ []) index = []
remove_at (k ∷ l ∷ ks) zero = l ∷ ks
remove_at (k ∷ l ∷ ks) (suc index) = k ∷ remove_at (l ∷ ks) index

abbrev pub bump : ℕ → ℕ
bump counter = (counter + 1) % 2 ^ 64

unfoldable pub touch_hit : Cache → ℕ → ℕ → Cache
touch_hit cache key index = record cache {
  resident = remove_at cache.resident index ++ key ∷ [];
  stats = record (cache.stats) { hits = bump cache.stats.hits };
}

-- The miss is counted, then the front gives way if the cache is full.
abbrev pub is_full : Cache → Bool
is_full cache = leb cache.capacity_slots (length cache.resident) && ltb 0 (length cache.resident)

unfoldable pub count_miss : Cache → Cache
count_miss cache = record cache {
  stats = record (cache.stats) {
    misses = bump cache.stats.misses;
    pread_bytes = (cache.stats.pread_bytes + cache.expert_bytes) % 2 ^ 64;
  };
}

unfoldable pub evict : Cache → Cache
evict cache =
    if is_full cache
    then record cache {
      resident = remove_at cache.resident 0;
      stats = record (cache.stats) { evictions = bump cache.stats.evictions };
    }
    else cache

unfoldable pub insert : Cache → ℕ → Cache
insert cache key =
    if ltb (length cache.resident) cache.capacity_slots
    then record cache { resident = cache.resident ++ key ∷ [] }
    else cache

unfoldable pub touch_key : Cache → ℕ → Option ℕ → Bool × Cache
touch_key cache key (some index) = (true, touch_hit cache key index)
touch_key cache key none = (false, insert (evict (count_miss cache)) key)

unfoldable pub touch : Cache → ℕ → ℕ → Bool × Cache
touch cache layer_id expert_id =
    touch_key cache (expert_key layer_id expert_id)
      (find cache.resident (expert_key layer_id expert_id))

unfoldable pub ceil_div : ℕ → ℕ → ℕ
ceil_div value divisor =
    if value == 0 || divisor == 0 then 0 else (value + divisor - 1) % 2 ^ 64 / divisor

unfoldable pub fill_latency : Stats → Stats
fill_latency stats =
    let touch_count = (stats.hits + stats.misses) % 2 ^ 64 in
    let compute_time = touch_count * compute_us % 2 ^ 64 in
    let miss_load_time = ceil_div stats.pread_bytes load_bytes in
    record stats {
      compute_us_per_touch = compute_us;
      load_bytes_per_us = load_bytes;
      compute_time_us = compute_time;
      miss_load_time_us = miss_load_time;
      estimated_latency_us =
          if ltb miss_load_time compute_time then compute_time else miss_load_time;
    }

unfoldable pub snapshot : Cache → Stats
snapshot cache = fill_latency cache.stats
