-- ===== src/Provider/Tests/Mappings.antt =====
-- The theorems of mappings at the provider of the tests, over memory that holds 1 everywhere.
use mem_service.Base.{ℕ, ◌≡◌, refl, some, true, [], ◌∷◌}
use mem_service.Base.Text.{text_eq, c_str}
use mem_service.Provider.Types.{VisibilityCompletion, memory_kind_valid}
use mem_service.Provider.Registry.{run_probe}
use mem_service.Provider.Checksum.{fnv_step, fnv_from, checksum64, read_bytes, checksum64_at}
use mem_service.Provider.Channel.{same_provider, deref, function_of, is_ready, with_ready}
use mem_service.Provider.Mapping.{
  invalidate, call_map, finish_map, map_remote_region, unmap_remote_region, call_range,
  mapping_range, publish_range,
}
use mem_service.Provider.Mapping.Visibility.{Mapped, MapCall, map_remote_region_lem}
use mem_service.Provider.Mapping.Range.{Visible, mapping_range_lem}
use mem_service.Provider.Tests.{test_registry, test_channel, test_remote, test_mapping}

abbrev ones : ℕ → ℕ → ℕ
ones w address = 1

-- The checksum of two bytes 1.
abbrev ones_checksum : ℕ
unfolding checksum64 fnv_from fnv_step
ones_checksum = checksum64 (1 ∷ 1 ∷ [])

mapped :
    (map_remote_region test_registry test_channel test_remote 32 16 0 3 0).0 ≡ some test_mapping
unfolding map_remote_region call_map finish_map with_ready deref run_probe is_ready function_of
    memory_kind_valid text_eq c_str
mapped = refl

map_remote_region_lem_example :
    Mapped test_channel test_remote 16 test_mapping
    × MapCall test_registry test_channel test_remote 32 16 0 3 0 test_mapping.mapping
        (map_remote_region test_registry test_channel test_remote 32 16 0 3 0).1
map_remote_region_lem_example =
    map_remote_region_lem test_registry test_channel test_remote 32 16 0 3 0 mapped

unmapped : (unmap_remote_region test_registry test_channel test_mapping 0).0 ≡ true
unfolding unmap_remote_region deref same_provider function_of
unmapped = refl

abbrev shown : VisibilityCompletion
shown = record { status = 0; visible_bytes = 2; checksum = ones_checksum }

invalidated :
    (mapping_range ones test_registry test_channel test_mapping 4 2 ones_checksum 0 invalidate 0).0
    ≡ some shown
unfolding mapping_range call_range with_ready deref run_probe is_ready function_of same_provider
    checksum64_at read_bytes checksum64 fnv_from fnv_step
invalidated = refl

mapping_range_lem_example :
    Visible ones test_registry test_channel test_mapping 4 2 ones_checksum 0 invalidate 0 shown
      (mapping_range ones test_registry test_channel test_mapping 4 2 ones_checksum 0 invalidate
        0).1
mapping_range_lem_example =
    mapping_range_lem ones test_registry test_channel test_mapping 4 2 ones_checksum 0 invalidate 0
      invalidated

published :
    (publish_range ones test_registry test_channel test_mapping 4 2 ones_checksum 0).0 ≡ some shown
unfolding publish_range mapping_range call_range with_ready deref run_probe is_ready function_of
    same_provider checksum64_at read_bytes checksum64 fnv_from fnv_step
published = refl
