-- ===== src/Provider/Tests/Channels.antt =====
-- The theorems of channels and regions at a channel to the provider of the tests.
use mem_service.Base.{ℕ, ◌+◌, ◌≡◌, ◌≢◌, ◌≤◌, refl, true, false, none, some}
use mem_service.Base.Text.{text_eq, c_str, snprintf_text}
use mem_service.Provider.Types.{
  Reply, Provider, Region, RegionRequest, memory_kind_valid, provider_descriptor_len,
}
use mem_service.Provider.Registry.{
  registry_find, find_slot, run_probe, registry_data_plane_ready, data_plane_loop,
}
use mem_service.Provider.Channel.{
  same_provider, deref, function_of, is_ready, with_ready, bind_provider, channel_bind,
}
use mem_service.Provider.Channel.Bound.{BoundTo, probed_only, channel_bind_lem}
use mem_service.Provider.Region.{
  register_region, call_register_region, finish_region, export_region, deregister_region,
}
use mem_service.Provider.Region.Ownership.{Held, register_region_lem, deregister_region_once}
use mem_service.Provider.Tests.{
  test_ops, test_registry, test_channel, test_binding, test_remote, test_name, test_instance,
  test_descriptor,
}

bound :
    (channel_bind test_registry (some test_name) (some test_instance) 127 0).0 ≡ some test_channel
unfolding channel_bind bind_provider registry_find find_slot text_eq c_str deref with_ready
    run_probe is_ready registry_data_plane_ready data_plane_loop
bound = refl

channel_bind_lem_example :
    BoundTo test_registry (some test_name) (some test_instance) 127 0 test_channel
channel_bind_lem_example =
    channel_bind_lem test_registry (some test_name) (some test_instance) 127 0 bound

abbrev test_request : RegionRequest
test_request = record { base = 4096; len = 64; memory_kind = 1; flags = 0 }

region_registered :
    (register_region test_registry test_channel test_request 0).0 ≡ some test_binding
unfolding register_region call_register_region finish_region with_ready deref run_probe is_ready
    function_of memory_kind_valid
region_registered = refl

register_region_lem_example :
    Held test_channel test_binding
    × (test_binding.region.handle ≢ 0)
    × (test_binding.region.len ≡ test_request.len)
    × (test_binding.region.memory_kind ≡ test_request.memory_kind)
    × (test_binding.region.descriptor.len ≤ provider_descriptor_len)
    × (test_request.len ≢ 0)
    × (memory_kind_valid test_request.memory_kind ≡ true)
register_region_lem_example =
    register_region_lem test_registry test_channel test_request 0 region_registered

abbrev release : ℕ → ℕ → ℕ → Reply (Unit {0}) ℕ
release context handle w = record { rc = 0; out = tt; world = w + 1 }

abbrev test_provider : Provider ℕ
test_provider = record {
  name = test_name;
  instance_name = test_instance;
  capabilities = 127;
  state = 1;
  ops = some test_ops;
  context = 0;
}

-- A region that is shorter than what was asked for.
abbrev short_reply : Reply Region ℕ
short_reply = record {
  rc = 0;
  out = record { handle = 7; len = 32; memory_kind = 1; descriptor = test_descriptor };
  world = 4;
}

deregistered : (deregister_region test_registry test_channel test_binding 0).0 ≡ true
unfolding deregister_region deref same_provider function_of
deregistered = refl

deregister_region_once_example :
    let dead = (deregister_region test_registry test_channel test_binding 0).1 in
    (deregister_region test_registry test_channel dead 3 ≡ (false, dead, 3))
    × (export_region test_registry test_channel dead 3
        ≡ (none, probed_only test_registry test_channel 3))
deregister_region_once_example =
    deregister_region_once test_registry test_channel test_binding 0 deregistered test_channel 3

exported : (export_region test_registry test_channel test_binding 0).0 ≡ some test_remote
unfolding export_region with_ready deref run_probe is_ready same_provider memory_kind_valid
    snprintf_text c_str
exported = refl
