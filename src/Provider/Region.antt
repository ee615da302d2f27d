-- ===== src/Provider/Region.antt =====
-- The regions of components/mem_service/mem_service_provider.c: registration with the provider,
-- export to peers, deregistration.
pub mod Ownership
use mem_service.Base.{
  ℕ, Bool, true, false, not, ◌&&◌, ◌||◌, Option, none, some, List, [], ◌∷◌, ltb, ◌==◌, ◌!=◌,
  if◌then◌else◌, any_of, replicate,
}
use mem_service.Base.Text.{snprintf_text}
use mem_service.Provider.Types.{
  Reply, Provider, Registry, Channel, RegionRequest, Region, RegionBinding, RemoteRegion, has_bits,
  has_bits_outside, memory_kind_valid, provider_descriptor_len, provider_name_len,
}
use mem_service.Provider.Cap
use mem_service.Provider.Channel.{with_ready, deref, function_of, same_provider, hand_back}

abbrev pub region_provider_allocated : ℕ
region_provider_allocated = 1

abbrev pub export_conditions : Channel → RegionBinding → List Bool
export_conditions channel binding =
    not binding.registered
    ∷ not (same_provider binding.owner channel.provider)
    ∷ (binding.region.len == 0)
    ∷ not (memory_kind_valid binding.region.memory_kind)
    ∷ (binding.region.descriptor.len == 0)
    ∷ ltb provider_descriptor_len binding.region.descriptor.len
    ∷ []

-- `memset(binding, 0, sizeof(*binding))`
abbrev pub empty_region_binding : RegionBinding
empty_region_binding = record {
  region = record {
    handle = 0;
    len = 0;
    memory_kind = 0;
    descriptor = record { len = 0; bytes = replicate provider_descriptor_len 0 };
  };
  owner = none;
  registered = false;
}

module _ {W : Type 0} where
  abbrev pub register_region_conditions : Provider W → RegionRequest → List Bool
  register_region_conditions p request =
      (request.len == 0)
      ∷ not (memory_kind_valid request.memory_kind)
      ∷ not (has_bits p.capabilities Cap.region_registration)
      ∷ (request.base == 0
          && (not (has_bits request.flags region_provider_allocated)
              || not (has_bits p.capabilities Cap.peer_mapping)))
      ∷ (request.base != 0 && has_bits request.flags region_provider_allocated)
      ∷ has_bits_outside request.flags region_provider_allocated
      ∷ []

  -- The region that the provider wrote is not the one that was asked for.
  abbrev pub region_conditions : RegionRequest → Reply Region W → List Bool
  region_conditions request reply =
      (reply.rc != 0)
      ∷ (reply.out.handle == 0)
      ∷ (reply.out.len != request.len)
      ∷ (reply.out.memory_kind != request.memory_kind)
      ∷ ltb provider_descriptor_len reply.out.descriptor.len
      ∷ []

  unfoldable pub finish_region :
      Provider W → Channel → RegionRequest → Reply Region W → Option RegionBinding × W
  finish_region p channel request reply =
      if any_of (region_conditions request reply)
      then (
        none,
        hand_back p reply.out.handle (function_of p.ops (λ o. o.deregister_region)) reply.world,
      )
      else (
        some (record { region = reply.out; owner = channel.provider; registered = true }),
        reply.world,
      )

  unfoldable pub call_register_region :
      Provider W
      → Channel
      → RegionRequest
      → Option (ℕ → RegionRequest → W → Reply Region W)
      → W
      → Option RegionBinding × W
  unfolding finish_region
  call_register_region p channel request none w = (none, w)
  call_register_region p channel request (some f) w =
      if any_of (register_region_conditions p request)
      then (none, w)
      else finish_region p channel request (f p.context request w)

  unfoldable pub register_region :
      Registry W → Channel → RegionRequest → W → Option RegionBinding × W
  register_region reg channel request w =
      with_ready reg channel w λ p w'.
        call_register_region p channel request (function_of p.ops (λ o. o.register_region)) w'

  unfoldable pub export_region : Registry W → Channel → RegionBinding → W → Option RemoteRegion × W
  export_region reg channel binding w = with_ready reg channel w λ p w'.
      if any_of (export_conditions channel binding) then (none, w') else (
        some (record {
          provider_name = snprintf_text provider_name_len p.name;
          len = binding.region.len;
          memory_kind = binding.region.memory_kind;
          descriptor = binding.region.descriptor;
        }),
        w',
      )

  call_deregister :
      Provider W
      → RegionBinding
      → Option (ℕ → ℕ → W → Reply (Unit {0}) W)
      → W
      → Bool × RegionBinding × W
  call_deregister p binding none w = (false, binding, w)
  call_deregister p binding (some f) w =
      let reply = f p.context binding.region.handle w in
      if reply.rc != 0
      then (false, binding, reply.world)
      else (true, empty_region_binding, reply.world)

  -- `true` is the return code 0. The channel is not probed.
  unfoldable pub deregister_region :
      Registry W → Channel → RegionBinding → W → Bool × RegionBinding × W
  unfolding call_deregister
  deregister_region reg channel binding w = elim (deref reg channel.provider) [
    | none ↦ (false, binding, w)
    | some p ↦
        if not binding.registered || not (same_provider binding.owner channel.provider)
        then (false, binding, w)
        else call_deregister p binding (function_of p.ops (λ o. o.deregister_region)) w
  ]
