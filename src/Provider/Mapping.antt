-- ===== src/Provider/Mapping.antt =====
-- The mappings of components/mem_service/mem_service_provider.c: mapping a peer's region, the
-- operations that make a range of it visible, unmapping. The bytes behind a mapping are memory that
-- the provider's functions may change: `memory` reads it out of the state.
pub mod Visibility
pub mod Range
use mem_service.Base.{
  ℕ, ◌+◌, ◌-◌, Bool, true, false, not, ◌&&◌, ◌||◌, Option, none, some, List, [], ◌∷◌, ltb, ◌==◌,
  ◌!=◌, if◌then◌else◌, any_of,
}
use mem_service.Base.Text.{strcmp_eq}
use mem_service.Provider.Types.{
  Ops, Reply, Provider, Registry, Channel, RemoteRegion, Mapping, MappingBinding, MappingRequest,
  RangeRequest, VisibilityCompletion, has_bits, has_bits_outside, memory_kind_valid,
  provider_descriptor_len,
}
use mem_service.Provider.Cap
use mem_service.Provider.Channel.{with_ready, deref, function_of, same_provider, hand_back}
use mem_service.Provider.Checksum.{checksum64_at}

abbrev pub mapping_read : ℕ
mapping_read = 1

abbrev pub mapping_fixed_address : ℕ
mapping_fixed_address = 4

-- Read or write.
abbrev pub mapping_access_mask : ℕ
mapping_access_mask = 3

abbrev pub mapping_valid_mask : ℕ
mapping_valid_mask = 7

abbrev pub mapping_request : RemoteRegion → ℕ → ℕ → ℕ → ℕ → MappingRequest
mapping_request remote offset len address flags = record {
  remote_descriptor = remote.descriptor;
  remote_region_len = remote.len;
  offset = offset;
  len = len;
  requested_address = address;
  memory_kind = remote.memory_kind;
  flags = flags;
}

pub data RangeOperation : Type 0 where
  publish invalidate wait_visible : RangeOperation

abbrev pub is_publish : RangeOperation → Bool
is_publish publish = true
is_publish _ = false

abbrev pub range_request : MappingBinding → ℕ → ℕ → ℕ → ℕ → RangeRequest
range_request binding offset len checksum timeout_ms = record {
  mapping_handle = binding.mapping.handle;
  offset = offset;
  len = len;
  expected_checksum = checksum;
  timeout_ms = timeout_ms;
  flags = 0;
}

-- `memset(binding, 0, sizeof(*binding))`
abbrev pub empty_mapping_binding : MappingBinding
empty_mapping_binding = record {
  mapping = record { handle = 0; base = 0; len = 0; memory_kind = 0 };
  owner = none;
  mapped = false;
}

module _ {W : Type 0} where
  abbrev pub map_conditions : Provider W → RemoteRegion → ℕ → ℕ → ℕ → ℕ → List Bool
  map_conditions p remote offset len address flags =
      (len == 0)
      ∷ not (strcmp_eq remote.provider_name p.name)
      ∷ (remote.descriptor.len == 0)
      ∷ ltb provider_descriptor_len remote.descriptor.len
      ∷ not (memory_kind_valid remote.memory_kind)
      ∷ ltb remote.len offset
      ∷ ltb (remote.len - offset) len
      ∷ has_bits_outside flags mapping_valid_mask
      ∷ not (has_bits flags mapping_access_mask)
      ∷ (has_bits flags mapping_fixed_address && address == 0)
      ∷ not (has_bits p.capabilities Cap.peer_mapping)
      ∷ []

  -- The mapping that the provider wrote is not the one that was asked for.
  abbrev pub mapped_conditions : RemoteRegion → ℕ → Reply Mapping W → List Bool
  mapped_conditions remote len reply =
      (reply.rc != 0)
      ∷ (reply.out.handle == 0)
      ∷ (reply.out.base == 0)
      ∷ (reply.out.len != len)
      ∷ (reply.out.memory_kind != remote.memory_kind)
      ∷ []

  unfoldable pub finish_map :
      Provider W → Channel → RemoteRegion → ℕ → Reply Mapping W → Option MappingBinding × W
  finish_map p channel remote len reply =
      if any_of (mapped_conditions remote len reply)
      then (
        none,
        hand_back p reply.out.handle (function_of p.ops (λ o. o.unmap_remote_region)) reply.world,
      )
      else (
        some (record { mapping = reply.out; owner = channel.provider; mapped = true }),
        reply.world,
      )

  unfoldable pub call_map :
      Provider W
      → Channel
      → RemoteRegion
      → ℕ
      → ℕ
      → ℕ
      → ℕ
      → Option (ℕ → MappingRequest → W → Reply Mapping W)
      → W
      → Option MappingBinding × W
  call_map p channel remote offset len address flags none w = (none, w)
  call_map p channel remote offset len address flags (some f) w =
      if any_of (map_conditions p remote offset len address flags)
      then (none, w)
      else finish_map p channel remote len
          (f p.context (mapping_request remote offset len address flags) w)

  unfoldable pub map_remote_region :
      Registry W → Channel → RemoteRegion → ℕ → ℕ → ℕ → ℕ → W → Option MappingBinding × W
  map_remote_region reg channel remote offset len address flags w = with_ready reg channel w λ p w'.
      call_map p channel remote offset len address flags
        (function_of p.ops (λ o. o.map_remote_region)) w'

  call_unmap :
      Provider W
      → MappingBinding
      → Option (ℕ → ℕ → W → Reply (Unit {0}) W)
      → W
      → Bool × MappingBinding × W
  call_unmap p binding none w = (false, binding, w)
  call_unmap p binding (some f) w =
      let reply = f p.context binding.mapping.handle w in
      if reply.rc != 0
      then (false, binding, reply.world)
      else (true, empty_mapping_binding, reply.world)

  -- `true` is the return code 0. The channel is not probed.
  unfoldable pub unmap_remote_region :
      Registry W → Channel → MappingBinding → W → Bool × MappingBinding × W
  unfolding call_unmap
  unmap_remote_region reg channel binding w = elim (deref reg channel.provider) [
    | none ↦ (false, binding, w)
    | some p ↦
        if not binding.mapped || not (same_provider binding.owner channel.provider)
        then (false, binding, w)
        else call_unmap p binding (function_of p.ops (λ o. o.unmap_remote_region)) w
  ]

module _ {W : Type 0} (memory : W → ℕ → ℕ) where
  abbrev pub range_conditions : Provider W → Channel → MappingBinding → ℕ → ℕ → ℕ → List Bool
  range_conditions p channel binding offset len checksum =
      not binding.mapped
      ∷ not (same_provider binding.owner channel.provider)
      ∷ (binding.mapping.base == 0)
      ∷ (len == 0)
      ∷ (checksum == 0)
      ∷ ltb binding.mapping.len offset
      ∷ ltb (binding.mapping.len - offset) len
      ∷ not (has_bits p.capabilities Cap.peer_mapping)
      ∷ []

  -- The function that an operation calls; waiting wants a time.
  abbrev pub range_function :
      RangeOperation → ℕ → Ops W → Option (ℕ → RangeRequest → W → Reply VisibilityCompletion W)
  range_function publish timeout_ms ops = ops.publish_range
  range_function invalidate timeout_ms ops = ops.invalidate_range
  range_function wait_visible timeout_ms ops =
      if timeout_ms == 0 then none else ops.wait_range_visible

  -- The checksum of the range as the memory of a state has it.
  abbrev pub range_checksum : MappingBinding → ℕ → ℕ → W → ℕ
  range_checksum binding offset len w = checksum64_at (memory w) (binding.mapping.base + offset) len

  abbrev pub visible_conditions :
      MappingBinding → ℕ → ℕ → ℕ → Reply VisibilityCompletion W → List Bool
  visible_conditions binding offset len checksum reply =
      (reply.rc != 0)
      ∷ (reply.out.status != 0)
      ∷ (reply.out.visible_bytes != len)
      ∷ (reply.out.checksum != checksum)
      ∷ (range_checksum binding offset len reply.world != checksum)
      ∷ []

  finish_range :
      MappingBinding → ℕ → ℕ → ℕ → Reply VisibilityCompletion W → Option VisibilityCompletion × W
  finish_range binding offset len checksum reply =
      if any_of (visible_conditions binding offset len checksum reply)
      then (none, reply.world)
      else (some reply.out, reply.world)

  unfoldable pub call_range :
      Provider W
      → MappingBinding
      → ℕ
      → ℕ
      → ℕ
      → ℕ
      → Option (ℕ → RangeRequest → W → Reply VisibilityCompletion W)
      → W
      → Option VisibilityCompletion × W
  unfolding finish_range
  call_range p binding offset len checksum timeout_ms none w = (none, w)
  call_range p binding offset len checksum timeout_ms (some f) w =
      finish_range binding offset len checksum
        (f p.context (range_request binding offset len checksum timeout_ms) w)

  unfoldable pub mapping_range :
      Registry W
      → Channel
      → MappingBinding
      → ℕ
      → ℕ
      → ℕ
      → ℕ
      → RangeOperation
      → W
      → Option VisibilityCompletion × W
  mapping_range reg channel binding offset len checksum timeout_ms operation w =
      with_ready reg channel w λ p w'.
        if any_of (range_conditions p channel binding offset len checksum)
        then (none, w')
        else if is_publish operation && range_checksum binding offset len w' != checksum
        then (none, w')
        else call_range p binding offset len checksum timeout_ms
            (function_of p.ops (range_function operation timeout_ms)) w'

  unfoldable pub publish_range :
      Registry W → Channel → MappingBinding → ℕ → ℕ → ℕ → W → Option VisibilityCompletion × W
  publish_range reg channel binding offset len checksum w =
      mapping_range reg channel binding offset len checksum 0 publish w

  unfoldable pub invalidate_range :
      Registry W → Channel → MappingBinding → ℕ → ℕ → ℕ → W → Option VisibilityCompletion × W
  invalidate_range reg channel binding offset len checksum w =
      mapping_range reg channel binding offset len checksum 0 invalidate w

  unfoldable pub wait_range_visible :
      Registry W → Channel → MappingBinding → ℕ → ℕ → ℕ → ℕ → W → Option VisibilityCompletion × W
  wait_range_visible reg channel binding offset len checksum timeout_ms w =
      mapping_range reg channel binding offset len checksum timeout_ms wait_visible w
