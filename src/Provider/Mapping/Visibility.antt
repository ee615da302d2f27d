-- ===== src/Provider/Mapping/Visibility.antt =====
-- What a mapping gives access to, and that it ends with its unmapping.
use mem_service.Base.{
  ℕ, ◌+◌, ◌≤◌, ◌≡◌, ◌≢◌, refl, sym, ap, ◌∙◌, subst, true, false, not, ◌||◌, Option, none, some,
  if◌then◌else◌, any_of, any_of-AllFalse, Option-cases, inl, inr, arith,
}
use mem_service.Base.Text.{strcmp_eq}
use mem_service.Provider.Types.{
  Reply, Provider, Registry, Channel, MappingBinding, MappingRequest, Mapping, RemoteRegion,
}
use mem_service.Provider.Channel.{function_of, same_provider, deref}
use mem_service.Provider.Channel.Bound.{
  Ready, with_ready-some, guarded-some, chosen_true, probed_only, with_ready_refused,
}
use mem_service.Provider.Mapping.{
  RangeOperation, mapping_request, map_conditions, mapped_conditions, finish_map, call_map,
  map_remote_region, call_unmap, unmap_remote_region, empty_mapping_binding, mapping_range,
}

-- A mapping of `len` bytes of a region, at an address, held by the channel.
pub record Mapped (channel : Channel) (remote : RemoteRegion) (len : ℕ) (binding : MappingBinding)
    : Type 0 where
  pub mapped : binding.mapped ≡ true
  pub owned : binding.owner ≡ channel.provider
  pub handle_set : binding.mapping.handle ≢ 0
  pub base_set : binding.mapping.base ≢ 0
  pub whole : binding.mapping.len ≡ len
  pub same_kind : binding.mapping.memory_kind ≡ remote.memory_kind

module _ {W : Type 0} where
  finish_map-some :
      (p : Provider W) (channel : Channel) (remote : RemoteRegion) (len : ℕ)
      (reply : Reply Mapping W) {binding : MappingBinding}
      → (finish_map p channel remote len reply).0 ≡ some binding
      → Mapped channel remote len binding
        × (reply.out ≡ binding.mapping)
        × ((finish_map p channel remote len reply).1 ≡ reply.world)
  unfolding finish_map
  finish_map-some p channel remote len reply {binding} h =
      let (good, call, step) = guarded-some (any_of (mapped_conditions remote len reply)) _ _ h in
      let c = any_of-AllFalse (mapped_conditions remote len reply) good in
      let same : record { mapping = reply.out; owner = channel.provider; mapped = true } ≡ binding =
        cc call in
      (
        subst (Mapped channel remote len) same (record {
          mapped = refl;
          owned = refl;
          handle_set = ground arith;
          base_set = ground arith;
          whole = ground arith;
          same_kind = ground arith;
        }),
        ap (λ b. b.mapping) same,
        ap (λ t. t.1) step,
      )

  call_map-some :
      (p : Provider W) (channel : Channel) (remote : RemoteRegion) (offset len address flags : ℕ)
      (f : Option (ℕ → MappingRequest → W → Reply Mapping W)) (w : W) {binding : MappingBinding}
      → (call_map p channel remote offset len address flags f w).0 ≡ some binding
      → Mapped channel remote len binding
        × (offset + len ≤ remote.len)
        × (len ≢ 0)
        × (strcmp_eq remote.provider_name p.name ≡ true)
        × (map : ℕ → MappingRequest → W → Reply Mapping W) × (f ≡ some map)
        × ((map p.context (mapping_request remote offset len address flags) w).out
            ≡ binding.mapping)
        × ((call_map p channel remote offset len address flags f w).1
            ≡ (map p.context (mapping_request remote offset len address flags) w).world)
  unfolding call_map
  call_map-some p channel remote offset len address flags none w h = absurd (ground arith)
  call_map-some p channel remote offset len address flags (some f) w h =
      let conditions = map_conditions p remote offset len address flags in
      let (good, call, step) = guarded-some (any_of conditions) w _ h in
      let c = any_of-AllFalse conditions good in
      let (made, same, left) =
        finish_map-some p channel remote len
          (f p.context (mapping_request remote offset len address flags) w) call in
      (made, ground arith, ground arith, ground arith, f, refl, same, ap (λ t. t.1) step ∙ left)

  -- A mapping as the provider was asked for it, and its answer.
  pub record MapCall (reg : Registry W) (channel : Channel) (remote : RemoteRegion)
      (offset len address flags : ℕ) (w : W) (mapping : Mapping) (w' : W) : Type 0 where
    pub ready : Ready reg channel w
    pub map : ℕ → MappingRequest → W → Reply Mapping W
    pub found : function_of ready.provider.ops (λ o. o.map_remote_region) ≡ some map
    pub request : MappingRequest
    pub described : request.remote_descriptor ≡ remote.descriptor
    pub of_region : request.remote_region_len ≡ remote.len
    pub from_offset : request.offset ≡ offset
    pub of_length : request.len ≡ len
    pub at_address : request.requested_address ≡ address
    pub of_kind : request.memory_kind ≡ remote.memory_kind
    pub with_flags : request.flags ≡ flags
    pub answered : (map ready.provider.context request ready.probed).out ≡ mapping
    pub left : (map ready.provider.context request ready.probed).world ≡ w'
    pub same_name : strcmp_eq remote.provider_name ready.provider.name ≡ true
    pub not_empty : len ≢ 0
    pub in_bounds : offset + len ≤ remote.len

  -- The binding of a mapped region holds the answer of the map function of a provider of the region's
  -- name, called where the channel has just been found ready, with the descriptor, the length and the
  -- kind of the region and the offset, length, address and flags that were asked for; what that call
  -- leaves is left. The range lies in the region, and the answer has a handle, an address, and the
  -- length and kind of memory that were asked for.
  pub map_remote_region_lem :
      (reg : Registry W) (channel : Channel) (remote : RemoteRegion) (offset len address flags : ℕ)
      (w : W) {binding : MappingBinding}
      → (map_remote_region reg channel remote offset len address flags w).0 ≡ some binding
      → Mapped channel remote len binding
        × MapCall reg channel remote offset len address flags w binding.mapping
            (map_remote_region reg channel remote offset len address flags w).1
  unfolding map_remote_region
  map_remote_region_lem reg channel remote offset len address flags w h =
      let (r, step, call) = with_ready-some reg channel w _ h in
      let (made, bounds, some_bytes, named, f, found, same, left) =
        call_map-some r.provider channel remote offset len address flags
          (function_of r.provider.ops (λ o. o.map_remote_region)) r.probed call in
      (
        made,
        record {
          ready = r;
          map = f;
          found = found;
          request = mapping_request remote offset len address flags;
          described = refl;
          of_region = refl;
          from_offset = refl;
          of_length = refl;
          at_address = refl;
          of_kind = refl;
          with_flags = refl;
          answered = same;
          left = sym left ∙ ap (λ t. t.1) (sym step);
          same_name = named;
          not_empty = some_bytes;
          in_bounds = bounds;
        },
      )

  call_unmap-true :
      (p : Provider W) (binding : MappingBinding) (f : Option (ℕ → ℕ → W → Reply (Unit {0}) W))
      (w : W)
      → (call_unmap p binding f w).0 ≡ true
      → (call_unmap p binding f w).1 ≡ empty_mapping_binding
  unfolding call_unmap
  call_unmap-true p binding none w h = absurd (ground arith)
  call_unmap-true p binding (some f) w h = ground arith

  unmap_here :
      (reg : Registry W) (channel : Channel) (binding : MappingBinding) (w : W) (p : Provider W)
      → deref reg channel.provider ≡ some p
      → unmap_remote_region reg channel binding w ≡ (
          if not binding.mapped || not (same_provider binding.owner channel.provider)
          then (false, binding, w)
          else call_unmap p binding (function_of p.ops (λ o. o.unmap_remote_region)) w)
  unfolding unmap_remote_region
  unmap_here reg channel binding w p e = rw (e, unmap_remote_region)

  unmap_null :
      (reg : Registry W) (channel : Channel) (binding : MappingBinding) (w : W)
      → deref reg channel.provider ≡ none
      → unmap_remote_region reg channel binding w ≡ (false, binding, w)
  unfolding unmap_remote_region
  unmap_null reg channel binding w e = rw (e, unmap_remote_region)

  unmap_true :
      (reg : Registry W) (channel : Channel) (binding : MappingBinding) (w : W)
      → (unmap_remote_region reg channel binding w).0 ≡ true
      → (unmap_remote_region reg channel binding w).1 ≡ empty_mapping_binding
  unmap_true reg channel binding w h = elim (Option-cases (deref reg channel.provider)) [
    | inl null ↦
        absurd (let g = ap (λ t. t.0) (sym (unmap_null reg channel binding w null)) ∙ h in cc g)
    | inr (p, e) ↦
        let step = unmap_here reg channel binding w p e in
        let refused = not binding.mapped || not (same_provider binding.owner channel.provider) in
        let call = call_unmap p binding (function_of p.ops (λ o. o.unmap_remote_region)) w in
        let (good, through) = chosen_true refused binding w call (ap (λ t. t.0) (sym step) ∙ h) in
        let whole = step ∙ through in
        ap (λ t. t.1) whole
        ∙ call_unmap-true p binding (function_of p.ops (λ o. o.unmap_remote_region)) w
            (ap (λ t. t.0) (sym whole) ∙ h)
  ]

  unmap_empty :
      (reg : Registry W) (channel : Channel) (w : W)
      → unmap_remote_region reg channel empty_mapping_binding w ≡ (false, empty_mapping_binding, w)
  unmap_empty reg channel w = elim (Option-cases (deref reg channel.provider)) [
    | inl null ↦ unmap_null reg channel empty_mapping_binding w null
    | inr (p, e) ↦ unmap_here reg channel empty_mapping_binding w p e
  ]

  -- No use after unmapping: once a binding is unmapped, on any channel and in any later state a
  -- second unmapping with it fails and changes nothing, and no range of it is made visible.
  pub unmap_remote_region_once :
      (memory : W → ℕ → ℕ) (reg : Registry W) (channel : Channel) (binding : MappingBinding) (w : W)
      → (unmap_remote_region reg channel binding w).0 ≡ true
      → (other : Channel) (later : W) (offset len checksum timeout_ms : ℕ)
        (operation : RangeOperation)
      → let dead = (unmap_remote_region reg channel binding w).1 in
        (unmap_remote_region reg other dead later ≡ (false, dead, later))
        × (mapping_range memory reg other dead offset len checksum timeout_ms operation later
            ≡ (none, probed_only reg other later))
  unfolding mapping_range
  unmap_remote_region_once memory reg channel binding w h other later offset len checksum timeout_ms
        operation =
      rw (unmap_true reg channel binding w h)
        (unmap_empty reg other later, with_ready_refused reg other later _ (λ p w'. refl))
