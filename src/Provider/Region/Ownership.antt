-- ===== src/Provider/Region/Ownership.antt =====
-- Which regions a channel holds: what a registration has checked, that a refused region is handed
-- back, that a binding is good for one deregistration, and what is exported.
use mem_service.Base.{
  ℕ, ◌≤◌, ◌≡◌, ◌≢◌, refl, sym, ap, ◌∙◌, subst, true, false, not, ◌||◌, Option, none, some,
  if◌then◌else◌, any_of, any_of-AllFalse, ◌!=◌, Bool-cases, Option-cases, inl, inr, arith,
}
use mem_service.Base.Text.{snprintf_text}
use mem_service.Provider.Types.{
  Reply, Provider, Registry, Channel, RegionBinding, RegionRequest, Region, RemoteRegion,
  memory_kind_valid, provider_descriptor_len, provider_name_len,
}
use mem_service.Provider.Channel.{function_of, same_provider, hand_back, deref}
use mem_service.Provider.Channel.Bound.{
  Ready, with_ready-some, chosen_true, guarded-some, same_provider_eq, probed_only,
  with_ready_refused,
}
use mem_service.Provider.Region.{
  register_region_conditions, region_conditions, finish_region, call_register_region,
  register_region, export_conditions, export_region, empty_region_binding, call_deregister,
  deregister_region,
}

-- A binding that stands for a region of the channel's provider.
pub record Held (channel : Channel) (binding : RegionBinding) : Type 0 where
  pub registered : binding.registered ≡ true
  pub owned : binding.owner ≡ channel.provider

module _ {W : Type 0} where
  finish_region-some :
      (p : Provider W) (channel : Channel) (request : RegionRequest) (reply : Reply Region W)
      {binding : RegionBinding}
      → (finish_region p channel request reply).0 ≡ some binding
      → Held channel binding
        × (binding.region.handle ≢ 0)
        × (binding.region.len ≡ request.len)
        × (binding.region.memory_kind ≡ request.memory_kind)
        × (binding.region.descriptor.len ≤ provider_descriptor_len)
  unfolding finish_region
  finish_region-some p channel request reply {binding} h =
      let (good, call, _) = guarded-some (any_of (region_conditions request reply)) _ _ h in
      let c = any_of-AllFalse (region_conditions request reply) good in
      let same : record { region = reply.out; owner = channel.provider; registered = true }
          ≡ binding =
        cc call in
      subst
        (λ b.
          Held channel b
          × (b.region.handle ≢ 0)
          × (b.region.len ≡ request.len)
          × (b.region.memory_kind ≡ request.memory_kind)
          × (b.region.descriptor.len ≤ provider_descriptor_len))
        same
        (
          record { registered = refl; owned = refl },
          ground arith,
          ground arith,
          ground arith,
          ground arith,
        )

  call_register_region-some :
      (p : Provider W) (channel : Channel) (request : RegionRequest)
      (f : Option (ℕ → RegionRequest → W → Reply Region W)) (w : W) {binding : RegionBinding}
      → (call_register_region p channel request f w).0 ≡ some binding
      → Held channel binding
        × (binding.region.handle ≢ 0)
        × (binding.region.len ≡ request.len)
        × (binding.region.memory_kind ≡ request.memory_kind)
        × (binding.region.descriptor.len ≤ provider_descriptor_len)
        × (request.len ≢ 0)
        × (memory_kind_valid request.memory_kind ≡ true)
  unfolding call_register_region
  call_register_region-some p channel request none w h = absurd (ground arith)
  call_register_region-some p channel request (some f) w h =
      let (good, call, _) = guarded-some (any_of (register_region_conditions p request)) w _ h in
      let c = any_of-AllFalse (register_region_conditions p request) good in
      let (held, handle, len, kind, fits) =
        finish_region-some p channel request (f p.context request w) call in
      (held, handle, len, kind, fits, ground arith, ground arith)

  -- A region that was registered is held by the channel under a handle that is not 0, and is the
  -- one that was asked for: its length, its kind, a descriptor that fits.
  pub register_region_lem :
      (reg : Registry W) (channel : Channel) (request : RegionRequest) (w : W)
      {binding : RegionBinding}
      → (register_region reg channel request w).0 ≡ some binding
      → Held channel binding
        × (binding.region.handle ≢ 0)
        × (binding.region.len ≡ request.len)
        × (binding.region.memory_kind ≡ request.memory_kind)
        × (binding.region.descriptor.len ≤ provider_descriptor_len)
        × (request.len ≢ 0)
        × (memory_kind_valid request.memory_kind ≡ true)
  unfolding register_region
  register_region_lem reg channel request w h =
      let (r, _, call) = with_ready-some reg channel w _ h in
      call_register_region-some r.provider channel request
        (function_of r.provider.ops (λ o. o.register_region)) r.probed call

  -- No handle leaks: where the provider's answer is refused although it wrote a handle, and there is
  -- a function to give it back, that function is called with the handle, on the state that the
  -- registration left.
  pub finish_region_hands_back :
      (p : Provider W) (channel : Channel) (request : RegionRequest) (reply : Reply Region W)
      (release : ℕ → ℕ → W → Reply (Unit {0}) W)
      → function_of p.ops (λ o. o.deregister_region) ≡ some release
      → reply.out.handle ≢ 0
      → (finish_region p channel request reply).0 ≡ none
      → (finish_region p channel request reply).1
        ≡ (release p.context reply.out.handle reply.world).world
  unfolding finish_region hand_back
  finish_region_hands_back p channel request reply release e set h =
      let set' : (reply.out.handle != 0) ≡ true = ground arith in
      elim (Bool-cases (any_of (region_conditions request reply))) [
        | inl bad ↦ rw (bad, e) (rw set' refl)
        | inr good ↦ absurd (let g = rw good at h in cc g)
      ]

  call_deregister-true :
      (p : Provider W) (binding : RegionBinding) (f : Option (ℕ → ℕ → W → Reply (Unit {0}) W))
      (w : W)
      → (call_deregister p binding f w).0 ≡ true
      → (call_deregister p binding f w).1 ≡ empty_region_binding
  unfolding call_deregister
  call_deregister-true p binding none w h = absurd (ground arith)
  call_deregister-true p binding (some f) w h = ground arith

  deregister_region_here :
      (reg : Registry W) (channel : Channel) (binding : RegionBinding) (w : W) (p : Provider W)
      → deref reg channel.provider ≡ some p
      → deregister_region reg channel binding w ≡ (
          if not binding.registered || not (same_provider binding.owner channel.provider)
          then (false, binding, w)
          else call_deregister p binding (function_of p.ops (λ o. o.deregister_region)) w)
  unfolding deregister_region
  deregister_region_here reg channel binding w p e = rw (e, deregister_region)

  deregister_region_null :
      (reg : Registry W) (channel : Channel) (binding : RegionBinding) (w : W)
      → deref reg channel.provider ≡ none
      → deregister_region reg channel binding w ≡ (false, binding, w)
  unfolding deregister_region
  deregister_region_null reg channel binding w e = rw (e, deregister_region)

  -- A deregistration that succeeds was of a region that the channel holds, and clears the binding.
  pub deregister_region_true :
      (reg : Registry W) (channel : Channel) (binding : RegionBinding) (w : W)
      → (deregister_region reg channel binding w).0 ≡ true
      → Held channel binding × ((deregister_region reg channel binding w).1 ≡ empty_region_binding)
  deregister_region_true reg channel binding w h =
      elim (Option-cases (deref reg channel.provider)) [
        | inl null ↦ absurd (
            let g = ap (λ t. t.0) (sym (deregister_region_null reg channel binding w null)) ∙ h in
            cc g)
        | inr (p, e) ↦
            let step = deregister_region_here reg channel binding w p e in
            let refused =
              not binding.registered || not (same_provider binding.owner channel.provider) in
            let call = call_deregister p binding (function_of p.ops (λ o. o.deregister_region)) w in
            let (good, through) =
              chosen_true refused binding w call (ap (λ t. t.0) (sym step) ∙ h) in
            let whole = step ∙ through in
            (
              record {
                registered = ground arith;
                owned = same_provider_eq binding.owner channel.provider (ground arith);
              },
              ap (λ t. t.1) whole
                  ∙ call_deregister-true p binding (function_of p.ops (λ o. o.deregister_region)) w
                      (ap (λ t. t.0) (sym whole) ∙ h),
            )
      ]

  export_empty :
      (reg : Registry W) (channel : Channel) (w : W)
      → export_region reg channel empty_region_binding w ≡ (none, probed_only reg channel w)
  unfolding export_region
  export_empty reg channel w = with_ready_refused reg channel w _ λ p w'. refl

  deregister_empty :
      (reg : Registry W) (channel : Channel) (w : W)
      → deregister_region reg channel empty_region_binding w ≡ (false, empty_region_binding, w)
  deregister_empty reg channel w = elim (Option-cases (deref reg channel.provider)) [
    | inl null ↦ deregister_region_null reg channel empty_region_binding w null
    | inr (p, e) ↦ deregister_region_here reg channel empty_region_binding w p e
  ]

  -- After a deregistration the binding is dead: on any channel, in any later state, a second
  -- deregistration with it fails and changes nothing, and an export of it fails.
  pub deregister_region_once :
      (reg : Registry W) (channel : Channel) (binding : RegionBinding) (w : W)
      → (deregister_region reg channel binding w).0 ≡ true
      → (other : Channel) (later : W)
      → let dead = (deregister_region reg channel binding w).1 in
        (deregister_region reg other dead later ≡ (false, dead, later))
        × (export_region reg other dead later ≡ (none, probed_only reg other later))
  deregister_region_once reg channel binding w h other later =
      rw ((deregister_region_true reg channel binding w h).1)
        (deregister_empty reg other later, export_empty reg other later)

  -- What is exported is a region that the channel holds, as a peer's channel wants to see it: a
  -- nonempty region with a descriptor, under the text of the provider's name.
  pub export_region_lem :
      (reg : Registry W) (channel : Channel) (binding : RegionBinding) (w : W)
      {remote : RemoteRegion}
      → (export_region reg channel binding w).0 ≡ some remote
      → Held channel binding
        × ((r : Ready reg channel w) × (remote.provider_name
              ≡ snprintf_text provider_name_len r.provider.name))
        × (remote.len ≡ binding.region.len)
        × (remote.len ≢ 0)
        × (memory_kind_valid remote.memory_kind ≡ true)
        × (remote.descriptor ≡ binding.region.descriptor)
        × (remote.descriptor.len ≢ 0)
        × (remote.descriptor.len ≤ provider_descriptor_len)
  unfolding export_region
  export_region_lem reg channel binding w {remote} h =
      let (r, _, call) = with_ready-some reg channel w _ h in
      let (good, made, _) =
        guarded-some (any_of (export_conditions channel binding)) r.probed _ call in
      let c = any_of-AllFalse (export_conditions channel binding) good in
      let same : record {
        provider_name = snprintf_text provider_name_len r.provider.name;
        len = binding.region.len;
        memory_kind = binding.region.memory_kind;
        descriptor = binding.region.descriptor;
      }
          ≡ remote =
        cc made in
      (
        record {
          registered = ground arith;
          owned = same_provider_eq binding.owner channel.provider (ground arith);
        },
        (r, ap (λ x. x.provider_name) (sym same)),
        ap (λ x. x.len) (sym same),
        ground arith,
        subst (λ x. memory_kind_valid x.memory_kind ≡ true) same (ground arith),
        ap (λ x. x.descriptor) (sym same),
        ground arith,
        ground arith,
      )
