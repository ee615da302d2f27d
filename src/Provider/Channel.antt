-- ===== src/Provider/Channel.antt =====
-- The channels of components/mem_service/mem_service_provider.c: readiness, and binding to a
-- provider of the registry.
-- A call returns what it stores through its out pointer, `none` for the return code -1, and the
-- state that the provider's functions have left. The argument `reg` is the memory that provider
-- pointers point into; a NULL struct argument has no value here.
pub mod Bound
use mem_service.Base.{
  ℕ, Bool, true, false, not, ◌&&◌, Option, none, some, List, [], ◌∷◌, ◌==◌, ◌!=◌, if◌then◌else◌,
  any_of, get_elem?, bit_and,
}
use mem_service.Base.Text.{Text}
use mem_service.Provider.Types.{
  Ops, Reply, Provider, Registry, ProviderPtr, Channel, has_bits_outside,
}
use mem_service.Provider.Cap
use mem_service.Provider.State
use mem_service.Provider.Registry.{run_probe, registry_find, registry_data_plane_ready}

-- Pointer equality.
unfoldable pub same_provider : ProviderPtr → ProviderPtr → Bool
same_provider none none = true
same_provider none (some j) = false
same_provider (some i) none = false
same_provider (some i) (some j) = i == j

module _ {W : Type 0} where
  unfoldable pub deref : Registry W → ProviderPtr → Option (Provider W)
  deref reg none = none
  deref reg (some i) = get_elem? reg.providers i

  -- A function of the provider's table; `none` where a pointer on the way is NULL.
  unfoldable pub function_of {ℓ} : {F : Type ℓ} → Option (Ops W) → (Ops W → Option F) → Option F
  function_of none field = none
  function_of (some ops) field = field ops

  unfoldable pub is_ready : Option (Reply ℕ W) → Bool
  is_ready none = false
  is_ready (some reply) = reply.rc == 0 && reply.out == State.ready

  abbrev pub world_after : W → Option (Reply ℕ W) → W
  world_after w none = w
  world_after w (some reply) = reply.world

  -- `channel_ready` on a provider, which is probed anew.
  abbrev pub ready_probe : Provider W → W → Option (Reply ℕ W)
  ready_probe p w = run_probe p.ops p.context State.unavailable w

  when_ready {ℓ} : {A : Type ℓ} → Option (Reply ℕ W) → W → (W → Option A × W) → Option A × W
  unfolding is_ready
  when_ready answer w body =
      if is_ready answer then body (world_after w answer) else (none, world_after w answer)

  -- A call that begins with `channel_ready`, and goes on with the provider and the state.
  unfoldable pub with_ready {ℓ} :
      {A : Type ℓ} → Registry W → Channel → W → (Provider W → W → Option A × W) → Option A × W
  unfolding when_ready
  with_ready reg channel w body = elim (deref reg channel.provider) [
    | none ↦ (none, w)
    | some p ↦ when_ready (ready_probe p w) w (body p)
  ]

  abbrev pub bind_conditions : Registry W → ℕ → List Bool
  bind_conditions reg required =
      (required == 0)
      ∷ has_bits_outside required Cap.valid_mask
      ∷ not (registry_data_plane_ready reg)
      ∷ []

  unfoldable pub bind_provider : Registry W → ProviderPtr → ℕ → W → Option Channel × W
  bind_provider reg ptr required w =
      let channel : Channel = record { provider = ptr; required_capabilities = required } in
      elim (deref reg ptr) [
        | none ↦ (none, w)
        | some p ↦
            if bit_and p.capabilities required != required
            then (none, w)
            else with_ready reg channel w (λ _ w'. (some channel, w'))
      ]

  unfoldable pub channel_bind : Registry W → Option Text → Option Text → ℕ → W → Option Channel × W
  channel_bind reg name instance_name required w =
      if any_of (bind_conditions reg required)
      then (none, w)
      else bind_provider reg (registry_find reg name instance_name) required w

  -- A handle that is given up is handed back, if there is one and a function for it.
  unfoldable pub hand_back : Provider W → ℕ → Option (ℕ → ℕ → W → Reply (Unit {0}) W) → W → W
  hand_back p handle none w = w
  hand_back p handle (some release) w =
      if handle != 0 then (release p.context handle w).world else w
