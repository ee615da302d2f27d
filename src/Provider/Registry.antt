-- ===== src/Provider/Registry.antt =====
-- The registry of components/mem_service/mem_service_provider.c: which registrations are admitted,
-- lookup by name and instance, and the refresh of every provider's state.
pub mod Lookup
pub mod Invariant
pub mod Ready
use mem_service.Base.{
  ℕ, suc, ◌+◌, ◌<◌, ◌≤◌, ◌≡◌, refl, Bool, true, false, not, ◌&&◌, ◌||◌, Option, none, some, List,
  [], ◌∷◌, ◌++◌, ltb, leb, ◌==◌, ◌!=◌, if◌then◌else◌, any_of, is_none, is_some, length,
}
use mem_service.Base.Text.{Text, c_str, strlen, strcmp_eq, snprintf_text}
use mathlib.Core.Option
use mem_service.Provider.Types.{
  Ops, Reply, Registration, Provider, Registry, ProviderPtr, has_bits, has_bits_outside,
  provider_name_len, provider_instance_len, max_providers,
}
use mem_service.Provider.Cap
use mem_service.Provider.State

-- isalnum(ch) of the C locale, or one of `-`, `_`, `.`, `:`.
unfoldable pub identity_char : ℕ → Bool
identity_char c =
    (leb b'0' c && leb c b'9')
    || (leb b'A' c && leb c b'Z')
    || (leb b'a' c && leb c b'z')
    || (c == b'-')
    || (c == b'_')
    || (c == b'.')
    || (c == b':')

unfoldable pub identity_chars : Text → Bool
identity_chars [] = true
identity_chars (c ∷ cs) = identity_char c && identity_chars cs

-- `value` is the memory behind a pointer that is not NULL.
unfoldable pub identity_text_valid : Text → ℕ → Bool
identity_text_valid value max_len =
    not (strlen value == 0) && ltb (strlen value) max_len && identity_chars (c_str value)

unfoldable pub identity_valid : Option Text → ℕ → Bool
unfolding identity_text_valid
identity_valid none max_len = false
identity_valid (some value) max_len = identity_text_valid value max_len

abbrev pub text_of : Option Text → Text
text_of none = []
text_of (some s) = s

module _ {W : Type 0} where
  -- The conditions on which `ops_valid` refuses, given the table of functions.
  unfoldable pub ops_refused : ℕ → Ops W → Bool
  ops_refused capabilities ops = any_of (
      is_none ops.probe
      ∷ (capabilities == 0)
      ∷ has_bits_outside capabilities Cap.valid_mask
      ∷ (has_bits capabilities Cap.region_registration
          && (is_none ops.register_region || is_none ops.deregister_region))
      ∷ (has_bits capabilities Cap.transfer_mask
          && (is_none ops.submit_transfer || is_none ops.poll_completion))
      ∷ (has_bits capabilities Cap.accelerator_memory
          && not (has_bits capabilities Cap.region_registration))
      ∷ (has_bits capabilities Cap.receive_fence
          && (not (has_bits capabilities Cap.region_registration) || is_none ops.wait_receive))
      ∷ (has_bits capabilities Cap.peer_mapping
          && any_of (
              is_none ops.map_remote_region
              ∷ is_none ops.unmap_remote_region
              ∷ is_none ops.publish_range
              ∷ is_none ops.invalidate_range
              ∷ is_none ops.wait_range_visible
              ∷ []))
      ∷ [])

  unfoldable pub ops_valid : ℕ → Option (Ops W) → Bool
  unfolding ops_refused
  ops_valid capabilities none = false
  ops_valid capabilities (some ops) = not (ops_refused capabilities ops)

  unfoldable pub registry_init : Registry W
  registry_init = record { initialized = true; providers = [] }

  -- The slot of the first provider with these names.
  unfoldable pub find_slot : List (Provider W) → Text → Text → ProviderPtr
  find_slot [] name instance_name = none
  find_slot (p ∷ ps) name instance_name =
      if strcmp_eq p.name name && strcmp_eq p.instance_name instance_name
      then some 0
      else Option.map suc (find_slot ps name instance_name)

  unfoldable pub registry_find : Registry W → Option Text → Option Text → ProviderPtr
  registry_find reg none instance_name = none
  registry_find reg (some name) none = none
  registry_find reg (some name) (some instance_name) =
      if reg.initialized then find_slot reg.providers name instance_name else none

  -- `ops->probe(context, &state)`; `none` where a pointer on the way is NULL.
  unfoldable pub run_probe : Option (Ops W) → ℕ → ℕ → W → Option (Reply ℕ W)
  run_probe none context state w = none
  run_probe (some ops) context state w = elim ops.probe [
    | none ↦ none
    | some f ↦ some (f context state w)
  ]

  -- The probe answered 0 with a number that is a state.
  unfoldable pub probe_failed : Reply ℕ W → Bool
  probe_failed reply = reply.rc != 0 || ltb State.unavailable reply.out

  -- The conditions on which a registration is refused before the provider is probed.
  abbrev pub register_conditions : Registry W → Registration W → List Bool
  register_conditions reg r =
      not reg.initialized
      ∷ not (identity_valid r.name provider_name_len)
      ∷ not (identity_valid r.instance_name provider_instance_len)
      ∷ not (ops_valid r.capabilities r.ops)
      ∷ leb max_providers (length reg.providers)
      ∷ is_some (registry_find reg r.name r.instance_name)
      ∷ []

  unfoldable pub register_refused : Registry W → Registration W → Bool
  register_refused reg r = any_of (register_conditions reg r)

  unfoldable pub new_provider : Registration W → ℕ → Provider W
  new_provider r state = record {
    name = snprintf_text provider_name_len (text_of r.name);
    instance_name = snprintf_text provider_instance_len (text_of r.instance_name);
    capabilities = r.capabilities;
    state = state;
    ops = r.ops;
    context = r.context;
  }

  admit : Registry W → Registration W → W → Option (Reply ℕ W) → Bool × Registry W × W
  unfolding probe_failed
  admit reg r w none = (false, reg, w)
  admit reg r w (some reply) = if probe_failed reply then (false, reg, reply.world) else (
    true,
    record reg { providers = reg.providers ++ new_provider r reply.out ∷ [] },
    reply.world,
  )

  -- `true` is the return code 0.
  unfoldable pub registry_register : Registry W → Registration W → W → Bool × Registry W × W
  unfolding admit
  registry_register reg r w =
      if register_refused reg r
      then (false, reg, w)
      else admit reg r w (run_probe r.ops r.context State.unknown w)

  abbrev with_state : Provider W → ℕ → Provider W
  with_state p state = record p { state = state }

  refreshed : Provider W → W → Option (Reply ℕ W) → Bool × Provider W × W
  unfolding probe_failed
  refreshed p w none = (false, with_state p State.unavailable, w)
  refreshed p w (some reply) =
      if probe_failed reply
      then (false, with_state p State.unavailable, reply.world)
      else (true, with_state p reply.out, reply.world)

  unfoldable pub refresh_provider : Provider W → W → Bool × Provider W × W
  unfolding refreshed
  refresh_provider p w = refreshed p w (run_probe p.ops p.context State.unavailable w)

  -- The number of failures, the providers, the state.
  unfoldable pub refresh_all : List (Provider W) → W → ℕ × List (Provider W) × W
  refresh_all [] w = (0, [], w)
  refresh_all (p ∷ ps) w =
      let (done, p', w') = refresh_provider p w in
      let (failures, ps', w'') = refresh_all ps w' in
      ((if done then failures else failures + 1), p' ∷ ps', w'')

  unfoldable pub registry_refresh : Registry W → W → Bool × Registry W × W
  registry_refresh reg w =
      let (failures, ps, w') = refresh_all reg.providers w in
      if reg.initialized
      then (failures == 0, record reg { providers = ps }, w')
      else (false, reg, w)

  unfoldable pub count_ready : List (Provider W) → ℕ
  count_ready [] = 0
  count_ready (p ∷ ps) = if p.state == State.ready then count_ready ps + 1 else count_ready ps

  unfoldable pub registry_ready_count : Registry W → ℕ
  unfolding count_ready
  registry_ready_count reg = if reg.initialized then count_ready reg.providers else 0

  abbrev pub is_data_plane : Provider W → Bool
  is_data_plane p = has_bits p.capabilities Cap.data_plane_mask

  -- The loop, with `data_provider_found` as it stands before the round.
  unfoldable pub data_plane_loop : List (Provider W) → Bool → Bool
  data_plane_loop [] found = found
  data_plane_loop (p ∷ ps) found =
      let skipped = data_plane_loop ps found in
      let passed = data_plane_loop ps true in
      if is_data_plane p then if p.state == State.ready then passed else false else skipped

  unfoldable pub registry_data_plane_ready : Registry W → Bool
  registry_data_plane_ready reg =
      if reg.initialized then data_plane_loop reg.providers false else false
