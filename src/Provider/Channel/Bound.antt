-- ===== src/Provider/Channel/Bound.antt =====
-- What a call on a channel has established by the time it returns a result.
use mem_service.Base.{
  ℕ, ◌≡◌, refl, sym, ap, ◌∙◌, Bool, true, false, Option, none, some, if◌then◌else◌, any_of,
  any_of-AllFalse, ◌!=◌, !=_false, Bool-cases, Option-cases, bit_and, inl, inr, arith,
}
use mem_service.Base.Text.{Text}
use mem_service.Provider.Types.{Reply, Provider, Registry, ProviderPtr, Channel}
use mem_service.Provider.Registry.{registry_find, registry_data_plane_ready}
use mem_service.Provider.Channel.{
  deref, is_ready, world_after, ready_probe, when_ready, with_ready, same_provider, bind_conditions,
  bind_provider, channel_bind,
}

-- The first part of a pair that is chosen by a guard.
pub guarded-some {ℓ κ} :
    {A : Type ℓ} {W : Type κ} {a : A} (refused : Bool) (w : W) (call : Option A × W)
    → (if refused then (none, w) else call).0 ≡ some a
    → (refused ≡ false) × (call.0 ≡ some a) × ((if refused then (none, w) else call) ≡ call)
guarded-some true w call h = absurd (ground arith)
guarded-some false w call h = (refl, h, refl)

-- A chosen answer of `true` comes from the branch that can give it.
pub chosen_true {ℓ κ} :
    {B : Type ℓ} {W : Type κ} (refused : Bool) (b : B) (w : W) (call : Bool × B × W)
    → (if refused then (false, b, w) else call).0 ≡ true
    → (refused ≡ false) × ((if refused then (false, b, w) else call) ≡ call)
chosen_true true b w call h = absurd (ground arith)
chosen_true false b w call h = (refl, refl)

pub same_provider_eq : (i j : ProviderPtr) → same_provider i j ≡ true → i ≡ j
unfolding same_provider
same_provider_eq none none h = refl
same_provider_eq none (some j) h = absurd (ground arith)
same_provider_eq (some i) none h = absurd (ground arith)
same_provider_eq (some i) (some j) h = ground arith

module _ {W : Type 0} where
  -- The channel's provider answered the probe with `ready`, and left the state `probed`.
  pub record Ready (reg : Registry W) (channel : Channel) (w : W) : Type 0 where
    pub provider : Provider W
    pub probed : W
    pub here : deref reg channel.provider ≡ some provider
    pub answered : is_ready (ready_probe provider w) ≡ true
    pub left : world_after w (ready_probe provider w) ≡ probed

  when_ready-some {ℓ} :
      {A : Type ℓ} {a : A} (answer : Option (Reply ℕ W)) (w : W) (body : W → Option A × W)
      → (when_ready answer w body).0 ≡ some a
      → (is_ready answer ≡ true) × (when_ready answer w body ≡ body (world_after w answer))
  unfolding when_ready
  when_ready-some answer w body h = elim (Bool-cases (is_ready answer)) [
    | inl good ↦ (good, rw good)
    | inr bad ↦ absurd (let g = rw bad at h in cc g)
  ]

  with_ready_here {ℓ} :
      {A : Type ℓ} (reg : Registry W) (channel : Channel) (w : W)
      (body : Provider W → W → Option A × W) (p : Provider W)
      → deref reg channel.provider ≡ some p
      → with_ready reg channel w body ≡ when_ready (ready_probe p w) w (body p)
  unfolding with_ready
  with_ready_here reg channel w body p e = rw (e, with_ready)

  with_ready_null {ℓ} :
      {A : Type ℓ} (reg : Registry W) (channel : Channel) (w : W)
      (body : Provider W → W → Option A × W)
      → deref reg channel.provider ≡ none
      → with_ready reg channel w body ≡ (none, w)
  unfolding with_ready
  with_ready_null reg channel w body e = rw (e, with_ready)

  -- A call behind `channel_ready` that returned went through its body on a ready provider.
  pub with_ready-some {ℓ} :
      {A : Type ℓ} {a : A} (reg : Registry W) (channel : Channel) (w : W)
      (body : Provider W → W → Option A × W)
      → (with_ready reg channel w body).0 ≡ some a
      → (r : Ready reg channel w) × (with_ready reg channel w body ≡ body r.provider r.probed)
        × ((body r.provider r.probed).0 ≡ some a)
  with_ready-some {a = a} reg channel w body h = elim (Option-cases (deref reg channel.provider)) [
    | inl null ↦ absurd (let g = rw (with_ready_null reg channel w body null) at h in cc g)
    | inr (p, e) ↦
        let step = with_ready_here reg channel w body p e in
        let (good, through) =
          when_ready-some (ready_probe p w) w (body p) (ap (λ t. t.0) (sym step) ∙ h) in
        let whole = step ∙ through in
        (
          record {
            provider = p;
            probed = world_after w (ready_probe p w);
            here = e;
            answered = good;
            left = refl;
          },
          whole,
          ap (λ t. t.0) (sym whole) ∙ h,
        )
  ]

  -- The state that the probe of a channel leaves behind.
  unfoldable pub probed_only : Registry W → Channel → W → W
  probed_only reg channel w = elim (deref reg channel.provider) [
    | none ↦ w
    | some p ↦ world_after w (ready_probe p w)
  ]

  probed_only_here :
      (reg : Registry W) (channel : Channel) (w : W) (p : Provider W)
      → deref reg channel.provider ≡ some p
      → probed_only reg channel w ≡ world_after w (ready_probe p w)
  unfolding probed_only
  probed_only_here reg channel w p e = rw (e, probed_only)

  probed_only_null :
      (reg : Registry W) (channel : Channel) (w : W)
      → deref reg channel.provider ≡ none
      → probed_only reg channel w ≡ w
  unfolding probed_only
  probed_only_null reg channel w e = rw (e, probed_only)

  when_ready_refused {ℓ} :
      {A : Type ℓ} (answer : Option (Reply ℕ W)) (w : W) (body : W → Option A × W)
      → ((w' : W) → body w' ≡ (none, w'))
      → when_ready answer w body ≡ (none, world_after w answer)
  unfolding when_ready
  when_ready_refused answer w body h = elim (Bool-cases (is_ready answer)) [
    | inl good ↦ rw good (h (world_after w answer))
    | inr bad ↦ rw bad
  ]

  -- Where the body refuses whatever it is given, only the probe has run.
  pub with_ready_refused {ℓ} :
      {A : Type ℓ} (reg : Registry W) (channel : Channel) (w : W)
      (body : Provider W → W → Option A × W)
      → ((p : Provider W) (w' : W) → body p w' ≡ (none, w'))
      → with_ready reg channel w body ≡ (none, probed_only reg channel w)
  with_ready_refused reg channel w body h = elim (Option-cases (deref reg channel.provider)) [
    | inl null ↦ rw (with_ready_null reg channel w body null, probed_only_null reg channel w null)
    | inr (p, e) ↦
        rw (with_ready_here reg channel w body p e, probed_only_here reg channel w p e)
          (when_ready_refused (ready_probe p w) w (body p) (h p))
  ]

  -- What a successful bind has checked.
  pub record BoundTo (reg : Registry W) (name instance_name : Option Text) (required : ℕ) (w : W)
      (channel : Channel) : Type 0 where
    pub provider : Provider W
    pub pointer : channel.provider ≡ registry_find reg name instance_name
    pub target : deref reg channel.provider ≡ some provider
    pub asked : channel.required_capabilities ≡ required
    pub capable : bit_and provider.capabilities required ≡ required
    pub data_plane : registry_data_plane_ready reg ≡ true
    pub ready : is_ready (ready_probe provider w) ≡ true

  bind_provider_here :
      (reg : Registry W) (ptr : ProviderPtr) (required : ℕ) (w : W) (p : Provider W)
      → deref reg ptr ≡ some p
      → bind_provider reg ptr required w ≡ (
          let channel : Channel = record { provider = ptr; required_capabilities = required } in
          if bit_and p.capabilities required != required
          then (none, w)
          else with_ready reg channel w (λ _ w'. (some channel, w')))
  unfolding bind_provider
  bind_provider_here reg ptr required w p e = rw (e, bind_provider)

  bind_provider_null :
      (reg : Registry W) (ptr : ProviderPtr) (required : ℕ) (w : W)
      → deref reg ptr ≡ none
      → bind_provider reg ptr required w ≡ (none, w)
  unfolding bind_provider
  bind_provider_null reg ptr required w e = rw (e, bind_provider)

  channel_bind_passed :
      (reg : Registry W) (name instance_name : Option Text) (required : ℕ) (w : W)
      {channel : Channel}
      → (channel_bind reg name instance_name required w).0 ≡ some channel
      → (registry_data_plane_ready reg ≡ true)
        × ((bind_provider reg (registry_find reg name instance_name) required w).0 ≡ some channel)
  unfolding channel_bind
  channel_bind_passed reg name instance_name required w h =
      let (good, call, _) = guarded-some (any_of (bind_conditions reg required)) w _ h in
      let c = any_of-AllFalse (bind_conditions reg required) good in (ground arith, call)

  bind_provider_bound :
      (reg : Registry W) (name instance_name : Option Text) (required : ℕ) (w : W)
      {channel : Channel} (p : Provider W)
      → registry_data_plane_ready reg ≡ true
      → deref reg (registry_find reg name instance_name) ≡ some p
      → (bind_provider reg (registry_find reg name instance_name) required w).0 ≡ some channel
      → BoundTo reg name instance_name required w channel
  bind_provider_bound reg name instance_name required w {channel} p plane e h =
      let step = bind_provider_here reg (registry_find reg name instance_name) required w p e in
      let (fits, call, _) =
        guarded-some (bit_and p.capabilities required != required) w _
          (ap (λ t. t.0) (sym step) ∙ h) in
      let (r, _, made) = with_ready-some reg _ w (λ _ w'. (some _, w')) call in
      let same : some r.provider ≡ some p = sym r.here ∙ e in
      let provider_eq : r.provider ≡ p = cc same in
      let channel_eq : record {
        provider = registry_find reg name instance_name;
        required_capabilities = required;
      }
          ≡ channel =
        cc made in
      record {
        provider = p;
        pointer = ap (λ c. c.provider) (sym channel_eq);
        target = ap (λ c. deref reg c.provider) (sym channel_eq) ∙ e;
        asked = ap (λ c. c.required_capabilities) (sym channel_eq);
        capable = !=_false _ _ fits;
        data_plane = plane;
        ready = rw provider_eq at r.answered;
      }

  -- A bound channel points at the provider of the registry that the names find. That provider has
  -- every capability that was asked for, it has just answered that it is ready, and the data plane
  -- as a whole is.
  pub channel_bind_lem :
      (reg : Registry W) (name instance_name : Option Text) (required : ℕ) (w : W)
      {channel : Channel}
      → (channel_bind reg name instance_name required w).0 ≡ some channel
      → BoundTo reg name instance_name required w channel
  channel_bind_lem reg name instance_name required w h =
      let (plane, call) = channel_bind_passed reg name instance_name required w h in
      elim (Option-cases (deref reg (registry_find reg name instance_name))) [
        | inl null ↦ absurd (
            let g =
              ap (λ t. t.0)
                (sym
                  (bind_provider_null reg (registry_find reg name instance_name) required w null))
              ∙ call in
            cc g)
        | inr (p, e) ↦ bind_provider_bound reg name instance_name required w p plane e call
      ]
