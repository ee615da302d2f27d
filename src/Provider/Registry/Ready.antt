-- ===== src/Provider/Registry/Ready.antt =====
-- When the data plane counts as ready, and what a failed refresh does to it.
use mem_service.Base.{
  ℕ, ◌<◌, ◌≡◌, refl, ◌↔◌, ◌⊎◌, inl, inr, Bool, true, false, Option, none, some, List, [], ◌∷◌, All,
  arith,
}
use mem_service.Provider.Types.{Provider, Registry, Reply}
use mem_service.Provider.State
use mem_service.Provider.Registry.{
  run_probe, refreshed, refresh_provider, refresh_all, registry_refresh, is_data_plane,
  data_plane_loop, registry_data_plane_ready,
}

module _ {W : Type 0} where
  -- Every data-plane provider is ready.
  abbrev pub AllReady : List (Provider W) → Type 0
  AllReady = All (λ p. (is_data_plane p ≡ false) ⊎ (p.state ≡ State.ready))

  -- Some provider is a data-plane provider.
  abbrev pub SomeDataPlane : List (Provider W) → Type 0
  SomeDataPlane [] = ⊥
  SomeDataPlane (p ∷ ps) = (is_data_plane p ≡ true) ⊎ SomeDataPlane ps

  data_plane_loop_sound :
      (ps : List (Provider W)) (found : Bool)
      → data_plane_loop ps found ≡ true
      → AllReady ps × ((found ≡ true) ⊎ SomeDataPlane ps)
  unfolding data_plane_loop
  data_plane_loop_sound [] found h = (tt, inl h)
  data_plane_loop_sound (p ∷ ps) found h =
      ground (arith, data_plane_loop_sound ps found, data_plane_loop_sound ps true)

  data_plane_loop_complete :
      (ps : List (Provider W)) (found : Bool)
      → AllReady ps
      → (found ≡ true) ⊎ SomeDataPlane ps
      → data_plane_loop ps found ≡ true
  unfolding data_plane_loop
  data_plane_loop_complete [] found h (inl e) = e
  data_plane_loop_complete [] found h (inr impossible) = absurd impossible
  data_plane_loop_complete (p ∷ ps) found (r, h) f =
      ground (arith, data_plane_loop_complete ps found h, data_plane_loop_complete ps true h)

  -- The data plane is ready exactly when there is a data-plane provider and all of them are ready.
  pub registry_data_plane_ready_iff :
      (reg : Registry W)
      → (registry_data_plane_ready reg ≡ true)
        ↔ ((reg.initialized ≡ true) × AllReady reg.providers × SomeDataPlane reg.providers)
  unfolding registry_data_plane_ready
  registry_data_plane_ready_iff reg = (
    λ h. ground (arith, data_plane_loop_sound reg.providers false),
    λ (i, r, s). rw i (data_plane_loop_complete reg.providers false r (inr s)),
  )

  refreshed_failed :
      (p : Provider W) (w : W) (answer : Option (Reply ℕ W))
      → (refreshed p w answer).0 ≡ false
      → (refreshed p w answer).1.state ≡ State.unavailable
  unfolding refreshed
  refreshed_failed p w none h = refl
  refreshed_failed p w (some reply) h = ground arith

  refreshed-capabilities :
      (p : Provider W) (w : W) (answer : Option (Reply ℕ W))
      → (refreshed p w answer).1.capabilities ≡ p.capabilities
  unfolding refreshed
  refreshed-capabilities p w none = refl
  refreshed-capabilities p w (some reply) = ground arith

  refresh_failures :
      (ps : List (Provider W)) (w : W) (found : Bool)
      → All (λ p. is_data_plane p ≡ true) ps
      → 0 < (refresh_all ps w).0
      → data_plane_loop (refresh_all ps w).1 found ≡ false
  unfolding refresh_all data_plane_loop refresh_provider
  refresh_failures [] w found h f = absurd (omega arith)
  refresh_failures (p ∷ ps) w found (d, h) f =
      let answer = run_probe p.ops p.context State.unavailable w in
      ground (
        arith,
        refreshed_failed p w answer,
        refreshed-capabilities p w answer,
        refresh_failures ps (refresh_provider p w).2 true h,
      )

  -- Where all providers serve the data plane, a refresh that fails leaves it not ready.
  pub registry_refresh_fails_closed :
      (reg : Registry W) (w : W)
      → All (λ p. is_data_plane p ≡ true) reg.providers
      → (registry_refresh reg w).0 ≡ false
      → registry_data_plane_ready (registry_refresh reg w).1 ≡ false
  unfolding registry_refresh registry_data_plane_ready
  registry_refresh_fails_closed reg w d h = ground (arith, refresh_failures reg.providers w false d)
