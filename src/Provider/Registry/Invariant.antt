-- ===== src/Provider/Registry/Invariant.antt =====
-- What holds of every registry that the functions of the library have built.
use mem_service.Base.{
  ℕ, suc, ◌≤◌, ◌<◌, ◌≡◌, refl, sym, subst, ap, Bool, true, false, ◌&&◌, Option, none, some, List,
  [], ◌∷◌, ◌++◌, length, length-append, All, All-append, Bool-cases, arith, inl, inr,
}
use mem_service.Base.Text.{Text, c_str, strlen, strcmp_eq, c_str-snprintf_text}
use mem_service.Provider.Types.{
  Provider, Registry, Registration, Reply, max_providers, provider_name_len, provider_instance_len,
}
use mem_service.Provider.State
use mem_service.Provider.Registry.{
  identity_text_valid, ops_valid, find_slot, registry_init, run_probe, probe_failed, new_provider,
  registry_register, text_of, refreshed, refresh_provider, refresh_all, registry_refresh,
}
use mem_service.Provider.Registry.Lookup.{Admitted, registry_register-true, registry_register-false}

abbrev pub same_identity : {W : Type 0} → Provider W → Provider W → Bool
same_identity p q = strcmp_eq p.name q.name && strcmp_eq p.instance_name q.instance_name

-- Validity of an identity reads the text before the NUL only.
identity_text_valid-c_str :
    (a b : Text) (n : ℕ)
    → c_str a ≡ c_str b
    → identity_text_valid a n ≡ true
    → identity_text_valid b n ≡ true
unfolding identity_text_valid
identity_text_valid-c_str a b n e h = rw (← e) h

module _ {W : Type 0} where
  -- A provider as registration has checked it: valid texts, a complete table of functions, a state
  -- that is one of the enum's.
  pub record ValidProvider (p : Provider W) : Type 0 where
    pub name_valid : identity_text_valid p.name provider_name_len ≡ true
    pub instance_valid : identity_text_valid p.instance_name provider_instance_len ≡ true
    pub ops_accepted : ops_valid p.capabilities p.ops ≡ true
    pub state_known : p.state ≤ State.unavailable

  -- No two providers have both names in common.
  abbrev pub Distinct : List (Provider W) → Type 0
  Distinct [] = Unit
  Distinct (p ∷ ps) = All (λ q. same_identity p q ≡ false) ps × Distinct ps

  pub record IsValid (reg : Registry W) : Type 0 where
    pub initialized : reg.initialized ≡ true
    pub bounded : length reg.providers ≤ max_providers
    pub providers_valid : All ValidProvider reg.providers
    pub distinct : Distinct reg.providers

  registry_init-IsValid : IsValid registry_init
  unfolding registry_init
  registry_init-IsValid = record {
    initialized = refl;
    bounded = omega arith;
    providers_valid = tt;
    distinct = tt;
  }

  new_provider-ValidProvider :
      {reg : Registry W} {r : Registration W} {w : W} (a : Admitted reg r w)
      → ValidProvider (new_provider r a.reply.out)
  unfolding new_provider probe_failed
  new_provider-ValidProvider {r = r} a =
      let passed = a.probe_passed in
      record {
        name_valid =
            identity_text_valid-c_str (text_of r.name) _ provider_name_len
              (sym (c_str-snprintf_text provider_name_len (text_of r.name) a.name_fits))
              a.name_valid;
        instance_valid =
            identity_text_valid-c_str (text_of r.instance_name) _ provider_instance_len
              (sym (
                c_str-snprintf_text provider_instance_len (text_of r.instance_name)
                  a.instance_fits))
              a.instance_valid;
        ops_accepted = a.ops_accepted;
        state_known = ground arith;
      }

  unfound-All :
      (ps : List (Provider W)) (r : Registration W) (state : ℕ)
      → strlen (text_of r.name) < provider_name_len
      → strlen (text_of r.instance_name) < provider_instance_len
      → find_slot ps (text_of r.name) (text_of r.instance_name) ≡ none
      → All (λ q. same_identity q (new_provider r state) ≡ false) ps
  unfolding find_slot new_provider
  unfound-All [] r state f f' h = tt
  unfound-All (p ∷ ps) r state f f' h = ground (
    arith,
    c_str-snprintf_text provider_name_len (text_of r.name) f,
    c_str-snprintf_text provider_instance_len (text_of r.instance_name) f',
    unfound-All ps r state f f',
  )

  Distinct-append :
      (ps : List (Provider W)) (p : Provider W)
      → Distinct ps
      → All (λ q. same_identity q p ≡ false) ps
      → Distinct (ps ++ p ∷ [])
  Distinct-append [] p d h = (tt, tt)
  Distinct-append (q ∷ ps) p (clear, d) (apart, h) = (
    All-append (λ x. same_identity q x ≡ false) ps (p ∷ []) clear (apart, tt),
    Distinct-append ps p d h,
  )

  Admitted-IsValid :
      {reg : Registry W} {r : Registration W} {w : W} (a : Admitted reg r w)
      → IsValid reg
      → IsValid (record reg { providers = reg.providers ++ new_provider r a.reply.out ∷ [] })
  Admitted-IsValid {reg} {r} a v = record {
    initialized = v.initialized;
    bounded = omega (arith, a.room, length-append reg.providers (new_provider r a.reply.out ∷ []));
    providers_valid =
        All-append ValidProvider reg.providers _ v.providers_valid
          (new_provider-ValidProvider a, tt);
    distinct =
        Distinct-append reg.providers _ v.distinct
          (unfound-All reg.providers r a.reply.out a.name_fits a.instance_fits a.fresh);
  }

  -- Whatever is registered, and whether it is admitted or not, the registry stays valid.
  pub registry_register-IsValid :
      (reg : Registry W) (r : Registration W) (w : W)
      → IsValid reg
      → IsValid (registry_register reg r w).1
  registry_register-IsValid reg r w v = elim (Bool-cases (registry_register reg r w).0) [
    | inl done ↦
        let a = registry_register-true reg r w done in
        subst IsValid (sym (ap (λ t. t.1) a.result)) (Admitted-IsValid a v)
    | inr failed ↦ subst IsValid (sym (registry_register-false reg r w failed)) v
  ]

  refreshed-ValidProvider :
      (p : Provider W) (w : W) (answer : Option (Reply ℕ W))
      → ValidProvider p
      → ValidProvider (refreshed p w answer).1
  unfolding refreshed probe_failed
  refreshed-ValidProvider p w none v = ground arith
  refreshed-ValidProvider p w (some reply) v = ground arith

  -- A refresh touches the state of a provider only.
  refreshed-identity :
      (p : Provider W) (w : W) (answer : Option (Reply ℕ W))
      → ((refreshed p w answer).1.name ≡ p.name)
        × ((refreshed p w answer).1.instance_name ≡ p.instance_name)
  unfolding refreshed
  refreshed-identity p w none = (refl, refl)
  refreshed-identity p w (some reply) = (ground arith, ground arith)

  refresh_all-ValidProvider :
      (ps : List (Provider W)) (w : W)
      → All ValidProvider ps
      → All ValidProvider (refresh_all ps w).1
  unfolding refresh_all refresh_provider
  refresh_all-ValidProvider [] w h = tt
  refresh_all-ValidProvider (p ∷ ps) w (v, h) = (
    refreshed-ValidProvider p w (run_probe p.ops p.context State.unavailable w) v,
    refresh_all-ValidProvider ps _ h,
  )

  length-refresh_all : (ps : List (Provider W)) (w : W) → length (refresh_all ps w).1 ≡ length ps
  unfolding refresh_all
  length-refresh_all [] w = refl
  length-refresh_all (p ∷ ps) w = ap suc (length-refresh_all ps _)

  refresh_all-apart :
      (p q : Provider W) (ps : List (Provider W)) (w : W)
      → q.name ≡ p.name
      → q.instance_name ≡ p.instance_name
      → All (λ x. same_identity p x ≡ false) ps
      → All (λ x. same_identity q x ≡ false) (refresh_all ps w).1
  unfolding refresh_all refresh_provider
  refresh_all-apart p q [] w e f h = tt
  refresh_all-apart p q (x ∷ ps) w e f (a, h) =
      let (g, k) = refreshed-identity x w (run_probe x.ops x.context State.unavailable w) in
      (rw (e, f, g, k) a, refresh_all-apart p q ps _ e f h)

  refresh_all-Distinct :
      (ps : List (Provider W)) (w : W) → Distinct ps → Distinct (refresh_all ps w).1
  unfolding refresh_all refresh_provider
  refresh_all-Distinct [] w d = tt
  refresh_all-Distinct (p ∷ ps) w (a, d) =
      let (g, k) = refreshed-identity p w (run_probe p.ops p.context State.unavailable w) in
      (refresh_all-apart p (refresh_provider p w).1 ps _ g k a, refresh_all-Distinct ps _ d)

  refresh_initialized :
      (reg : Registry W) (w : W)
      → reg.initialized ≡ true
      → (registry_refresh reg w).1 ≡ record reg { providers = (refresh_all reg.providers w).1 }
  unfolding registry_refresh
  refresh_initialized reg w h = ground arith

  -- A refresh keeps the registry valid, whatever the probes answer.
  pub registry_refresh-IsValid :
      (reg : Registry W) (w : W) → IsValid reg → IsValid (registry_refresh reg w).1
  registry_refresh-IsValid reg w v =
      subst IsValid (sym (refresh_initialized reg w v.initialized)) (record {
        initialized = v.initialized;
        bounded = omega (arith, length-refresh_all reg.providers w, v.bounded);
        providers_valid = refresh_all-ValidProvider reg.providers w v.providers_valid;
        distinct = refresh_all-Distinct reg.providers w v.distinct;
      })
