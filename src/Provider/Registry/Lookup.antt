-- ===== src/Provider/Registry/Lookup.antt =====
-- What a registration changes for `registry_find`.
use mem_service.Base.{
  ℕ, ◌+◌, ◌<◌, ◌≡◌, refl, inl, inr, true, false, ◌&&◌, Option, none, some, List, [], ◌∷◌, ◌++◌,
  if◌then◌else◌, any_of-AllFalse, is_some, is_some-false, length, ◌∙◌, Bool-cases, arith,
}
use mem_service.Base.Text.{Text, c_str, strlen, strcmp_eq, c_str-snprintf_text, text_eq→eq}
use mem_service.Provider.Types.{
  Provider, Registry, Registration, Reply, max_providers, provider_name_len, provider_instance_len,
}
use mem_service.Provider.State
use mem_service.Provider.Registry.{
  identity_valid, identity_text_valid, ops_valid, find_slot, registry_find, register_conditions,
  register_refused, run_probe, probe_failed, new_provider, admit, registry_register, text_of,
}
use mathlib.Core.Option

-- The text of a valid identity fits its array with the NUL.
pub identity_valid_bound :
    (t : Option Text) (n : ℕ)
    → identity_valid t n ≡ true
    → (strlen (text_of t) < n) × (identity_text_valid (text_of t) n ≡ true)
unfolding identity_valid
identity_valid_bound none n h = absurd (ground arith)
identity_valid_bound (some s) n h = (unfold identity_text_valid in ground arith, h)

module _ {W : Type 0} where
  -- Everything that a successful registration has checked.
  pub record Admitted (reg : Registry W) (r : Registration W) (w : W) : Type 0 where
    pub initialized : reg.initialized ≡ true
    pub name_fits : strlen (text_of r.name) < provider_name_len
    pub name_valid : identity_text_valid (text_of r.name) provider_name_len ≡ true
    pub instance_fits : strlen (text_of r.instance_name) < provider_instance_len
    pub instance_valid : identity_text_valid (text_of r.instance_name) provider_instance_len ≡ true
    pub ops_accepted : ops_valid r.capabilities r.ops ≡ true
    pub room : length reg.providers < max_providers
    pub fresh : find_slot reg.providers (text_of r.name) (text_of r.instance_name) ≡ none
    pub reply : Reply ℕ W
    pub probed : run_probe r.ops r.context State.unknown w ≡ some reply
    pub probe_passed : probe_failed reply ≡ false
    pub result : registry_register reg r w ≡ (
      true,
      record reg { providers = reg.providers ++ new_provider r reply.out ∷ [] },
      reply.world,
    )

  admit-true :
      (reg : Registry W) (r : Registration W) (w : W) (answer : Option (Reply ℕ W))
      → (admit reg r w answer).0 ≡ true
      → (reply : Reply ℕ W) × (answer ≡ some reply)
        × (probe_failed reply ≡ false)
        × (admit reg r w answer ≡ (
          true,
          record reg { providers = reg.providers ++ new_provider r reply.out ∷ [] },
          reply.world,
        ))
  unfolding admit
  admit-true reg r w none h = absurd (ground arith)
  admit-true reg r w (some reply) h = elim (Bool-cases (probe_failed reply)) [
    | inl bad ↦ absurd (ground arith)
    | inr good ↦ (reply, refl, good, rw good)
  ]

  abbrev Checked : Registry W → Registration W → Type 0
  Checked reg r =
      (reg.initialized ≡ true)
      × (identity_valid r.name provider_name_len ≡ true)
      × (identity_valid r.instance_name provider_instance_len ≡ true)
      × (ops_valid r.capabilities r.ops ≡ true)
      × (length reg.providers < max_providers)
      × (is_some (registry_find reg r.name r.instance_name) ≡ false)

  register_refused-false :
      (reg : Registry W) (r : Registration W) → register_refused reg r ≡ false → Checked reg r
  unfolding register_refused
  register_refused-false reg r h =
      let c = any_of-AllFalse (register_conditions reg r) h in
      (ground arith, ground arith, ground arith, ground arith, ground arith, c.1.1.1.1.1.0)

  registry_register_passed :
      (reg : Registry W) (r : Registration W) (w : W)
      → register_refused reg r ≡ false
      → registry_register reg r w ≡ admit reg r w (run_probe r.ops r.context State.unknown w)
  unfolding registry_register
  registry_register_passed reg r w good = rw good

  registry_register_refused :
      (reg : Registry W) (r : Registration W) (w : W)
      → register_refused reg r ≡ true
      → registry_register reg r w ≡ (false, reg, w)
  unfolding registry_register
  registry_register_refused reg r w bad = rw bad

  find_unfound :
      (reg : Registry W) (name instance_name : Option Text)
      → reg.initialized ≡ true
      → identity_valid name provider_name_len ≡ true
      → identity_valid instance_name provider_instance_len ≡ true
      → is_some (registry_find reg name instance_name) ≡ false
      → find_slot reg.providers (text_of name) (text_of instance_name) ≡ none
  unfolding registry_find identity_valid
  find_unfound reg none instance_name ready n i h = absurd (ground arith)
  find_unfound reg (some name) none ready n i h = absurd (ground arith)
  find_unfound reg (some name) (some instance_name) ready n i h =
      is_some-false (find_slot reg.providers name instance_name) (rw ready at h)

  admitted :
      (reg : Registry W) (r : Registration W) (w : W)
      → register_refused reg r ≡ false
      → (registry_register reg r w).0 ≡ true
      → Admitted reg r w
  admitted reg r w good h =
      let (ready, name_ok, instance_ok, ops_ok, room, unfound) =
        register_refused-false reg r good in
      let (fits, valid) = identity_valid_bound r.name provider_name_len name_ok in
      let (fits', valid') =
        identity_valid_bound r.instance_name provider_instance_len instance_ok in
      let step = registry_register_passed reg r w good in
      let (reply, probed, passed, result) =
        admit-true reg r w (run_probe r.ops r.context State.unknown w) (rw step at h) in
      record {
        initialized = ready;
        name_fits = fits;
        name_valid = valid;
        instance_fits = fits';
        instance_valid = valid';
        ops_accepted = ops_ok;
        room = room;
        fresh = find_unfound reg r.name r.instance_name ready name_ok instance_ok unfound;
        reply = reply;
        probed = probed;
        probe_passed = passed;
        result = step ∙ result;
      }

  -- A registration that answers 0 has passed every check.
  pub registry_register-true :
      (reg : Registry W) (r : Registration W) (w : W)
      → (registry_register reg r w).0 ≡ true
      → Admitted reg r w
  registry_register-true reg r w h = elim (Bool-cases (register_refused reg r)) [
    | inl bad ↦ absurd (let g = rw (registry_register_refused reg r w bad) at h in cc g)
    | inr good ↦ admitted reg r w good h
  ]

  admit-false :
      (reg : Registry W) (r : Registration W) (w : W) (answer : Option (Reply ℕ W))
      → (admit reg r w answer).0 ≡ false
      → (admit reg r w answer).1 ≡ reg
  unfolding admit
  admit-false reg r w none h = refl
  admit-false reg r w (some reply) h = ground arith

  -- Otherwise the registry is as it was.
  pub registry_register-false :
      (reg : Registry W) (r : Registration W) (w : W)
      → (registry_register reg r w).0 ≡ false
      → (registry_register reg r w).1 ≡ reg
  registry_register-false reg r w h = elim (Bool-cases (register_refused reg r)) [
    | inl bad ↦ rw (registry_register_refused reg r w bad)
    | inr good ↦
        let step = registry_register_passed reg r w good in
        rw step (admit-false reg r w _ (rw step at h))
  ]

  find_slot-append :
      (ps : List (Provider W)) (p : Provider W) (name instance_name : Text)
      → find_slot (ps ++ p ∷ []) name instance_name ≡ elim (find_slot ps name instance_name) [
        | none ↦ Option.map (◌+◌ (length ps)) (find_slot (p ∷ []) name instance_name)
        | some i ↦ some i
      ]
  unfolding find_slot
  find_slot-append [] p name instance_name = ground arith
  find_slot-append (q ∷ ps) p name instance_name =
      ground (arith, find_slot-append ps p name instance_name)

  -- Only the texts before the NULs count.
  find_slot-c_str :
      (ps : List (Provider W)) (a b c d : Text)
      → c_str a ≡ c_str b
      → c_str c ≡ c_str d
      → find_slot ps a c ≡ find_slot ps b d
  unfolding find_slot
  find_slot-c_str [] a b c d h k = refl
  find_slot-c_str (p ∷ ps) a b c d h k = rw (h, k, find_slot-c_str ps a b c d h k)

  find_new :
      (r : Registration W) (state : ℕ) (name instance_name : Text)
      → strlen (text_of r.name) < provider_name_len
      → strlen (text_of r.instance_name) < provider_instance_len
      → find_slot (new_provider r state ∷ []) name instance_name ≡ (
          if strcmp_eq (text_of r.name) name && strcmp_eq (text_of r.instance_name) instance_name
          then some 0
          else none)
  unfolding find_slot new_provider
  find_new r state name instance_name fits fits' = rw (
    c_str-snprintf_text provider_name_len (text_of r.name) fits,
    c_str-snprintf_text provider_instance_len (text_of r.instance_name) fits',
  )

  -- A name that the new provider answers to is nowhere before it.
  find-appended :
      (ps : List (Provider W)) (r : Registration W) (state : ℕ) (name instance_name : Text)
      → strlen (text_of r.name) < provider_name_len
      → strlen (text_of r.instance_name) < provider_instance_len
      → find_slot ps (text_of r.name) (text_of r.instance_name) ≡ none
      → find_slot (ps ++ new_provider r state ∷ []) name instance_name ≡ (
          if strcmp_eq (text_of r.name) name && strcmp_eq (text_of r.instance_name) instance_name
          then some (length ps)
          else find_slot ps name instance_name)
  find-appended ps r state name instance_name fits fits' fresh = ground (
    arith,
    find_slot-append ps (new_provider r state) name instance_name,
    find_new r state name instance_name fits fits',
    text_eq→eq (c_str (text_of r.name)) (c_str name),
    text_eq→eq (c_str (text_of r.instance_name)) (c_str instance_name),
    find_slot-c_str ps (text_of r.name) name (text_of r.instance_name) instance_name,
  )

  -- `registry_find` after a successful registration: the new name is found in the slot behind all
  -- others, and the answer for any other pair of names is what it was.
  pub registry_find-registry_register :
      (reg : Registry W) (r : Registration W) (w : W) (name instance_name : Text)
      → (registry_register reg r w).0 ≡ true
      → registry_find (registry_register reg r w).1 (some name) (some instance_name) ≡ (
          if strcmp_eq (text_of r.name) name && strcmp_eq (text_of r.instance_name) instance_name
          then some (length reg.providers)
          else registry_find reg (some name) (some instance_name))
  unfolding registry_find
  registry_find-registry_register reg r w name instance_name h =
      let a = registry_register-true reg r w h in
      let found =
        find-appended reg.providers r a.reply.out name instance_name a.name_fits a.instance_fits
          a.fresh in
      rw (a.result, a.initialized) found
