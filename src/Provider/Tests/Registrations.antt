-- ===== src/Provider/Tests/Registrations.antt =====
-- The theorems of the registry at a registry of one provider.
use mem_service.Base.{
  ℕ, ◌+◌, ◌≡◌, refl, true, false, some, [], ◌∷◌, length, arith, ◌&&◌, if◌then◌else◌,
}
use mem_service.Base.Text.{text_eq, strcmp_eq, c_str}
use mem_service.Provider.Types.{Ops, Registry}
use mem_service.Provider.Cap
use mem_service.Provider.State
use mem_service.Provider.Registry.{
  registry_register, registry_find, registry_refresh, registry_data_plane_ready, identity_char,
  identity_chars, identity_text_valid, identity_valid, text_of, ops_refused, ops_valid, find_slot,
  run_probe, probe_failed, register_refused, refresh_provider, refresh_all,
}
use mem_service.Provider.Registry.Lookup.{registry_find-registry_register}
use mem_service.Provider.Registry.Invariant.{IsValid, registry_register-IsValid}
use mem_service.Provider.Registry.Ready.{registry_refresh_fails_closed}
use mem_service.Provider.Tests.{
  test_ops, test_registry, test_registration, test_name, test_instance, other_instance,
}

registered : (registry_register test_registry (test_registration other_instance) 0).0 ≡ true
unfolding registry_register register_refused identity_valid identity_text_valid identity_chars
    identity_char c_str ops_valid ops_refused registry_find find_slot text_eq run_probe probe_failed
registered = refl

test_registry-IsValid : IsValid test_registry
unfolding identity_text_valid identity_chars identity_char c_str ops_valid ops_refused
test_registry-IsValid = record {
  initialized = refl;
  bounded = omega arith;
  providers_valid = (
    record {
      name_valid = refl;
      instance_valid = refl;
      ops_accepted = refl;
      state_known = omega arith;
    },
    tt,
  );
  distinct = (tt, tt);
}

registry_find-registry_register_example :
    registry_find
      (registry_register test_registry (test_registration other_instance) 0).1
      (some test_name)
      (some other_instance)
    ≡ (if strcmp_eq (text_of (some test_name)) test_name
          && strcmp_eq (text_of (some other_instance)) other_instance
        then some (length test_registry.providers)
        else registry_find test_registry (some test_name) (some other_instance))
registry_find-registry_register_example =
    registry_find-registry_register test_registry (test_registration other_instance) 0 test_name
      other_instance registered

registry_register-IsValid_example :
    IsValid (registry_register test_registry (test_registration other_instance) 0).1
registry_register-IsValid_example =
    registry_register-IsValid test_registry (test_registration other_instance) 0
      test_registry-IsValid

-- A registry whose provider does not answer.
abbrev dead_ops : Ops ℕ
dead_ops = record test_ops {
  probe = some (λ context state w. record { rc = 1; out = 1; world = w + 1 });
}

abbrev dead_registry : Registry ℕ
dead_registry = record {
  initialized = true;
  providers =
      record {
        name = test_name;
        instance_name = test_instance;
        capabilities = Cap.valid_mask;
        state = State.ready;
        ops = some dead_ops;
        context = 0;
      }
      ∷ [];
}

dead-failed : (registry_refresh dead_registry 0).0 ≡ false
unfolding registry_refresh refresh_all refresh_provider run_probe probe_failed
dead-failed = refl

registry_refresh_fails_closed_example :
    registry_data_plane_ready (registry_refresh dead_registry 0).1 ≡ false
registry_refresh_fails_closed_example =
    registry_refresh_fails_closed dead_registry 0 (refl, tt) dead-failed
