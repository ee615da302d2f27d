-- ===== src/Provider/Tests.antt =====
-- A provider with every function, and a registry with it: what the theorems are applied to.
pub mod Registrations
pub mod Channels
pub mod Transfers
pub mod Mappings
pub mod Wires
use mem_service.Base.{
  ℕ, ◌+◌, ◌≡◌, ◌≢◌, ◌≤◌, refl, Bool, true, false, Option, none, some, List, [], ◌∷◌, ◌++◌, All,
  length, inl, inr, arith, replicate, if◌then◌else◌, ◌&&◌,
}
use mem_service.Base.Text.{Text, padded, snprintf_text, strcmp_eq}
use mem_service.Provider.Types.{
  Descriptor, RegionRequest, Region, TransferCompletion, Mapping, VisibilityCompletion,
  RangeRequest, Reply, Ops, Registration, Provider, Registry, Channel, RegionBinding,
  MappingBinding, RemoteRegion, provider_name_len, provider_instance_len, provider_descriptor_len,
  memory_kind_valid, has_bits, has_bits_outside,
}
use mem_service.Provider.Cap
use mem_service.Provider.State

abbrev pub test_descriptor : Descriptor
test_descriptor = record { len = 2; bytes = 8 ∷ 9 ∷ replicate 126 0 }

abbrev pub visible : ℕ → RangeRequest → ℕ → Reply VisibilityCompletion ℕ
visible context request w = record {
  rc = 0;
  out = record { status = 0; visible_bytes = request.len; checksum = request.expected_checksum };
  world = w + 1;
}

-- The state counts the calls.
abbrev pub test_ops : Ops ℕ
test_ops = record {
  probe = some (λ context state w. record { rc = 0; out = State.ready; world = w + 1 });
  register_region = some (λ context request w. record {
    rc = 0;
    out = record {
      handle = 7;
      len = request.len;
      memory_kind = request.memory_kind;
      descriptor = test_descriptor;
    };
    world = w + 1;
  });
  deregister_region = some (λ context handle w. record { rc = 0; out = tt; world = w + 1 });
  submit_transfer = some (λ context request w. record { rc = 0; out = 5; world = w + 1 });
  poll_completion = some (λ context id w. record {
    rc = 0;
    out = record { id = id; status = 0; transferred_bytes = 16; checksum = 99 };
    world = w + 1;
  });
  wait_receive = some (λ context request w. record {
    rc = 0;
    out = record {
      id = 6;
      status = 0;
      transferred_bytes = request.destination.len;
      checksum = request.expected_checksum;
    };
    world = w + 1;
  });
  map_remote_region = some (λ context request w. record {
    rc = 0;
    out = record { handle = 9; base = 4096; len = request.len; memory_kind = request.memory_kind };
    world = w + 1;
  });
  unmap_remote_region = some (λ context handle w. record { rc = 0; out = tt; world = w + 1 });
  publish_range = some visible;
  invalidate_range = some visible;
  wait_range_visible = some visible;
}

-- "shm" and "n0", in memory.
abbrev pub test_name : Text
test_name = b's' ∷ b'h' ∷ b'm' ∷ 0 ∷ []

abbrev pub test_instance : Text
test_instance = b'n' ∷ b'0' ∷ 0 ∷ []

abbrev pub other_instance : Text
other_instance = b'n' ∷ b'1' ∷ 0 ∷ []

abbrev pub test_registration : Text → Registration ℕ
test_registration instance_name = record {
  name = some test_name;
  instance_name = some instance_name;
  capabilities = Cap.valid_mask;
  ops = some test_ops;
  context = 0;
}

abbrev pub test_registry : Registry ℕ
test_registry = record {
  initialized = true;
  providers =
      record {
        name = padded provider_name_len (b's' ∷ b'h' ∷ b'm' ∷ []);
        instance_name = padded provider_instance_len (b'n' ∷ b'0' ∷ []);
        capabilities = Cap.valid_mask;
        state = State.ready;
        ops = some test_ops;
        context = 0;
      }
      ∷ [];
}

abbrev pub test_channel : Channel
test_channel = record { provider = some 0; required_capabilities = Cap.valid_mask }

abbrev pub test_binding : RegionBinding
test_binding = record {
  region = record { handle = 7; len = 64; memory_kind = 1; descriptor = test_descriptor };
  owner = some 0;
  registered = true;
}

abbrev pub test_remote : RemoteRegion
test_remote = record {
  provider_name = padded provider_name_len (b's' ∷ b'h' ∷ b'm' ∷ []);
  len = 64;
  memory_kind = 1;
  descriptor = test_descriptor;
}

abbrev pub test_mapping : MappingBinding
test_mapping = record {
  mapping = record { handle = 9; base = 4096; len = 16; memory_kind = 1 };
  owner = some 0;
  mapped = true;
}
