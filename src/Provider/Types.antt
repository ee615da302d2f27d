-- ===== src/Provider/Types.antt =====
-- The types and constants of components/mem_service/mem_service_provider.h.
--
-- A provider is code outside this library: a table of function pointers and a context pointer. It
-- acts on a state `W` that the model does not look into, so each call takes the state and returns
-- it. A function pointer that may be NULL is an `Option`; an address is a number, 0 for NULL; an
-- `int32_t` status or return code is its bit pattern, of which only being 0 is read.
use mem_service.Base.{ℕ, ◌-◌, ◌^◌, Bool, List, Option, bit_and, ◌!=◌, ◌==◌, ◌||◌}
use mem_service.Base.Text.{Text}
use mem_service.Provider.Kind

abbrev pub provider_name_len : ℕ
provider_name_len = 32

abbrev pub provider_instance_len : ℕ
provider_instance_len = 64

abbrev pub provider_descriptor_len : ℕ
provider_descriptor_len = 128

abbrev pub max_providers : ℕ
max_providers = 8

abbrev pub region_wire_version : ℕ
region_wire_version = 1

abbrev pub region_wire_max_len : ℕ
region_wire_max_len = 192

-- `(flags & mask) != 0`
abbrev pub has_bits : ℕ → ℕ → Bool
has_bits flags mask = bit_and flags mask != 0

-- `(flags & ~mask) != 0` on a `uint64_t`.
abbrev pub has_bits_outside : ℕ → ℕ → Bool
has_bits_outside flags mask = bit_and flags (2 ^ 64 - 1 - mask) != 0

unfoldable pub memory_kind_valid : ℕ → Bool
memory_kind_valid kind = kind == Kind.host || (kind == Kind.accelerator || kind == Kind.persistent)

-- `bytes` is the whole array, of which the first `len` bytes count.
pub record Descriptor : Type 0 where
  pub len : ℕ
  pub bytes : List ℕ

pub record RegionRequest : Type 0 where
  pub base : ℕ
  pub len : ℕ
  pub memory_kind : ℕ
  pub flags : ℕ

pub record Region : Type 0 where
  pub handle : ℕ
  pub len : ℕ
  pub memory_kind : ℕ
  pub descriptor : Descriptor

pub record Slice : Type 0 where
  pub region_handle : ℕ
  pub offset : ℕ
  pub len : ℕ
  pub descriptor : Descriptor

pub record TransferRequest : Type 0 where
  pub source : Slice
  pub destination : Slice
  pub expected_checksum : ℕ
  pub flags : ℕ

pub record ReceiveRequest : Type 0 where
  pub destination : Slice
  pub expected_checksum : ℕ
  pub flags : ℕ

pub record TransferCompletion : Type 0 where
  pub id : ℕ
  pub status : ℕ
  pub transferred_bytes : ℕ
  pub checksum : ℕ

pub record MappingRequest : Type 0 where
  pub remote_descriptor : Descriptor
  pub remote_region_len : ℕ
  pub offset : ℕ
  pub len : ℕ
  pub requested_address : ℕ
  pub memory_kind : ℕ
  pub flags : ℕ

pub record Mapping : Type 0 where
  pub handle : ℕ
  pub base : ℕ
  pub len : ℕ
  pub memory_kind : ℕ

pub record RangeRequest : Type 0 where
  pub mapping_handle : ℕ
  pub offset : ℕ
  pub len : ℕ
  pub expected_checksum : ℕ
  pub timeout_ms : ℕ
  pub flags : ℕ

pub record VisibilityCompletion : Type 0 where
  pub status : ℕ
  pub visible_bytes : ℕ
  pub checksum : ℕ

-- What a provider's function hands back: its return code, what its out parameter holds, the state.
pub record Reply (A W : Type 0) : Type 0 where
  pub rc : ℕ
  pub out : A
  pub world : W

-- struct mem_service_provider_ops. The first argument of each is the context; `probe` is also
-- given what its out parameter holds before the call.
pub record Ops (W : Type 0) : Type 0 where
  pub probe : Option (ℕ → ℕ → W → Reply ℕ W)
  pub register_region : Option (ℕ → RegionRequest → W → Reply Region W)
  pub deregister_region : Option (ℕ → ℕ → W → Reply (Unit {0}) W)
  pub submit_transfer : Option (ℕ → TransferRequest → W → Reply ℕ W)
  pub poll_completion : Option (ℕ → ℕ → W → Reply TransferCompletion W)
  pub wait_receive : Option (ℕ → ReceiveRequest → W → Reply TransferCompletion W)
  pub map_remote_region : Option (ℕ → MappingRequest → W → Reply Mapping W)
  pub unmap_remote_region : Option (ℕ → ℕ → W → Reply (Unit {0}) W)
  pub publish_range : Option (ℕ → RangeRequest → W → Reply VisibilityCompletion W)
  pub invalidate_range : Option (ℕ → RangeRequest → W → Reply VisibilityCompletion W)
  pub wait_range_visible : Option (ℕ → RangeRequest → W → Reply VisibilityCompletion W)

pub record Registration (W : Type 0) : Type 0 where
  pub name : Option Text
  pub instance_name : Option Text
  pub capabilities : ℕ
  pub ops : Option (Ops W)
  pub context : ℕ

-- `name` and `instance_name` are the character arrays.
pub record Provider (W : Type 0) : Type 0 where
  pub name : Text
  pub instance_name : Text
  pub capabilities : ℕ
  pub state : ℕ
  pub ops : Option (Ops W)
  pub context : ℕ

-- `providers` is the part of the array in use: `count` is its length.
pub record Registry (W : Type 0) : Type 0 where
  pub initialized : Bool
  pub providers : List (Provider W)

-- A `struct mem_service_provider *` points into the registry's array: it is the slot's index.
abbrev pub ProviderPtr : Type 0
ProviderPtr = Option ℕ

pub record Channel : Type 0 where
  pub provider : ProviderPtr
  pub required_capabilities : ℕ

pub record RegionBinding : Type 0 where
  pub region : Region
  pub owner : ProviderPtr
  pub registered : Bool

pub record MappingBinding : Type 0 where
  pub mapping : Mapping
  pub owner : ProviderPtr
  pub mapped : Bool

pub record RemoteRegion : Type 0 where
  pub provider_name : Text
  pub len : ℕ
  pub memory_kind : ℕ
  pub descriptor : Descriptor
