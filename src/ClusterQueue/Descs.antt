-- ===== src/ClusterQueue/Descs.antt =====
-- The descriptors, and the tests by which components/mem_service/mem_service_cluster_queue.c tells
-- which of them it waits for. `struct obmm_desc` is laid out in the vendored queue library; its
-- fields are unsigned of 64, 32, 32, 64, 16, 16 and 32 bits. A descriptor is given, never NULL.
pub mod Matching
use mem_service.Base.{
  ℕ, suc, ◌+◌, ◌*◌, ◌/◌, ◌%◌, ◌^◌, bit_xor, Bool, List, [], ◌∷◌, all_of, leb, ◌==◌,
}

-- enum obmm_desc_type: the two kinds that carry objects.
abbrev pub object_put : ℕ
object_put = 8

abbrev pub object_get : ℕ
object_get = 9

abbrev pub kind_weight_tile : ℕ
kind_weight_tile = 1

abbrev pub kind_kvcache_block : ℕ
kind_kvcache_block = 2

abbrev pub kind_hidden_range_input : ℕ
kind_hidden_range_input = 3

abbrev pub kind_hidden_range_output : ℕ
kind_hidden_range_output = 4

abbrev pub kind_hidden_range_runtime_output : ℕ
kind_hidden_range_runtime_output = 5

pub record Desc : Type 0 where
  pub seq : ℕ
  pub region_id : ℕ
  pub payload_len : ℕ
  pub payload_offset : ℕ
  pub desc_type : ℕ
  pub flags : ℕ
  pub cookie : ℕ

-- What `struct mem_service_record` says of where an object lies.
pub record ObjectRecord : Type 0 where
  pub object_backing_offset : ℕ
  pub object_backing_len : ℕ
  pub object_payload_checksum : ℕ

-- `(uint16_t)(desc->seq >> 48)`
abbrev pub epoch_of : Desc → ℕ
epoch_of d = d.seq / 2 ^ 48 % 2 ^ 16

-- `(uint32_t)(checksum ^ (checksum >> 32))`
abbrev pub checksum_cookie : ℕ → ℕ
checksum_cookie checksum = bit_xor checksum (checksum / 2 ^ 32) % 2 ^ 32

unfoldable pub desc_matches_barrier : ℕ → ℕ → Desc → Bool
desc_matches_barrier desc_type epoch d =
    all_of ((d.desc_type == desc_type) ∷ (d.cookie % 2 ^ 16 == epoch) ∷ [])

abbrev pub pending_object_desc_tests : ℕ → ObjectRecord → ℕ → Desc → List Bool
pending_object_desc_tests epoch r kind d =
    (d.desc_type == object_put)
    ∷ (epoch_of d == epoch)
    ∷ (d.flags == kind)
    ∷ (d.payload_offset == r.object_backing_offset)
    ∷ (d.payload_len == r.object_backing_len)
    ∷ (d.cookie == checksum_cookie r.object_payload_checksum)
    ∷ []

unfoldable pub pending_object_desc_matches : ℕ → ObjectRecord → ℕ → Desc → Bool
pending_object_desc_matches epoch r kind d = all_of (pending_object_desc_tests epoch r kind d)

unfoldable pub runtime_range_input_desc_matches : ℕ → ℕ → Desc → Bool
runtime_range_input_desc_matches expected_payload_len epoch d = all_of (
    (d.desc_type == object_put)
    ∷ (d.flags == kind_hidden_range_runtime_output)
    ∷ (d.payload_len == expected_payload_len)
    ∷ (epoch_of d == epoch)
    ∷ [])

unfoldable pub token_result_desc_matches : ℕ → ℕ → ℕ → Desc → Bool
token_result_desc_matches epoch payload_kind payload_len d = all_of (
    (d.desc_type == object_put)
    ∷ (d.flags == payload_kind)
    ∷ (d.payload_len == payload_len)
    ∷ (epoch_of d == epoch)
    ∷ [])

unfoldable pub object_desc_matches : ℕ → ℕ → ℕ → ℕ → Desc → Bool
object_desc_matches epoch payload_kind min_payload_len max_payload_len d = all_of (
    (d.desc_type == object_put)
    ∷ (d.flags == payload_kind)
    ∷ (leb min_payload_len d.payload_len)
    ∷ (leb d.payload_len max_payload_len)
    ∷ (epoch_of d == epoch)
    ∷ [])

unfoldable pub object_desc_kind_len_matches : ℕ → ℕ → ℕ → Desc → Bool
object_desc_kind_len_matches payload_kind min_payload_len max_payload_len d = all_of (
    (d.desc_type == object_put)
    ∷ (d.flags == payload_kind)
    ∷ (leb min_payload_len d.payload_len)
    ∷ (leb d.payload_len max_payload_len)
    ∷ [])

abbrev pub object_ack_tests : Desc → Desc → List Bool
object_ack_tests put ack =
    (ack.desc_type == object_get)
    ∷ (put.desc_type == object_put)
    ∷ (ack.flags == put.flags)
    ∷ (ack.seq == put.seq)
    ∷ (ack.region_id == put.region_id)
    ∷ (ack.payload_len == put.payload_len)
    ∷ (ack.payload_offset == put.payload_offset)
    ∷ (ack.cookie == put.cookie)
    ∷ []

unfoldable pub object_ack_matches : Desc → Desc → Bool
object_ack_matches put ack = all_of (object_ack_tests put ack)

-- The three parts of `seq` do not overlap, so their bitwise or is their sum.
unfoldable pub object_put_desc : ℕ → ℕ → ℕ → ℕ → ℕ → ℕ → Desc
object_put_desc local_idx payload_kind payload_offset payload_len checksum epoch = record {
  seq = epoch * 2 ^ 48 + (local_idx + 1) * 2 ^ 32 + payload_offset % 2 ^ 32;
  region_id = payload_kind;
  payload_len = payload_len % 2 ^ 32;
  payload_offset = payload_offset;
  desc_type = object_put;
  flags = payload_kind % 2 ^ 16;
  cookie = checksum_cookie checksum;
}

unfoldable pub ack_desc : Desc → Desc
ack_desc put = record put { desc_type = object_get }

unfoldable pub barrier_desc : ℕ → ℕ → ℕ → Desc
barrier_desc desc_type epoch publish_seq = record {
  seq = epoch + publish_seq * 2 ^ 16;
  region_id = 0;
  payload_len = 0;
  payload_offset = 0;
  desc_type = desc_type;
  flags = 0;
  cookie = epoch;
}
