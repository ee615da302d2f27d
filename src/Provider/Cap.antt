-- ===== src/Provider/Cap.antt =====
-- enum mem_service_provider_capability, as bits.
use mem_service.Base.{ℕ}

abbrev pub region_registration : ℕ
region_registration = 1

abbrev pub accelerator_memory : ℕ
accelerator_memory = 16

abbrev pub receive_fence : ℕ
receive_fence = 32

abbrev pub peer_mapping : ℕ
peer_mapping = 64

-- Local transfer (2), peer transfer (4) and durable storage (8).
abbrev pub transfer_mask : ℕ
transfer_mask = 14

abbrev pub data_plane_mask : ℕ
data_plane_mask = 78

abbrev pub valid_mask : ℕ
valid_mask = 127
