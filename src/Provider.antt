-- ===== src/Provider.antt =====
-- components/mem_service/mem_service_provider.h and mem_service_provider.c: the registry of
-- data-plane providers, the wire form of a remote region, and the channels through which a
-- provider is used. The fixture check at the end of the C file is not modelled.
pub mod Cap
pub mod State
pub mod Kind
pub mod Types
pub mod Registry
pub mod Wire
pub mod Checksum
pub mod Channel
pub mod Region
pub mod Transfer
pub mod Mapping
mod Tests
