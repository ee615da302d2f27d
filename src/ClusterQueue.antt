-- ===== src/ClusterQueue.antt =====
-- components/mem_service/mem_service_cluster_queue.c: the descriptors that the nodes of a cluster
-- send each other through single-producer queues, and the descriptors that a node has taken out of
-- a queue and keeps for later.
pub mod Descs
pub mod Runtime
pub mod Pending
pub mod Ingress
pub mod Send
pub mod Barrier
pub mod Objects
pub mod Remote
mod Tests
