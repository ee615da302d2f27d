-- ===== src/Lib.antt =====
-- A model of mem_service, a memory service for inference clusters, and what holds of it.
--
-- The program. A node of the service moves payloads through *providers*: tables of function pointers
-- (TCP, RoCE, OBMM) that are registered under a name and an instance. A client binds a *channel* to a
-- provider and, through it, registers regions of memory, exports them to peers in a *wire form*,
-- transfers ranges, maps regions of peers and makes ranges of a mapping visible. The nodes of an OBMM
-- cluster tell each other of objects and rounds by *descriptors* in single-producer queues. A node
-- keeps track of the expert weights that it holds in an *expert cache*. The daemon of a node keeps
-- *records* of payloads, the requests that it has answered, and a log of them.
--
-- Provider (components/mem_service/mem_service_provider.h and mem_service_provider.c, up to the
-- fixture at line 854):
--   Provider/Types     the structures and constants of the header; Cap, State, Kind: its enums
--   Provider/Registry  registry_init, registry_register, registry_find, registry_refresh,
--                      registry_ready_count, registry_data_plane_ready
--   Provider/Wire      remote_region_encode and remote_region_decode; Wire/Words: the wire_put and
--                      wire_get functions
--   Provider/Checksum  checksum64
--   Provider/Channel   channel_ready, channel_bind
--   Provider/Region    channel_register_region, channel_export_region, channel_deregister_region
--   Provider/Transfer  channel_submit_transfer, channel_poll_transfer, channel_transfer,
--                      channel_wait_receive
--   Provider/Mapping   channel_map_remote_region, channel_unmap_remote_region, and the range
--                      operations publish, invalidate and wait visible
-- ExpertCache (components/mem_service/mem_service_expert_cache.h and mem_service_expert_cache.c): all
-- functions. touch, preload and the statistics are those of the C file; find, remove_at, fill_latency
-- and ceil_div are its static helpers.
-- ClusterQueue (components/mem_service/mem_service_cluster_queue.c, over the runtime structure of
-- mem_service_guest_runtime.h):
--   ClusterQueue/Descs    the tests on descriptors, and the descriptors that are built
--   ClusterQueue/Runtime  the runtime structure, and the environment that is called
--   ClusterQueue/Pending  the take_pending functions, which are one function of a test, and
--                         stash_pending_desc
--   ClusterQueue/Ingress  pop_ingress_desc, with update_region_range_at of mem_service_cluster_utils.c
--   ClusterQueue/Send     push_obmm_object_descs, try_push_obmm_object_desc_to, ack_obmm_object_desc_to
--   ClusterQueue/Barrier  queue_barrier
--   ClusterQueue/Objects  wait_obmm_object_ack_from
--   ClusterQueue/Remote   wait_remote_obmm_object_descs
-- Service, the state that a daemon keeps (struct mem_service of components/mem_service/mem_service.h):
--   Service             the structures, and mem_service_init
--   Service/Records     mem_service_records.c: the table of records and the members of a group
--   Service/Keys        mem_service_keys.c: the names of records
--   Service/Metadata    the static functions of mem_service_metadata.c, each on one record, those that
--                       put one in Stored; Flows: the operations that call them (bootstrap_kvcache,
--                       update_prefix_metadata, apply_block_result, rebind_block_view,
--                       handoff_block_owner)
--   Service/Payload     mem_service_wire_payload.h and the readers of mem_service_daemon.c: lines
--                       `name=value`
--   Service/Idempotency try_idempotency_replay and complete_idempotency_record of
--                       mem_service_daemon.c, with what they call
--   Service/Retention   apply_checkpoint_retention and apply_record_retention of the same file
--   Service/Audit       append_audit_event, apply_audit_retention, and the events that audit_log lists;
--                       Log: the two as handle_operation_with_limits runs them for a list of requests
--   Service/Operation   handle_operation_with_limits, which calls the functions of the last three, and the
--                       functions that estimate how many records a request adds
-- A metadata operation looks a record up under a key of Keys, changes it, and passes the change on to
-- the record of the group. A request that writes is first looked up by Idempotency, then run, then
-- completed there, and is audited at the end; after a write that went well retention gives records up,
-- and with a record its payload block and the idempotency records whose response names it.
-- Base holds what these share: tests on numbers, guards as lists of conditions, lists, C strings.
-- A file that is named for an operation's property (Done, Ownership, Recency, …) holds proofs; the
-- Tests modules hold concrete runs.
--
-- How the code is modelled. Unsigned integers are natural numbers, and arithmetic that can wrap has
-- its `% 2 ^ w` written out; an `int32_t` status is its bit pattern. A return code that is only told
-- from 0 is a Bool, and a call with an output is an Option: `none` is the failure. A structure that is
-- passed by a pointer is a value, and the argument NULL, which the functions refuse where they look for
-- it, has none; a pointer that may be NULL behind the interface (the names, the functions of a
-- provider) is an Option. A pointer to a provider is its slot in the registry that the channel was bound in. A guard
-- of several conditions is the list of the conditions; they have no effects, so their order is not
-- kept where a function pointer is looked up first.
--
-- What a provider does is not in this library: its functions are parameters that act on a state W of
-- any kind, and no property assumes anything about them. Memory behind a mapping is read out of the
-- same state. In ClusterQueue the queue library (libs/obmm_queue), the clock and the ioctl are a
-- record of functions on a state; mem_service_activate_remote_slot of mem_service_cluster_runtime.c
-- is a parameter too. Four hypotheses speak of them: Receives and Sends say that a pop
-- and a push that succeed make a predicate true which stays true, and so define what has arrived and
-- what was sent; Clock says that time is not turned back and that a sleep of 1000 microseconds moves
-- the millisecond clock on; Finite says besides that peers send finitely many descriptors. The Tests
-- build such an environment.
--
-- Loops over arrays are structural. The loops of ClusterQueue that wait for a deadline run on fuel,
-- where `none` is a run that uses it up. For the sends, fuel of the deadline's 300000 ms and 2 is
-- enough on such a clock. The loop that drains a queue has no bound in the code either: it ends when a
-- pop finds the queue empty, so the barrier and the waits also need fuel for the descriptors that are
-- still to come. That the sends of a single acknowledgement end is not stated by itself.
--
-- In Service an array of bytes is the list of its bytes, and a copy into it is `snprintf_text`, which
-- cuts and pads with zeroes; the bytes that snprintf would leave behind the NUL are not told from
-- zeroes. The sums of lengths that Keys tests are those of a size_t, and a copy that would leave the
-- array of a key has no result. The operations of Metadata/Flows are in a monad of a state and a result, where a call that
-- fails leaves what was written before it. The table has the length that it is given: 1024 after
-- mem_service_init, fewer in the Tests. The loops of retention are on fuel, one more than the records
-- over the limit. In Audit the reader of a number, which is strtoull, is a parameter. In Operation the handlers behind
-- mem_service_dispatch_operation are a parameter that may do anything; two hypotheses speak of them,
-- that a handler leaves the idempotency records alone and that it leaves a valid table. Fuel of 1025,
-- one more than the records of a table, is enough for a request. A failure of the journal or the store
-- is seen as one Bool of the request, and what they write is not modelled. The removal of a
-- file of a payload block is not modelled, only for which records it is asked.
--
-- Not modelled: the handlers of the operations, the store and the socket loop of the daemon, its metrics but
-- for two counters, the text of a response, the frames of the wire protocol, the client, object references,
-- the flows of models over the service, the providers themselves, printing, and the vendored queue
-- library, helpers and kernel headers.
pub mod Base
pub mod Provider
pub mod ExpertCache
pub mod ClusterQueue
pub mod Service
