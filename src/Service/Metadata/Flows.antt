-- ===== src/Service/Metadata/Flows.antt =====
-- The operations of components/mem_service/mem_service_metadata.c on the records of a block context.
-- An operation that fails leaves the state as it is at that point; what it wrote to `resolved_out`
-- by then is not kept. Lines that are printed are left out.
use mem_service.Base.{ℕ, Bool, true, false, Option, none, some, ◌!=◌, if◌then◌else◌}
use mem_service.Base.Text.{Text}
use mem_service.Service.{Record, MemService, state_filled, state_hot}
use mem_service.Service.Records.{get_record}
use mem_service.Service.Keys.{BlockCtx, build_prefix_key, build_group_key, build_block_key}
use mem_service.Service.Metadata.{
  Placement, Rc, failed, done, not_owner, put_prefix_group, put_request_prefix, put_block_meta,
  update_block_result, update_prefix_result, update_prefix_group_from_block, update_block_view,
  update_block_owner,
}

pub data Reply (A : Type 0) : Type 0 where
  ok : A → Reply A
  stop : Rc → Reply A

abbrev pub Action : Type 0 → Type 0
Action A = MemService → Reply A × MemService

abbrev pub continue : {A B : Type 0} → Reply A × MemService → (A → Action B) → Reply B × MemService
continue (ok a, svc) f = f a svc
continue (stop rc, svc) f = (stop rc, svc)

infixl 10 ◌>>=◌ ◌>>◌
abbrev pub ◌>>=◌ : {A B : Type 0} → Action A → (A → Action B) → Action B
◌>>=◌ m f svc = continue (m svc) f

abbrev pub ◌>>◌ : {B : Type 0} → Action (Unit {0}) → Action B → Action B
m >> n = m >>= λ _. n

abbrev pub given_reply : {A : Type 0} → Option A → Reply A
given_reply none = stop failed
given_reply (some a) = ok a

-- `if (… != 0) return -1;` around a call with an output, a call that is told from 0, and a call
-- with more codes; `rc = …; if (rc != 0) return rc;`.
abbrev pub given : {A : Type 0} → Option A → Action A
given o svc = (given_reply o, svc)

abbrev pub fetch : Text → Action Record
fetch key svc = given (get_record svc key) svc

abbrev pub required : Bool × MemService → Reply (Unit {0}) × MemService
required (true, svc) = (ok tt, svc)
required (false, svc) = (stop failed, svc)

abbrev pub require : (MemService → Bool × MemService) → Action (Unit {0})
require call svc = required (call svc)

abbrev pub code_reply : Rc → Reply (Unit {0})
code_reply done = ok tt
code_reply rc = stop rc

abbrev pub strict_reply : Rc → Reply (Unit {0})
strict_reply done = ok tt
strict_reply rc = stop failed

abbrev pub checked : Rc × MemService → Reply (Unit {0}) × MemService
checked (rc, svc) = (code_reply rc, svc)

abbrev pub demanded : Rc × MemService → Reply (Unit {0}) × MemService
demanded (rc, svc) = (strict_reply rc, svc)

abbrev pub check : (MemService → Rc × MemService) → Action (Unit {0})
check call svc = checked (call svc)

abbrev pub demand : (MemService → Rc × MemService) → Action (Unit {0})
demand call svc = demanded (call svc)

abbrev pub first_placement : BlockCtx → Placement
first_placement ctx = record {
  placement_node = ctx.placement_node;
  placement_level = ctx.placement_level;
  hot_segment_id = ctx.hot_segment_id;
  state = state_filled;
  last_result_segment = 0;
}

abbrev pub put_first_group : Text → BlockCtx → MemService → Bool × MemService
put_first_group group_key ctx svc =
    put_prefix_group svc group_key ctx.request_id ctx.group_id ctx.block_hash (first_placement ctx)

abbrev pub put_first_prefix : Text → BlockCtx → MemService → Bool × MemService
put_first_prefix prefix_key ctx svc =
    put_request_prefix svc prefix_key ctx.request_id ctx.prefix_group ctx.group_id ctx.block_hash

abbrev pub put_first_block : Text → BlockCtx → MemService → Bool × MemService
put_first_block block_key ctx svc =
    put_block_meta svc block_key ctx.request_id ctx.prefix_group ctx.group_id ctx.block_hash
      ctx.placement_node ctx.placement_level ctx.hot_segment_id state_filled

unfoldable pub bootstrap_kvcache : BlockCtx → Action Record
bootstrap_kvcache ctx = do
  prefix_key ← given (build_prefix_key ctx 96)
  group_key ← given (build_group_key ctx 96)
  block_key ← given (build_block_key ctx 96)
  require (put_first_group group_key ctx)
  require (put_first_prefix prefix_key ctx)
  require (put_first_block block_key ctx)
  demand (λ svc. update_block_result svc block_key ctx.result_segment_id state_hot)
  block ← fetch block_key
  require (λ svc. update_prefix_group_from_block svc ctx block)
  demand (λ svc. update_prefix_result svc prefix_key ctx block)
  fetch block_key

unfoldable pub update_prefix_metadata : BlockCtx → Record → Action Record
update_prefix_metadata ctx block = do
  prefix_key ← given (build_prefix_key ctx 96)
  check (λ svc. update_prefix_result svc prefix_key ctx block)
  require (λ svc. update_prefix_group_from_block svc ctx block)
  fetch prefix_key

unfoldable pub get_prefix_group_metadata : BlockCtx → Action Record
get_prefix_group_metadata ctx = do group_key ← given (build_group_key ctx 96); fetch group_key

abbrev pub owned_by : BlockCtx → Record → Action (Unit {0})
owned_by ctx current svc =
    if current.placement_node != ctx.placement_node then (stop not_owner, svc) else (ok tt, svc)

-- The three operations on a block differ in the update alone.
unfoldable pub update_owned_block : BlockCtx → (MemService → Text → Rc × MemService) → Action Record
update_owned_block ctx update = do
  block_key ← given (build_block_key ctx 96)
  current ← fetch block_key
  owned_by ctx current
  check (λ svc. update svc block_key)
  resolved ← fetch block_key
  require (λ svc. update_prefix_group_from_block svc ctx resolved)
  λ svc. (ok resolved, svc)

unfoldable pub apply_block_result : BlockCtx → ℕ → ℕ → Action Record
apply_block_result ctx result_segment_id next_state =
    update_owned_block ctx λ svc key. update_block_result svc key result_segment_id next_state

unfoldable pub rebind_block_view : BlockCtx → ℕ → ℕ → Action Record
rebind_block_view ctx hot_segment_id placement_level =
    update_owned_block ctx λ svc key. update_block_view svc key hot_segment_id placement_level

unfoldable pub handoff_block_owner : BlockCtx → ℕ → ℕ → ℕ → Action Record
handoff_block_owner ctx placement_node placement_level hot_segment_id =
    update_owned_block ctx
      λ svc key. update_block_owner svc key placement_node placement_level hot_segment_id
