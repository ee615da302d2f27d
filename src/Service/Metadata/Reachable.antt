-- ===== src/Service/Metadata/Reachable.antt =====
-- Every state that the metadata operations reach from the set-up of the service.
use mem_service.Base.{
  ℕ, zero, suc, take, ◌<◌, ◌≡◌, refl, sym, ap, Bool, true, Option, List, [], ◌∷◌, All,
  length-replicate, replicate, count, length-take-le, arith,
}
use mem_service.Base.Text.{
  Text, strlen, c_str, snprintf_text, c_str-snprintf_text_cut, c_str-snprintf_text,
}
use mem_service.Service.{
  Record, MemService, init, zero_record, max_records, state_filled, state_hot,
}
use mem_service.Service.Keys.{BlockCtx, build_prefix_key, build_group_key, build_block_key}
use mem_service.Service.Records.{holds}
use mem_service.Service.Records.Table.{key_of}
use mem_service.Service.Records.Valid.{IsValid, RecordValid, is_used, zero_valid}
use mem_service.Service.Metadata.{
  update_block_result, update_block_view, update_block_owner, put_record, put_request_prefix,
  put_block_meta, request_prefix_record, block_meta_record,
}
use mem_service.Service.Metadata.Flows.{
  Action, require, first_placement, put_first_group, put_first_prefix, put_first_block,
  apply_block_result, rebind_block_view, handoff_block_owner, update_prefix_metadata,
  bootstrap_kvcache,
}
use mem_service.Service.Metadata.Puts.{put_record_lem}
use mem_service.Service.Metadata.Groups.{Grouped, put_prefix_group_lem}
use mem_service.Service.Metadata.Evolves.{
  Evolves, here, put, Evolves-IsValid, Runs, Runs-bind, Runs-given, Runs-fetch, Runs-require,
}
use mem_service.Service.Metadata.Histories.{
  Forward, Runs-group, Runs-demanded_result, Runs-demanded_prefix, Runs-prefix_result,
  Runs-owned_block, Runs-block_result, Runs-block_view, Runs-block_owner, prefix_key_fits,
  group_key_fits, block_key_fits, block_hash_fits,
}

-- Any record may be put: what a bootstrap does.
abbrev Any : Option Record → Record → Type 0
Any o b = Unit

Evolves-Any : {s t : MemService} → Evolves Forward s t → Evolves Any s t
Evolves-Any here = here
Evolves-Any (put key b e p good r) = put key b (Evolves-Any e) p good tt

Runs-Any : {A : Type 0} {Q : A → Type 0} (m : Action A) → Runs Forward Q m → Runs Any Q m
Runs-Any m k = record { at = λ svc v. let (e, q) = k.at svc v in (Evolves-Any e, q) }

pub stored-RecordValid :
    (r : Record) (hash : Text)
    → r.member_count ≡ 0
    → r.member_block_hashes ≡ zero_record.member_block_hashes
    → r.block_hash ≡ snprintf_text 96 hash
    → RecordValid r
stored-RecordValid r hash none_yet empty stored = record {
  members = record {
    within = rw none_yet (omega arith);
    slots = rw empty refl;
    distinct = rw none_yet tt;
  };
  terminated =
      rw (stored, c_str-snprintf_text_cut 96 hash) (omega (arith, length-take-le 95 (c_str hash)));
}

-- A record that is put whole, under a key that fits.
Runs-put_record :
    (key : Text) (r : Record)
    → r.in_use ≡ true
    → key_of r.key ≡ key_of key
    → RecordValid r
    → Runs Any (λ _. Unit {0}) (require (λ svc. put_record svc key r))
Runs-put_record key r used named good =
    Runs-require key (λ svc b. b ≡ r) (λ svc. put_record svc key r)
      (λ svc v. put_record_lem svc key r used named) (λ svc b same. (rw same good, tt))

pub snprintf_key : (key : Text) → strlen key < 96 → key_of (snprintf_text 96 key) ≡ key_of key
snprintf_key key fits = ap (take 96) (c_str-snprintf_text 96 key fits)

Runs-first_group :
    (key : Text) (ctx : BlockCtx)
    → strlen key < 96
    → strlen ctx.block_hash < 96
    → Runs Any (λ _. Unit {0}) (require (put_first_group key ctx))
Runs-first_group key ctx fits hashed =
    Runs-require key
      (λ svc. Grouped svc key ctx.request_id ctx.group_id ctx.block_hash (first_placement ctx))
      (put_first_group key ctx)
      (λ svc v.
        put_prefix_group_lem svc key ctx.request_id ctx.group_id ctx.block_hash
          (first_placement ctx) v fits hashed)
      (λ svc b g. (g.7, tt))

Runs-first_prefix :
    (key : Text) (ctx : BlockCtx)
    → strlen key < 96
    → Runs Any (λ _. Unit {0}) (require (put_first_prefix key ctx))
unfolding put_request_prefix
Runs-first_prefix key ctx fits =
    Runs-put_record key
      (request_prefix_record key ctx.request_id ctx.prefix_group ctx.group_id ctx.block_hash) refl
      (snprintf_key key fits) (stored-RecordValid _ ctx.block_hash refl refl refl)

Runs-first_block :
    (key : Text) (ctx : BlockCtx)
    → strlen key < 96
    → Runs Any (λ _. Unit {0}) (require (put_first_block key ctx))
unfolding put_block_meta
Runs-first_block key ctx fits =
    Runs-put_record key
      (block_meta_record key ctx.request_id ctx.prefix_group ctx.group_id ctx.block_hash
        ctx.placement_node ctx.placement_level ctx.hot_segment_id state_filled)
      refl (snprintf_key key fits) (stored-RecordValid _ ctx.block_hash refl refl refl)

pub Runs-bootstrap : (ctx : BlockCtx) → Runs Any RecordValid (bootstrap_kvcache ctx)
unfolding bootstrap_kvcache
Runs-bootstrap ctx =
    Runs-bind _ _ (Runs-given (build_prefix_key ctx 96) (prefix_key_fits ctx)) λ prefix_key fits.
      Runs-bind _ _ (Runs-given (build_group_key ctx 96) (group_key_fits ctx)) λ group_key fits'.
        Runs-bind _ _
          (Runs-given {Q = λ k. (strlen k < 96) × (strlen ctx.block_hash < 96)}
            (build_block_key ctx 96) (λ k e. (block_key_fits ctx k e, block_hash_fits ctx k e)))
          λ block_key hashed. Runs-bind _ _ (Runs-first_group group_key ctx fits' hashed.1) λ _ _.
            Runs-bind _ _ (Runs-first_prefix prefix_key ctx fits) λ _ _.
              Runs-bind _ _ (Runs-first_block block_key ctx hashed.0) λ _ _.
                Runs-bind _ _
                  (Runs-Any _ (Runs-demanded_result ctx.result_segment_id state_hot block_key))
                  λ _ _. Runs-bind _ _ (Runs-fetch block_key) λ block good.
                    Runs-bind _ _ (Runs-Any _ (Runs-group ctx block good.terminated)) λ _ _.
                      Runs-bind _ _ (Runs-Any _ (Runs-demanded_prefix prefix_key ctx block))
                        λ _ _. Runs-fetch block_key

Runs-prefix_metadata :
    (ctx : BlockCtx) (block : Record)
    → strlen block.block_hash < 96
    → Runs Forward RecordValid (update_prefix_metadata ctx block)
unfolding update_prefix_metadata
Runs-prefix_metadata ctx block fits =
    Runs-bind _ _ (Runs-given {Q = λ _. Unit {0}} (build_prefix_key ctx 96) (λ k e. tt)) λ key _.
      Runs-bind _ _ (Runs-prefix_result key ctx block)
        λ _ _. Runs-bind _ _ (Runs-group ctx block fits) λ _ _. Runs-fetch key

-- The operations that update what was set up. The record of a block is a parameter of the first: its
-- hash is a C string in an array of 96.
pub data Update : Type 0 where
  prefix_metadata : (ctx : BlockCtx) (block : Record) → strlen block.block_hash < 96 → Update
  block_result : (ctx : BlockCtx) (result_segment_id next_state : ℕ) → Update
  block_view : (ctx : BlockCtx) (hot_segment_id placement_level : ℕ) → Update
  block_owner : (ctx : BlockCtx) (node level hot_segment_id : ℕ) → Update

unfoldable pub perform : Update → Action Record
perform (prefix_metadata ctx block fits) = update_prefix_metadata ctx block
perform (block_result ctx result_segment_id next_state) =
    apply_block_result ctx result_segment_id next_state
perform (block_view ctx hot_segment_id placement_level) =
    rebind_block_view ctx hot_segment_id placement_level
perform (block_owner ctx node level hot_segment_id) =
    handoff_block_owner ctx node level hot_segment_id

pub perform-Runs : (u : Update) → Runs Forward RecordValid (perform u)
unfolding perform apply_block_result rebind_block_view handoff_block_owner
perform-Runs (prefix_metadata ctx block fits) = Runs-prefix_metadata ctx block fits
perform-Runs (block_result ctx result_segment_id next_state) =
    Runs-owned_block ctx (λ svc key. update_block_result svc key result_segment_id next_state)
      (λ key. Runs-block_result result_segment_id next_state key)
perform-Runs (block_view ctx hot_segment_id placement_level) =
    Runs-owned_block ctx (λ svc key. update_block_view svc key hot_segment_id placement_level)
      (λ key. Runs-block_view key hot_segment_id placement_level)
perform-Runs (block_owner ctx node level hot_segment_id) =
    Runs-owned_block ctx (λ svc key. update_block_owner svc key node level hot_segment_id)
      (λ key. Runs-block_owner key node level hot_segment_id)

pub data Operation : Type 0 where
  bootstrap : BlockCtx → Operation
  update : Update → Operation

unfoldable pub operate : Operation → MemService → MemService
operate (bootstrap ctx) svc = (bootstrap_kvcache ctx svc).1
operate (update u) svc = (perform u svc).1

unfoldable pub operate_all : List Operation → MemService → MemService
operate_all [] svc = svc
operate_all (o ∷ os) svc = operate_all os (operate o svc)

operate-IsValid : (o : Operation) (svc : MemService) → IsValid svc → IsValid (operate o svc)
unfolding operate
operate-IsValid (bootstrap ctx) svc v = Evolves-IsValid ((Runs-bootstrap ctx).at svc v).0 v
operate-IsValid (update u) svc v = Evolves-IsValid ((perform-Runs u).at svc v).0 v

pub operate_all-IsValid :
    (os : List Operation) (svc : MemService) → IsValid svc → IsValid (operate_all os svc)
unfolding operate_all
operate_all-IsValid [] svc v = v
operate_all-IsValid (o ∷ os) svc v =
    operate_all-IsValid os (operate o svc) (operate-IsValid o svc v)

pub zero-unused : (n : ℕ) → count is_used (replicate n zero_record) ≡ 0
unfolding count
zero-unused zero = refl
zero-unused (suc n) = zero-unused n

pub zero-unheld : (k : Text) (n : ℕ) → count (holds k) (replicate n zero_record) ≡ 0
unfolding count
zero-unheld k zero = refl
zero-unheld k (suc n) = zero-unheld k n

pub zero-RecordValid : (n : ℕ) → All RecordValid (replicate n zero_record)
zero-RecordValid zero = tt
zero-RecordValid (suc n) = (zero_valid, zero-RecordValid n)

pub init-IsValid : (control registry durable : Bool) → IsValid (init control registry durable).1
unfolding init
init-IsValid control registry durable = record {
  counted = sym (zero-unused max_records);
  bounded = omega (arith, length-replicate max_records zero_record);
  unique = λ k. omega (arith, zero-unheld k max_records);
  each = zero-RecordValid max_records;
}

-- Whatever metadata operations run on a service that was set up, and whichever fail, `record_count`
-- counts the records in use, no two of them have one key, and a group has at most 4 members, each
-- once.
pub metadata-IsValid :
    (control registry durable : Bool) (os : List Operation)
    → IsValid (operate_all os (init control registry durable).1)
metadata-IsValid control registry durable os =
    operate_all-IsValid os _ (init-IsValid control registry durable)
