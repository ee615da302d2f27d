-- ===== src/Service/Metadata/Steps.antt =====
-- The calls of a bootstrap that succeeds, with the services between them.
use mem_service.Base.{◌≡◌, sym, ap, ◌∙◌, true, some}
use mem_service.Base.Text.{Text}
use mem_service.Service.{Record, MemService, state_hot, state_filled}
use mem_service.Service.Keys.{BlockCtx, build_prefix_key, build_block_key, build_group_key}
use mem_service.Service.Records.{get_record}
use mem_service.Service.Metadata.{
  done, update_block_result, update_prefix_result, update_prefix_group_from_block,
  request_prefix_record, block_meta_record, result_next, bump_version,
}
use mem_service.Service.Metadata.Flows.{
  ok, bootstrap_kvcache, put_first_group, put_first_prefix, put_first_block,
}
use mem_service.Service.Metadata.Answers.{given-ok, given-answer, require-ok, demand-ok}

module _ (ctx : BlockCtx) where
  abbrev pub first_prefix : Text → Record
  first_prefix key =
      request_prefix_record key ctx.request_id ctx.prefix_group ctx.group_id ctx.block_hash

  abbrev pub first_block : Text → Record
  first_block key =
      block_meta_record key ctx.request_id ctx.prefix_group ctx.group_id ctx.block_hash
        ctx.placement_node ctx.placement_level ctx.hot_segment_id state_filled

  -- The block as the bootstrap leaves it.
  abbrev pub hot_block : Text → Record
  hot_block key = bump_version (result_next ctx.result_segment_id state_hot (first_block key))

module _ (ctx : BlockCtx) (svc : MemService) (r : Record) (t : MemService) where
  -- The services between the calls of a bootstrap, with what each call put.
  pub record Steps : Type 0 where
    pub prefix_key : Text
    pub group_key : Text
    pub block_key : Text
    pub prefix_built : build_prefix_key ctx 96 ≡ some prefix_key
    pub group_built : build_group_key ctx 96 ≡ some group_key
    pub block_built : build_block_key ctx 96 ≡ some block_key
    pub s1 : MemService
    pub s2 : MemService
    pub s3 : MemService
    pub s4 : MemService
    pub s5 : MemService
    pub block : Record
    pub group_first : put_first_group group_key ctx svc ≡ (true, s1)
    pub prefix_first : put_first_prefix prefix_key ctx s1 ≡ (true, s2)
    pub block_first : put_first_block block_key ctx s2 ≡ (true, s3)
    pub result : update_block_result s3 block_key ctx.result_segment_id state_hot ≡ (done, s4)
    pub fetched : get_record s4 block_key ≡ some block
    pub group_next : update_prefix_group_from_block s4 ctx block ≡ (true, s5)
    pub prefix_next : update_prefix_result s5 prefix_key ctx block ≡ (done, t)
    pub answered : get_record t block_key ≡ some r

  pub bootstrap-Steps : bootstrap_kvcache ctx svc ≡ (ok r, t) → Steps
  unfolding bootstrap_kvcache
  bootstrap-Steps e =
      let (prefix_key, prefix_built, e1) = given-ok (build_prefix_key ctx 96) _ svc e in
      let (group_key, group_built, e2) = given-ok (build_group_key ctx 96) _ svc e1 in
      let (block_key, block_built, e3) = given-ok (build_block_key ctx 96) _ svc e2 in
      let (s1, group_first, e4) = require-ok _ (put_first_group group_key ctx) svc e3 in
      let (s2, prefix_first, e5) = require-ok _ (put_first_prefix prefix_key ctx) s1 e4 in
      let (s3, block_first, e6) = require-ok _ (put_first_block block_key ctx) s2 e5 in
      let (s4, result, e7) =
        demand-ok _ (λ svc. update_block_result svc block_key ctx.result_segment_id state_hot) s3
          e6 in
      let (block, fetched, e8) = given-ok (get_record s4 block_key) _ s4 e7 in
      let (s5, group_next, e9) =
        require-ok _ (λ svc. update_prefix_group_from_block svc ctx block) s4 e8 in
      let (s6, prefix_next, e10) =
        demand-ok _ (λ svc. update_prefix_result svc prefix_key ctx block) s5 e9 in
      let (answered, last) = given-answer (get_record s6 block_key) s6 e10 in
      record {
        prefix_key = prefix_key;
        group_key = group_key;
        block_key = block_key;
        prefix_built = prefix_built;
        group_built = group_built;
        block_built = block_built;
        s1 = s1;
        s2 = s2;
        s3 = s3;
        s4 = s4;
        s5 = s5;
        block = block;
        group_first = group_first;
        prefix_first = prefix_first;
        block_first = block_first;
        result = result;
        fetched = fetched;
        group_next = group_next;
        prefix_next = prefix_next ∙ ap (λ u. (done, u)) last;
        answered = ap (λ u. get_record u block_key) (sym last) ∙ answered;
      }
