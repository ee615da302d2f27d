-- ===== src/Service/Metadata/Bootstrap.antt =====
-- What a bootstrap that succeeds leaves: a block, its prefix and its group, which agree.
use mem_service.Base.{
  ℕ, take, ◌<◌, ◌≡◌, ◌≢◌, refl, sym, subst, ap, ◌∙◌, Bool, true, false, some, AllTrue-all_of, arith,
}
use mem_service.Base.Text.{
  Text, strlen, c_str, strncmp_eq_iff, snprintf_text, c_str-snprintf_text_copy, c_str-snprintf_text,
}
use mem_service.Service.{Record, MemService, kind_block_meta, kind_request_prefix, state_hot}
use mem_service.Service.Keys.{BlockCtx, build_prefix_key, build_block_key, build_group_key}
use mem_service.Service.Keys.Distinct.{
  IdNoSlash, keys_apart, text_eq-ne, group_key_whole, block_key_whole, prefix_key_whole,
}
use mem_service.Service.Records.{get_record, find_record, has_member, members}
use mem_service.Service.Records.Members.{contains_hash_alike}
use mem_service.Service.Records.Table.{same_key, key_of}
use mem_service.Service.Records.Valid.{IsValid, RecordValid, Puts}
use mem_service.Service.Metadata.{
  done, update_slot, update_block_result, update_prefix_result, put_request_prefix, put_block_meta,
  put_record, result_is_stale, result_next, prefix_is_current, follow_block, bump_version,
  prefix_matches_block_meta, prefix_match_tests,
}
use mem_service.Service.Metadata.Flows.{ok, bootstrap_kvcache, first_placement}
use mem_service.Service.Metadata.Puts.{
  KeepsRecord, PutResult-true, UpdateResult-done, Updated, update_slot_lem, put_record_lem,
}
use mem_service.Service.Metadata.Groups.{Grouped, put_prefix_group_lem}
use mem_service.Service.Metadata.Evolves.{get_record-RecordValid}
use mem_service.Service.Metadata.Histories.{
  KeepsRecord-of_placement, follow_block-KeepsRecord, prefix_key_fits, group_key_fits,
  block_key_fits, block_hash_fits,
}
use mem_service.Service.Metadata.Steps.{
  first_prefix, first_block, hot_block, Steps, bootstrap-Steps,
}
use mem_service.Service.Metadata.Reachable.{stored-RecordValid, snprintf_key}
use mem_service.Service.Metadata.Ownership.{group_put, Puts-here, Puts-elsewhere}

-- A record that a call put, and the validity after it.
module _ (svc t : MemService) (key : Text) (r : Record) (v : IsValid svc) (used : r.in_use ≡ true)
    (fits : strlen key < 96) (named : r.key ≡ snprintf_text 96 key) (good : RecordValid r)
    (e : put_record svc key r ≡ (true, t)) where
  put_whole : Puts svc key r t × IsValid t
  put_whole =
      let (b, p, same) =
        PutResult-true svc key (λ b. b ≡ r)
          (put_record_lem svc key r used (ap key_of named ∙ snprintf_key key fits)) e in
      let p' = subst (λ c. Puts svc key c t) same p in (p', p'.kept v good)

-- A record that a call updated.
module _ (svc t : MemService) (key : Text) (kind : ℕ) (current : Record → Bool)
    (next : Record → Record) (keeps : KeepsRecord next) (r : Record) (v : IsValid svc)
    (was : get_record svc key ≡ some r)
    (e : update_slot svc (find_record svc key) kind current next ≡ (done, t)) where
  updated_whole : Puts svc key (bump_version (next r)) t × IsValid t
  updated_whole =
      let (b, p, (old, there, _, _, same, good)) =
        UpdateResult-done svc key (Updated svc key kind current next)
          (update_slot_lem svc key kind current next keeps v) e in
      let one : old ≡ r = let x = sym there ∙ was in cc in
      let whole : b ≡ bump_version (next r) = same ∙ ap (λ c. bump_version (next c)) one in
      (subst (λ c. Puts svc key c t) whole p, p.kept v good)

module _ (ctx : BlockCtx) (svc : MemService) (r : Record) (t : MemService) (v : IsValid svc)
    (plain : IdNoSlash ctx) (m : Steps ctx svc r t) where
  fits : strlen ctx.block_hash < 96
  fits = block_hash_fits ctx m.block_key m.block_built

  first_group : (g : Record) × Puts svc m.group_key g m.s1 × IsValid m.s1
  first_group =
      let (g, p, grouped) =
        PutResult-true svc m.group_key
          (Grouped svc m.group_key ctx.request_id ctx.group_id ctx.block_hash (first_placement ctx))
          (put_prefix_group_lem svc m.group_key ctx.request_id ctx.group_id ctx.block_hash
            (first_placement ctx) v (group_key_fits ctx m.group_key m.group_built) fits)
          m.group_first in
      (g, p, p.kept v grouped.7)

  prefix_put : Puts m.s1 m.prefix_key (first_prefix ctx m.prefix_key) m.s2 × IsValid m.s2
  unfolding put_request_prefix
  prefix_put =
      put_whole m.s1 m.s2 m.prefix_key (first_prefix ctx m.prefix_key) first_group.2 refl
        (prefix_key_fits ctx m.prefix_key m.prefix_built) refl
        (stored-RecordValid _ ctx.block_hash refl refl refl) m.prefix_first

  block_put : Puts m.s2 m.block_key (first_block ctx m.block_key) m.s3 × IsValid m.s3
  unfolding put_block_meta
  block_put =
      put_whole m.s2 m.s3 m.block_key (first_block ctx m.block_key) prefix_put.1 refl
        (block_key_fits ctx m.block_key m.block_built) refl
        (stored-RecordValid _ ctx.block_hash refl refl refl) m.block_first

  block_updated : Puts m.s3 m.block_key (hot_block ctx m.block_key) m.s4 × IsValid m.s4
  unfolding update_block_result
  block_updated =
      updated_whole m.s3 m.s4 m.block_key kind_block_meta (result_is_stale ctx.result_segment_id)
        (result_next ctx.result_segment_id state_hot)
        (KeepsRecord-of_placement _ (λ r. (refl, refl, refl, refl, refl)))
        (first_block ctx m.block_key) block_put.1 (Puts-here block_put.0) m.result

  block_is : m.block ≡ hot_block ctx m.block_key
  block_is = let x = sym m.fetched ∙ Puts-here block_updated.0 in cc

  block_fits : strlen m.block.block_hash < 96
  block_fits = (get_record-RecordValid m.s4 m.block_key block_updated.1 m.fetched).terminated

  -- The three keys are told apart.
  apart :
      (same_key m.block_key m.prefix_key ≡ false)
      × (same_key m.group_key m.prefix_key ≡ false)
      × (same_key m.prefix_key m.block_key ≡ false)
      × (same_key m.prefix_key m.group_key ≡ false)
      × (same_key m.group_key m.block_key ≡ false)
  apart =
      let (pg, pb, gb) =
        keys_apart ctx ctx ctx plain plain m.prefix_built m.group_built m.block_built in
      let p = prefix_key_whole ctx m.prefix_built in
      let g = group_key_whole ctx m.group_built in
      let b = block_key_whole ctx m.block_built in
      (
        text_eq-ne m.block_key m.prefix_key b p (λ e. pb (sym e)),
        text_eq-ne m.group_key m.prefix_key g p (λ e. pg (sym e)),
        text_eq-ne m.prefix_key m.block_key p b pb,
        text_eq-ne m.prefix_key m.group_key p g pg,
        text_eq-ne m.group_key m.block_key g b gb,
      )

  group_updated :
      (g : Record) × Puts m.s4 m.group_key g m.s5
      × IsValid m.s5
      × (has_member g ctx.block_hash ≡ true)
  unfolding has_member
  group_updated =
      let (key, g, built, p, grouped) =
        group_put ctx m.block m.s4 block_updated.1 block_fits m.group_next in
      let one : key ≡ m.group_key = let x = sym built ∙ m.group_built in cc in
      let copied : m.block.block_hash ≡ snprintf_text 96 ctx.block_hash =
        ap (λ c. c.block_hash) block_is in
      (
        g,
        subst (λ k. Puts m.s4 k g m.s5) one p,
        p.kept block_updated.1 grouped.7,
        sym (
              contains_hash_alike m.block.block_hash ctx.block_hash (members g) (
                ap (λ h. take 96 (c_str h)) copied
                ∙ ap (take 96) (c_str-snprintf_text 96 ctx.block_hash fits)))
            ∙ grouped.8,
      )

  -- The prefix stands as it was put until the block has its result.
  prefix_waits : get_record m.s5 m.prefix_key ≡ some (first_prefix ctx m.prefix_key)
  prefix_waits =
      let (block_prefix, group_prefix, _, _, _) = apart in
      let (g, p, _, _) = group_updated in
      Puts-elsewhere m.prefix_key p group_prefix
      ∙ Puts-elsewhere m.prefix_key block_updated.0 block_prefix
      ∙ Puts-elsewhere m.prefix_key block_put.0 block_prefix
      ∙ Puts-here prefix_put.0

  abbrev followed : Record
  followed = bump_version (follow_block m.block (first_prefix ctx m.prefix_key))

  prefix_updated : Puts m.s5 m.prefix_key followed t × IsValid t
  unfolding update_prefix_result
  prefix_updated =
      updated_whole m.s5 t m.prefix_key kind_request_prefix (prefix_is_current ctx m.block)
        (follow_block m.block) (follow_block-KeepsRecord m.block) (first_prefix ctx m.prefix_key)
        group_updated.2 prefix_waits m.prefix_next

  block_stays : get_record t m.block_key ≡ get_record m.s4 m.block_key
  block_stays =
      let (_, _, prefix_block, _, group_block) = apart in
      let (g, p, _, _) = group_updated in
      Puts-elsewhere m.block_key prefix_updated.0 prefix_block
      ∙ Puts-elsewhere m.block_key p group_block

  answer_is : r ≡ hot_block ctx m.block_key
  answer_is = let x = sym m.answered ∙ block_stays ∙ Puts-here block_updated.0 in cc

  -- The prefix and the block agree on every test.
  agree :
      ctx.result_segment_id ≢ 0
      → prefix_matches_block_meta followed (hot_block ctx m.block_key) ≡ true
  unfolding prefix_matches_block_meta
  agree some_result =
      let last = ap (λ c. c.last_result_segment) block_is in
      let segment = ap (λ c. c.hot_segment_id) block_is in
      let node = ap (λ c. c.placement_node) block_is in
      let level = ap (λ c. c.placement_level) block_is in
      let hot = ap (λ c. c.state) block_is in
      let hashes =
        (strncmp_eq_iff 96 (snprintf_text 96 m.block.block_hash)
            (snprintf_text 96 ctx.block_hash)).1
          (ap (λ c. take 96 (c_str (snprintf_text 96 c.block_hash))) block_is
            ∙ ap (take 96) (c_str-snprintf_text_copy 96 ctx.block_hash (omega arith))) in
      AllTrue-all_of (prefix_match_tests followed (hot_block ctx m.block_key)) (
        refl,
        (
          refl,
          (
            ground (arith, last),
            (
              ground arith,
              (
                hashes,
                (
                  ground (arith, segment),
                  (ground (arith, node), (ground (arith, level), (ground (arith, hot), tt))),
                ),
              ),
            ),
          ),
        ),
      )

-- What a bootstrap leaves in the service: the block it answers, hot and where the context says, its
-- prefix, which matches it, and its group, of which it is a member.
pub record Bootstrapped (ctx : BlockCtx) (r : Record) (t : MemService) : Type 0 where
  pub block_key : Text
  pub prefix_key : Text
  pub group_key : Text
  pub block_built : build_block_key ctx 96 ≡ some block_key
  pub prefix_built : build_prefix_key ctx 96 ≡ some prefix_key
  pub group_built : build_group_key ctx 96 ≡ some group_key
  pub block_there : get_record t block_key ≡ some r
  pub is_block : r.kind ≡ kind_block_meta
  pub is_hot : r.state ≡ state_hot
  pub has_result : r.last_result_segment ≡ ctx.result_segment_id
  pub at_node : r.placement_node ≡ ctx.placement_node
  pub at_level : r.placement_level ≡ ctx.placement_level
  pub at_segment : r.hot_segment_id ≡ ctx.hot_segment_id
  pub prefix : Record
  pub prefix_there : get_record t prefix_key ≡ some prefix
  pub matches : ctx.result_segment_id ≢ 0 → prefix_matches_block_meta prefix r ≡ true
  pub group : Record
  pub group_there : get_record t group_key ≡ some group
  pub member : has_member group ctx.block_hash ≡ true

-- A bootstrap that succeeds on a valid service, for a request id without a slash, answers the block
-- record that stands under the key of the block: hot, with the result and the placement of the
-- context. The prefix record that it leaves matches the block, if the result is not 0, and the group
-- record has the block among its members.
pub bootstrap_kvcache_lem :
    (ctx : BlockCtx) (svc : MemService) {r : Record} {t : MemService}
    → IsValid svc
    → IdNoSlash ctx
    → bootstrap_kvcache ctx svc ≡ (ok r, t)
    → Bootstrapped ctx r t
bootstrap_kvcache_lem ctx svc {r} {t} v plain e =
    let m = bootstrap-Steps ctx svc r t e in
    let is = answer_is ctx svc r t v plain m in
    let (g, p, _, member) = group_updated ctx svc r t v plain m in
    record {
      block_key = m.block_key;
      prefix_key = m.prefix_key;
      group_key = m.group_key;
      block_built = m.block_built;
      prefix_built = m.prefix_built;
      group_built = m.group_built;
      block_there = m.answered;
      is_block = ap (λ c. c.kind) is;
      is_hot = ap (λ c. c.state) is;
      has_result = ap (λ c. c.last_result_segment) is;
      at_node = ap (λ c. c.placement_node) is;
      at_level = ap (λ c. c.placement_level) is;
      at_segment = ap (λ c. c.hot_segment_id) is;
      prefix = followed ctx svc r t v plain m;
      prefix_there = Puts-here (prefix_updated ctx svc r t v plain m).0;
      matches = λ some_result.
          ap (prefix_matches_block_meta (followed ctx svc r t v plain m)) is
          ∙ agree ctx svc r t v plain m some_result;
      group = g;
      group_there =
          Puts-elsewhere m.group_key (prefix_updated ctx svc r t v plain m).0
            (apart ctx svc r t v plain m).3
          ∙ Puts-here p;
      member = member;
    }
