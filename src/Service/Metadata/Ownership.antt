-- ===== src/Service/Metadata/Ownership.antt =====
-- A block that is handed to another node is that node's.
use mem_service.Base.{
  ℕ, ◌<◌, ◌≡◌, ◌≢◌, refl, sym, subst, ap, ◌∙◌, inl, inr, true, false, some, Option-cases,
  if◌then◌else◌, List, All, arith,
}
use mem_service.Base.Text.{Text, strlen, text_eq_refl}
use mem_service.Service.{Record, MemService, kind_block_meta}
use mem_service.Service.Keys.{BlockCtx, build_block_key, build_group_key}
use mem_service.Service.Keys.Distinct.{
  block_group_apart, text_eq-ne, group_key_whole, block_key_whole,
}
use mem_service.Service.Records.{get_record}
use mem_service.Service.Records.Table.{key_of, same_key}
use mem_service.Service.Records.Valid.{IsValid, Puts}
use mem_service.Service.Metadata.{
  Rc, done, not_owner, update_prefix_group_from_block, placement_of, bump_version,
  update_block_owner, owner_is_current, owner_next,
}
use mem_service.Service.Metadata.Flows.{ok, stop, update_owned_block, handoff_block_owner}
use mem_service.Service.Metadata.Answers.{given-ok, require-ok, check-ok, owned_by-ok}
use mem_service.Service.Metadata.Puts.{PutResult-true, UpdateResult-done, Updated, update_slot_lem}
use mem_service.Service.Metadata.Groups.{Grouped}
use mem_service.Service.Metadata.Histories.{put_group_of_lem, KeepsRecord-of_placement}
use mem_service.Service.Metadata.Evolves.{Evolves-IsValid}
use mem_service.Service.Metadata.Reachable.{Update, block_owner, perform, perform-Runs}
use mem_service.Service.Metadata.Results.{perform_all, update_owned_block-refused}
use mem_service.Service.Metadata.Owners.{Elsewhere, perform_all-Stays}

-- What an update that was made went through.
pub record Made (ctx : BlockCtx) (update : MemService → Text → Rc × MemService) (svc : MemService)
    (r : Record) (t : MemService) : Type 0 where
  pub key : Text
  pub current : Record
  pub updated : MemService
  pub built : build_block_key ctx 96 ≡ some key
  pub was : get_record svc key ≡ some current
  pub home : current.placement_node ≡ ctx.placement_node
  pub did : update svc key ≡ (done, updated)
  pub now : get_record updated key ≡ some r
  pub grouped : update_prefix_group_from_block updated ctx r ≡ (true, t)

pub update_owned_block-ok :
    (ctx : BlockCtx) (update : MemService → Text → Rc × MemService) (svc : MemService) {r : Record}
    {t : MemService}
    → update_owned_block ctx update svc ≡ (ok r, t)
    → Made ctx update svc r t
unfolding update_owned_block
update_owned_block-ok ctx update svc {r} {t} e =
    let (key, built, e1) = given-ok (build_block_key ctx 96) _ svc e in
    let (current, was, e2) = given-ok (get_record svc key) _ svc e1 in
    let (home, e3) = owned_by-ok _ ctx current svc e2 in
    let (s, did, e4) = check-ok _ (λ svc. update svc key) svc e3 in
    let (resolved, now, e5) = given-ok (get_record s key) _ s e4 in
    let (last, grouped, e6) =
      require-ok _ (λ svc. update_prefix_group_from_block svc ctx resolved) s e5 in
    let same : resolved ≡ r = let x = ap (λ p. p.0) e6 in cc in
    let end : last ≡ t = ap (λ p. p.1) e6 in
    record {
      key = key;
      current = current;
      updated = s;
      built = built;
      was = was;
      home = home;
      did = did;
      now = now ∙ ap some same;
      grouped =
          ap (update_prefix_group_from_block s ctx) (sym same) ∙ grouped ∙ ap (λ u. (true, u)) end;
    }

-- The key of a call that puts a record is looked up as the record.
pub Puts-here :
    {svc t : MemService} {key : Text} {b : Record} → Puts svc key b t → get_record t key ≡ some b
Puts-here {svc} {key = key} {b} p =
    p.looked_up key ∙ ap (λ c. if c then some b else get_record svc key) (text_eq_refl (key_of key))

-- Every other key is looked up as before by a call that puts a record.
pub Puts-elsewhere :
    {svc t : MemService} {key : Text} {b : Record} (j : Text)
    → Puts svc key b t
    → same_key key j ≡ false
    → get_record t j ≡ get_record svc j
Puts-elsewhere {svc} {key = key} {b} j p differ =
    p.looked_up j ∙ ap (λ c. if c then some b else get_record svc j) differ

module _ (ctx : BlockCtx) (block : Record) (svc : MemService) {t : MemService} (v : IsValid svc)
    (fits : strlen block.block_hash < 96)
    (e : update_prefix_group_from_block svc ctx block ≡ (true, t)) where
  -- The record that the update of a group puts.
  pub group_put :
      (key : Text) × (b : Record) × (build_group_key ctx 96 ≡ some key)
      × Puts svc key b t
      × Grouped svc key ctx.request_id ctx.group_id block.block_hash (placement_of block) b
  unfolding update_prefix_group_from_block
  group_put = elim (Option-cases (build_group_key ctx 96)) [
    | inl missing ↦ absurd (
        let e' : (false, svc) ≡ (true, t) = rw missing at e in
        let x = ap (λ p. p.0) e' in ground (arith, x))
    | inr (key, built) ↦
        let (b, p, g) =
          PutResult-true svc key
            (Grouped svc key ctx.request_id ctx.group_id block.block_hash (placement_of block))
            (put_group_of_lem ctx block svc fits v key built) e in
        (key, b, built, p, g)
  ]

  -- It leaves the block as it is.
  pub group_put-block :
      (block_key : Text)
      → build_block_key ctx 96 ≡ some block_key
      → get_record t block_key ≡ get_record svc block_key
  group_put-block block_key built =
      let (key, b, grouped, p, _) = group_put in
      Puts-elsewhere block_key p (
        text_eq-ne key block_key (group_key_whole ctx grouped) (block_key_whole ctx built)
          (block_group_apart ctx ctx grouped built))

-- A handoff that is made puts the block, under its key, where it is told.
handoff_block_owner-placed :
    (ctx : BlockCtx) (node level hot_segment_id : ℕ) (svc : MemService) (key : Text) {r : Record}
    {t : MemService}
    → IsValid svc
    → build_block_key ctx 96 ≡ some key
    → handoff_block_owner ctx node level hot_segment_id svc ≡ (ok r, t)
    → (r.placement_node ≡ node)
      × (r.placement_level ≡ level)
      × (r.hot_segment_id ≡ hot_segment_id)
      × (get_record t key ≡ some r)
unfolding handoff_block_owner update_block_owner
handoff_block_owner-placed ctx node level hot_segment_id svc key {r} {t} v built e =
    let m = update_owned_block-ok ctx _ svc e in
    let (b, p, (old, was, kinded, stale, same, good)) =
      UpdateResult-done svc m.key
        (Updated svc m.key kind_block_meta (owner_is_current node level hot_segment_id)
          (owner_next node level hot_segment_id))
        (update_slot_lem svc m.key kind_block_meta (owner_is_current node level hot_segment_id)
          (owner_next node level hot_segment_id)
          (KeepsRecord-of_placement _ (λ r. (refl, refl, refl, refl, refl))) v)
        m.did in
    let here : b ≡ r = let x = sym (Puts-here p) ∙ m.now in cc in
    let placed : r ≡ bump_version (owner_next node level hot_segment_id old) = sym here ∙ same in
    let fits : strlen r.block_hash < 96 =
      subst (λ c. strlen c.block_hash < 96) here good.terminated in
    let after : get_record t m.key ≡ some r =
      group_put-block ctx r m.updated (p.kept v good) fits m.grouped m.key m.built ∙ m.now in
    (
      ap (λ c. c.placement_node) placed,
      ap (λ c. c.placement_level) placed,
      ap (λ c. c.hot_segment_id) placed,
      let one : m.key ≡ key = let x = sym m.built ∙ built in cc in
          ap (get_record t) (sym one) ∙ after,
    )

-- The block is still a block.
handoff_block_owner-kind :
    (ctx : BlockCtx) (node level hot_segment_id : ℕ) (svc : MemService) {r : Record}
    {t : MemService}
    → IsValid svc
    → handoff_block_owner ctx node level hot_segment_id svc ≡ (ok r, t)
    → r.kind ≡ kind_block_meta
unfolding handoff_block_owner update_block_owner
handoff_block_owner-kind ctx node level hot_segment_id svc {r} v e =
    let m = update_owned_block-ok ctx _ svc e in
    let (b, p, (old, was, kinded, stale, same, good)) =
      UpdateResult-done svc m.key
        (Updated svc m.key kind_block_meta (owner_is_current node level hot_segment_id)
          (owner_next node level hot_segment_id))
        (update_slot_lem svc m.key kind_block_meta (owner_is_current node level hot_segment_id)
          (owner_next node level hot_segment_id)
          (KeepsRecord-of_placement _ (λ r. (refl, refl, refl, refl, refl))) v)
        m.did in
    let here : b ≡ r = let x = sym (Puts-here p) ∙ m.now in cc in
    ap (λ c. c.kind) (sym here ∙ same) ∙ kinded

handoff_block_owner-IsValid :
    (ctx : BlockCtx) (node level hot_segment_id : ℕ) (svc : MemService) {r : Record}
    {t : MemService}
    → IsValid svc
    → handoff_block_owner ctx node level hot_segment_id svc ≡ (ok r, t)
    → IsValid t
unfolding perform
handoff_block_owner-IsValid ctx node level hot_segment_id svc v e =
    let moved = ((perform-Runs (block_owner ctx node level hot_segment_id)).at svc v).0 in
    subst IsValid (ap (λ p. p.1) e) (Evolves-IsValid moved v)

-- On a valid service, a handoff that is made puts the block, under its key, where it is told. And
-- through any updates after it by contexts at other nodes than the one it was handed to, and any of
-- prefixes, the block stays at that node, and any update of it by a context at another node is
-- refused and changes nothing.
pub handoff_block_owner_lem :
    (ctx : BlockCtx) (node level hot_segment_id : ℕ) (svc : MemService) (key : Text) {r : Record}
    {t : MemService} (us : List Update) (other : BlockCtx)
    (update : MemService → Text → Rc × MemService)
    → IsValid svc
    → build_block_key ctx 96 ≡ some key
    → handoff_block_owner ctx node level hot_segment_id svc ≡ (ok r, t)
    → All (Elsewhere node) us
    → build_block_key other 96 ≡ some key
    → other.placement_node ≢ node
    → (r.placement_node ≡ node)
      × (r.placement_level ≡ level)
      × (r.hot_segment_id ≡ hot_segment_id)
      × (get_record t key ≡ some r)
      × ((now : Record) × (get_record (perform_all us t) key ≡ some now)
          × (now.kind ≡ kind_block_meta)
          × (now.placement_node ≡ node))
      × (update_owned_block other update (perform_all us t) ≡ (stop not_owner, perform_all us t))
handoff_block_owner_lem ctx node level hot_segment_id svc key {r} {t} us other update v built e
      elsewhere same_block away =
    let (at_node, at_level, at_segment, there) =
      handoff_block_owner-placed ctx node level hot_segment_id svc key v built e in
    let (now, found, block, home) =
      perform_all-Stays us t key node
        (handoff_block_owner-IsValid ctx node level hot_segment_id svc v e) elsewhere there
        (handoff_block_owner-kind ctx node level hot_segment_id svc v e) at_node in
    (
      at_node,
      at_level,
      at_segment,
      there,
      (now, found, block, home),
      update_owned_block-refused other (perform_all us t) key update same_block found
          (λ same. away (sym same ∙ home)),
    )
