-- ===== src/Service/Metadata/Owners.antt =====
-- Who a block belongs to: only the node of a block takes it from there, through any updates.
use mem_service.Base.{
  ℕ, ◌<◌, ◌≡◌, ◌≢◌, refl, sym, subst, ap, ◌∙◌, inl, inr, Bool, true, false, Option, none, some,
  List, [], ◌∷◌, All, Option-cases, Bool-cases, if◌then◌else◌, ◌==◌, ◌&&◌, ◌!=◌, arith,
}
use mem_service.Base.Text.{Text, strlen}
use mem_service.Service.{Record, MemService, kind_block_meta, kind_request_prefix}
use mem_service.Service.Keys.{BlockCtx, build_prefix_key, build_group_key, build_block_key}
use mem_service.Service.Records.{get_record}
use mem_service.Service.Records.Table.{same_key}
use mem_service.Service.Records.Valid.{IsValid, RecordValid}
use mem_service.Service.Metadata.{
  Rc, Placement, update_block_result, update_block_view, update_block_owner, owner_is_current,
  owner_next, update_prefix_result, follow_block, update_prefix_group_from_block, placement_of,
  prefix_is_current, result_is_stale, result_next,
}
use mem_service.Service.Metadata.Flows.{
  require, check, update_owned_block, apply_block_result, rebind_block_view, handoff_block_owner,
  update_prefix_metadata,
}
use mem_service.Service.Metadata.Puts.{UpdateResult, Updated, update_slot_lem}
use mem_service.Service.Metadata.Groups.{Grouped}
use mem_service.Service.Metadata.Evolves.{
  Evolves, here, put, Evolves-IsValid, Evolves-trans, Runs, Post, Runs-bind, Runs-given, Runs-fetch,
  Runs-require, Runs-check, Runs-answer, continue-Runs, update_moves, any_code,
}
use mem_service.Service.Metadata.Histories.{
  put_group_of_lem, KeepsRecord-of_placement, follow_block-KeepsRecord,
}
use mem_service.Service.Metadata.Reachable.{
  Update, prefix_metadata, block_result, block_view, block_owner, perform,
}
use mem_service.Service.Metadata.Results.{perform_all, get_record-same_key}

-- What is put where a block of the node was is a block of the node.
unfoldable pub Stays : ℕ → Option Record → Record → Type 0
Stays n none b = Unit
Stays n (some r) b =
    r.kind ≡ kind_block_meta
    → r.placement_node ≡ n
    → (b.kind ≡ kind_block_meta) × (b.placement_node ≡ n)

-- The update is not by a context at the node. That of a prefix is by no owner.
unfoldable pub Elsewhere : ℕ → Update → Type 0
Elsewhere n (prefix_metadata ctx block fits) = Unit
Elsewhere n (block_result ctx result_segment_id next_state) = ctx.placement_node ≢ n
Elsewhere n (block_view ctx hot_segment_id placement_level) = ctx.placement_node ≢ n
Elsewhere n (block_owner ctx node level hot_segment_id) = ctx.placement_node ≢ n

module _ (n : ℕ) where
  -- The group of a block is no block.
  Grouped-Stays :
      (svc : MemService) (key request_id group_id block_hash : Text) (p : Placement) (b : Record)
      → Grouped svc key request_id group_id block_hash p b
      → RecordValid b × Stays n (get_record svc key) b
  unfolding Stays
  Grouped-Stays svc key request_id group_id block_hash p b (true, base, r, was, _, _, _, good, _) =
      (good, rw was tt)
  Grouped-Stays svc key request_id group_id block_hash p b
        (false, base, r, was, kinded, _, _, good, _) =
      (good, rw was (λ block home. absurd (let x = sym kinded ∙ block in ground (arith, x))))

  Runs-group :
      (ctx : BlockCtx) (block : Record)
      → strlen block.block_hash < 96
      → Runs
          (Stays n)
          (λ _. Unit {0})
          (require (λ svc. update_prefix_group_from_block svc ctx block))
  unfolding update_prefix_group_from_block
  Runs-group ctx block fits = elim (Option-cases (build_group_key ctx 96)) [
    | inr (key, e) ↦
        Runs-require key
          (λ svc. Grouped svc key ctx.request_id ctx.group_id block.block_hash (placement_of block))
          (λ svc. update_prefix_group_from_block svc ctx block)
          (λ svc v. put_group_of_lem ctx block svc fits v key e)
          (λ svc b h.
            Grouped-Stays svc key ctx.request_id ctx.group_id block.block_hash (placement_of block)
              b h)
    | inl none_built ↦ record { at = λ svc v. rw none_built (here, tt) }
  ]

  Runs-prefix :
      (key : Text) (ctx : BlockCtx) (block : Record)
      → Runs (Stays n) (λ _. Unit {0}) (check (λ svc. update_prefix_result svc key ctx block))
  unfolding update_prefix_result Stays
  Runs-prefix key ctx block =
      Runs-check key
        (λ svc.
          Updated svc key kind_request_prefix (prefix_is_current ctx block) (follow_block block))
        (λ svc. update_prefix_result svc key ctx block)
        (λ svc v.
          update_slot_lem svc key kind_request_prefix (prefix_is_current ctx block)
            (follow_block block) (follow_block-KeepsRecord block) v)
        (λ svc b (r, was, kinded, stale, same, good).
          (good, rw was (λ e home. absurd (let x = sym kinded ∙ e in ground (arith, x)))))

  Runs-prefix_metadata :
      (ctx : BlockCtx) (block : Record)
      → strlen block.block_hash < 96
      → Runs (Stays n) RecordValid (update_prefix_metadata ctx block)
  unfolding update_prefix_metadata
  Runs-prefix_metadata ctx block fits =
      Runs-bind _ _ (Runs-given {Q = λ _. Unit {0}} (build_prefix_key ctx 96) (λ k e. tt)) λ key _.
        Runs-bind _ _ (Runs-prefix key ctx block)
          λ _ _. Runs-bind _ _ (Runs-group ctx block fits) λ _ _. Runs-fetch key

  -- An update by a context that is elsewhere finds a block that is elsewhere, or changes nothing.
  module _ (ctx : BlockCtx) (away : ctx.placement_node ≢ n)
      (update : MemService → Text → Rc × MemService) (current : Record → Bool)
      (next : Record → Record)
      (updates : (svc : MemService) (key : Text)
        → IsValid svc
        → UpdateResult svc key
            (Updated svc key kind_block_meta current next)
            (update svc key)) where
    update-Stays :
        (svc : MemService) (key : Text) {cur : Record}
        → IsValid svc
        → get_record svc key ≡ some cur
        → cur.placement_node ≡ ctx.placement_node
        → Evolves (Stays n) svc (check (λ svc. update svc key) svc).1
          × Post {A = Unit {0}} (λ _. Unit {0}) (check (λ svc. update svc key) svc).0
    unfolding Stays
    update-Stays svc key {cur} v found home = (
      update_moves key (Updated svc key kind_block_meta current next) svc (update svc key)
          (updates svc key v)
          (λ b (r, was, kinded, stale, same, good).
            let one : ◌≡◌ {A = Option Record} (some r) (some cur) = sym was ∙ found in
            let at : r.placement_node ≡ ctx.placement_node =
              let x : r ≡ cur = cc in ap (λ c. c.placement_node) x ∙ home in
            (good, rw was (λ block there. absurd (away (sym at ∙ there))))),
      any_code (update svc key).0,
    )

    Runs-owned_block : Runs (Stays n) RecordValid (update_owned_block ctx update)
    unfolding update_owned_block
    Runs-owned_block = record {
      at = λ svc v. elim (Option-cases (build_block_key ctx 96)) [
        | inl missing ↦ rw missing (here, tt)
        | inr (key, built) ↦ elim (Option-cases (get_record svc key)) [
          | inl missing ↦ rw (built, missing) (here, tt)
          | inr (cur, found) ↦ elim (Bool-cases (cur.placement_node != ctx.placement_node)) [
            | inl moved ↦ rw (built, found, moved) (here, tt)
            | inr kept ↦
                let home : cur.placement_node ≡ ctx.placement_node = ground arith in
                rw (built, found, kept)
                  (continue-Runs {R = Stays n} (check (λ svc. update svc key) svc) svc _ v
                    (update-Stays svc key v found home)
                    (λ _ _. Runs-bind _ _ (Runs-fetch key) λ resolved good.
                      Runs-bind _ _ (Runs-group ctx resolved good.terminated)
                        λ _ _. Runs-answer resolved good))
          ]
        ]
      ];
    }

  perform-Stays : (u : Update) → Elsewhere n u → Runs (Stays n) RecordValid (perform u)
  unfolding perform apply_block_result rebind_block_view handoff_block_owner update_block_result
      update_block_view update_block_owner Elsewhere
  perform-Stays (prefix_metadata ctx block fits) away = Runs-prefix_metadata ctx block fits
  perform-Stays (block_result ctx segment next_state) away =
      Runs-owned_block ctx away (λ svc key. update_block_result svc key segment next_state)
        (result_is_stale segment) (result_next segment next_state)
        (λ svc key v.
          update_slot_lem svc key kind_block_meta _ _
            (KeepsRecord-of_placement _ (λ r. (refl, refl, refl, refl, refl))) v)
  perform-Stays (block_view ctx hot_segment_id placement_level) away =
      Runs-owned_block ctx away
        (λ svc key. update_block_view svc key hot_segment_id placement_level)
        (λ r. r.hot_segment_id == hot_segment_id && r.placement_level == placement_level)
        (λ r. record r { hot_segment_id = hot_segment_id; placement_level = placement_level })
        (λ svc key v.
          update_slot_lem svc key kind_block_meta _ _
            (KeepsRecord-of_placement _ (λ r. (refl, refl, refl, refl, refl))) v)
  perform-Stays (block_owner ctx node level hot_segment_id) away =
      Runs-owned_block ctx away (λ svc key. update_block_owner svc key node level hot_segment_id)
        (owner_is_current node level hot_segment_id) (owner_next node level hot_segment_id)
        (λ svc key v.
          update_slot_lem svc key kind_block_meta _ _
            (KeepsRecord-of_placement _ (λ r. (refl, refl, refl, refl, refl))) v)

  abbrev pub Held : Option Record → Type 0
  Held o = (r : Record) × (o ≡ some r) × (r.kind ≡ kind_block_meta) × (r.placement_node ≡ n)

  Evolves-Held :
      {svc t : MemService} (key : Text)
      → Evolves (Stays n) svc t
      → Held (get_record svc key)
      → Held (get_record t key)
  unfolding Stays
  Evolves-Held key here h = h
  Evolves-Held {svc} key (put {t} {u} k b e p good f) h =
      let (s, now, block, home) = Evolves-Held key e h in
      elim (Bool-cases (same_key k key)) [
        | inl same ↦
            let (block', home') =
              subst (λ o. Stays n o b) (get_record-same_key t k key same ∙ now) f block home in
            (
              b,
              p.looked_up key ∙ ap (λ c. if c then some b else get_record t key) same,
              block',
              home',
            )
        | inr differ ↦ (
          s,
          p.looked_up key ∙ ap (λ c. if c then some b else get_record t key) differ ∙ now,
          block,
          home,
        )
      ]

perform_all-Evolves :
    (us : List Update) (svc : MemService) (n : ℕ)
    → IsValid svc
    → All (Elsewhere n) us
    → Evolves (Stays n) svc (perform_all us svc)
unfolding perform_all
perform_all-Evolves [] svc n v away = here
perform_all-Evolves (u ∷ us) svc n v (away, others) =
    let e = ((perform-Stays n u away).at svc v).0 in
    Evolves-trans e (perform_all-Evolves us (perform u svc).1 n (Evolves-IsValid e v) others)

pub perform_all-IsValid :
    (us : List Update) (svc : MemService) (n : ℕ)
    → IsValid svc
    → All (Elsewhere n) us
    → IsValid (perform_all us svc)
perform_all-IsValid us svc n v away = Evolves-IsValid (perform_all-Evolves us svc n v away) v

-- Through any updates of a valid service by contexts at other nodes, and any of prefixes, whichever
-- fail, a block of a node stays under its key and stays a block of that node.
pub perform_all-Stays :
    (us : List Update) (svc : MemService) (key : Text) (node : ℕ) {r : Record}
    → IsValid svc
    → All (Elsewhere node) us
    → get_record svc key ≡ some r
    → r.kind ≡ kind_block_meta
    → r.placement_node ≡ node
    → (r' : Record) × (get_record (perform_all us svc) key ≡ some r')
      × (r'.kind ≡ kind_block_meta)
      × (r'.placement_node ≡ node)
perform_all-Stays us svc key node {r} v away found block home =
    Evolves-Held node key (perform_all-Evolves us svc node v away) (r, found, block, home)
