-- ===== src/Service/Metadata/Histories.antt =====
-- The operations on the records of a block context, as histories: what holds throughout.
use mem_service.Base.{
  ℕ, ◌≤◌, ◌<◌, ◌≡◌, refl, sym, ap, ◌∙◌, inl, inr, Bool, true, false, Option, none, some, [],
  Option-cases, ◌==◌, ◌&&◌, length-take-le, arith,
}
use mem_service.Base.Text.{Text, strlen, c_str, c_str-snprintf_text_cut}
use mem_service.Service.{Record, MemService, kind_block_meta, kind_request_prefix}
use mem_service.Service.Keys.{
  BlockCtx, build_prefix_key, build_group_key, build_block_key, build_prefix_key_from_parts_checked,
  build_group_key_from_parts_checked, build_block_key_from_hash_checked,
}
use mem_service.Service.Keys.Distinct.{build_two_part_key-some}
use mem_service.Service.Records.{find_record, get_record}
use mem_service.Service.Records.Valid.{IsValid, RecordValid}
use mem_service.Service.Metadata.{
  Rc, Placement, update_slot, update_block_result, update_block_view, update_block_owner,
  owner_is_current, owner_next, update_prefix_result, follow_block, update_prefix_group_from_block,
  placement_of, prefix_is_current, result_is_stale, result_next, bump_version,
}
use mem_service.Service.Metadata.Flows.{require, check, demand, update_owned_block}
use mem_service.Service.Metadata.Puts.{
  PutResult, Updated, KeepsRecord, update_slot_lem, RecordValid-alike,
}
use mem_service.Service.Metadata.Groups.{
  Grouped, put_prefix_group_lem, update_group_both, add_member-SameName,
}
use mem_service.Service.Metadata.Evolves.{
  here, Runs, Runs-bind, Runs-given, Runs-fetch, Runs-require, Runs-check, Runs-demand,
  Runs-owned_by, Runs-answer,
}

-- A record keeps its kind, and a block its results: the segment of the last one never goes back.
unfoldable pub Forward : Option Record → Record → Type 0
Forward none b = Unit
Forward (some r) b =
    (b.kind ≡ r.kind) × (r.kind ≡ kind_block_meta → r.last_result_segment ≤ b.last_result_segment)

pub prefix_key_fits : (ctx : BlockCtx) (k : Text) → build_prefix_key ctx 96 ≡ some k → strlen k < 96
unfolding build_prefix_key build_prefix_key_from_parts_checked
prefix_key_fits ctx k e = (build_two_part_key-some _ ctx.request_id _ ctx.prefix_group 96 e).1

pub group_key_fits : (ctx : BlockCtx) (k : Text) → build_group_key ctx 96 ≡ some k → strlen k < 96
unfolding build_group_key build_group_key_from_parts_checked
group_key_fits ctx k e = (build_two_part_key-some _ ctx.request_id _ ctx.group_id 96 e).1

pub block_key_fits : (ctx : BlockCtx) (k : Text) → build_block_key ctx 96 ≡ some k → strlen k < 96
unfolding build_block_key build_block_key_from_hash_checked
block_key_fits ctx k e = (build_two_part_key-some _ ctx.block_hash [] [] 96 e).1

-- A block whose key fits has a hash that fits.
pub block_hash_fits :
    (ctx : BlockCtx) (k : Text) → build_block_key ctx 96 ≡ some k → strlen ctx.block_hash < 96
unfolding build_block_key build_block_key_from_hash_checked
block_hash_fits ctx k e =
    let room = (build_two_part_key-some _ ctx.block_hash [] [] 96 e).2 in omega (arith, room)

-- The group of a block that is valid moves forward.
Grouped-Forward :
    (svc : MemService) (key request_id group_id block_hash : Text) (p : Placement) (b : Record)
    → Grouped svc key request_id group_id block_hash p b
    → RecordValid b × Forward (get_record svc key) b
unfolding Forward
Grouped-Forward svc key request_id group_id block_hash p b (true, base, r, was, _, _, _, good, _) =
    (good, rw was tt)
Grouped-Forward svc key request_id group_id block_hash p b
      (false, base, r, was, kinded, added, same, good, _) =
    let member_kind = (add_member-SameName base block_hash added).2 in
    let kind_kept = update_group_both (λ c. c.kind ≡ r.kind) false r p refl (λ c h. h) (λ c h. h) in
    let at_base : b.kind ≡ base.kind = ap (λ c. c.kind) same ∙ kind_kept ∙ member_kind in
    (good, rw was (at_base, λ block. absurd (let x = sym kinded ∙ block in ground (arith, x))))

pub put_group_of_lem :
    (ctx : BlockCtx) (block : Record) (svc : MemService)
    → strlen block.block_hash < 96
    → IsValid svc
    → (key : Text) → build_group_key ctx 96 ≡ some key
    → PutResult svc key
        (Grouped svc key ctx.request_id ctx.group_id block.block_hash (placement_of block))
        (update_prefix_group_from_block svc ctx block)
unfolding update_prefix_group_from_block
put_group_of_lem ctx block svc fits v key e = rw e (
    put_prefix_group_lem svc key ctx.request_id ctx.group_id block.block_hash (placement_of block) v
      (group_key_fits ctx key e) fits)

pub Runs-group :
    (ctx : BlockCtx) (block : Record)
    → strlen block.block_hash < 96
    → Runs Forward (λ _. Unit {0}) (require (λ svc. update_prefix_group_from_block svc ctx block))
unfolding update_prefix_group_from_block
Runs-group ctx block fits = elim (Option-cases (build_group_key ctx 96)) [
  | inr (key, e) ↦
      Runs-require key
        (λ svc. Grouped svc key ctx.request_id ctx.group_id block.block_hash (placement_of block))
        (λ svc. update_prefix_group_from_block svc ctx block)
        (λ svc v. put_group_of_lem ctx block svc fits v key e)
        (λ svc b h.
          Grouped-Forward svc key ctx.request_id ctx.group_id block.block_hash (placement_of block)
            b h)
  | inl none_built ↦ record { at = λ svc v. rw none_built (here, tt) }
]

-- An update of where a block is, or of its results, keeps the record.
pub KeepsRecord-of_placement :
    (next : Record → Record)
    → ((r : Record)
        → ((next r).in_use ≡ r.in_use)
          × ((next r).key ≡ r.key)
          × ((next r).member_count ≡ r.member_count)
          × ((next r).member_block_hashes ≡ r.member_block_hashes)
          × ((next r).block_hash ≡ r.block_hash))
    → KeepsRecord next
KeepsRecord-of_placement next same = record {
  used = λ r. (same r).0;
  named = λ r. (same r).1;
  valid = λ r v. RecordValid-alike r (next r) v (same r).2 (same r).3 (same r).4;
}

-- An update of one record of a kind: it writes from a record of the kind that was not up to date.
module _ (key : Text) (kind : ℕ) (current : Record → Bool) (next : Record → Record)
    (keeps : KeepsRecord next)
    (forward : (r : Record)
      → r.kind ≡ kind
      → current r ≡ false
      → Forward (some r) (bump_version (next r))) where
  Updated-Forward :
      (svc : MemService) (b : Record)
      → Updated svc key kind current next b
      → RecordValid b × Forward (get_record svc key) b
  Updated-Forward svc b (r, was, kinded, stale, same, good) =
      (good, rw (was, same) (forward r kinded stale))

  pub Runs-update :
      Runs Forward
        (λ _. Unit {0})
        (check (λ svc. update_slot svc (find_record svc key) kind current next))
  Runs-update =
      Runs-check key (λ svc. Updated svc key kind current next)
        (λ svc. update_slot svc (find_record svc key) kind current next)
        (λ svc v. update_slot_lem svc key kind current next keeps v) Updated-Forward

  pub Runs-demanded :
      Runs Forward
        (λ _. Unit {0})
        (demand (λ svc. update_slot svc (find_record svc key) kind current next))
  Runs-demanded =
      Runs-demand key (λ svc. Updated svc key kind current next)
        (λ svc. update_slot svc (find_record svc key) kind current next)
        (λ svc v. update_slot_lem svc key kind current next keeps v) Updated-Forward

module _ (last_result_segment next_state : ℕ) where
  -- A result that is written is newer than the one that was there, if one was.
  result-Forward :
      (r : Record)
      → result_is_stale last_result_segment r ≡ false
      → Forward (some r) (bump_version (result_next last_result_segment next_state r))
  unfolding Forward
  result-Forward r stale = (refl, λ _. ground arith)

  pub Runs-block_result :
      (key : Text)
      → Runs Forward
          (λ _. Unit {0})
          (check (λ svc. update_block_result svc key last_result_segment next_state))
  unfolding update_block_result
  Runs-block_result key =
      Runs-update key kind_block_meta (result_is_stale last_result_segment)
        (result_next last_result_segment next_state)
        (KeepsRecord-of_placement (result_next last_result_segment next_state)
          (λ r. (refl, refl, refl, refl, refl)))
        (λ r _ stale. result-Forward r stale)

  pub Runs-demanded_result :
      (key : Text)
      → Runs Forward
          (λ _. Unit {0})
          (demand (λ svc. update_block_result svc key last_result_segment next_state))
  unfolding update_block_result
  Runs-demanded_result key =
      Runs-demanded key kind_block_meta (result_is_stale last_result_segment)
        (result_next last_result_segment next_state)
        (KeepsRecord-of_placement (result_next last_result_segment next_state)
          (λ r. (refl, refl, refl, refl, refl)))
        (λ r _ stale. result-Forward r stale)

pub Runs-block_view :
    (key : Text) (hot_segment_id placement_level : ℕ)
    → Runs Forward
        (λ _. Unit {0})
        (check (λ svc. update_block_view svc key hot_segment_id placement_level))
unfolding update_block_view Forward
Runs-block_view key hot_segment_id placement_level =
    Runs-update key kind_block_meta
      (λ r. r.hot_segment_id == hot_segment_id && r.placement_level == placement_level)
      (λ r. record r { hot_segment_id = hot_segment_id; placement_level = placement_level })
      (KeepsRecord-of_placement _ (λ r. (refl, refl, refl, refl, refl)))
      (λ r kinded stale. (refl, λ _. omega arith))

pub Runs-block_owner :
    (key : Text) (node level hot_segment_id : ℕ)
    → Runs Forward
        (λ _. Unit {0})
        (check (λ svc. update_block_owner svc key node level hot_segment_id))
unfolding update_block_owner Forward
Runs-block_owner key node level hot_segment_id =
    Runs-update key kind_block_meta (owner_is_current node level hot_segment_id)
      (owner_next node level hot_segment_id)
      (KeepsRecord-of_placement _ (λ r. (refl, refl, refl, refl, refl)))
      (λ r kinded stale. (refl, λ _. omega arith))

pub follow_block-KeepsRecord : (block : Record) → KeepsRecord (follow_block block)
follow_block-KeepsRecord block = record {
  used = λ r. refl;
  named = λ r. refl;
  valid = λ r v. record {
    members = record {
      within = v.members.within;
      slots = v.members.slots;
      distinct = v.members.distinct;
    };
    terminated =
        rw (c_str-snprintf_text_cut 96 block.block_hash)
          (omega (arith, length-take-le 95 (c_str block.block_hash)));
  };
}

-- A prefix is no block, so its results may go back, with its block.
pub prefix-Forward :
    (ctx : BlockCtx) (block r : Record)
    → r.kind ≡ kind_request_prefix
    → Forward (some r) (bump_version (follow_block block r))
unfolding Forward
prefix-Forward ctx block r kinded =
    (refl, λ e. absurd (let x = sym kinded ∙ e in ground (arith, x)))

pub Runs-prefix_result :
    (key : Text) (ctx : BlockCtx) (block : Record)
    → Runs Forward (λ _. Unit {0}) (check (λ svc. update_prefix_result svc key ctx block))
unfolding update_prefix_result
Runs-prefix_result key ctx block =
    Runs-update key kind_request_prefix (prefix_is_current ctx block) (follow_block block)
      (follow_block-KeepsRecord block) (λ r kinded _. prefix-Forward ctx block r kinded)

pub Runs-demanded_prefix :
    (key : Text) (ctx : BlockCtx) (block : Record)
    → Runs Forward (λ _. Unit {0}) (demand (λ svc. update_prefix_result svc key ctx block))
unfolding update_prefix_result
Runs-demanded_prefix key ctx block =
    Runs-demanded key kind_request_prefix (prefix_is_current ctx block) (follow_block block)
      (follow_block-KeepsRecord block) (λ r kinded _. prefix-Forward ctx block r kinded)

module _ (ctx : BlockCtx) (update : MemService → Text → Rc × MemService)
    (runs : (key : Text) → Runs Forward (λ _. Unit {0}) (check (λ svc. update svc key))) where
  pub Runs-owned_block : Runs Forward RecordValid (update_owned_block ctx update)
  unfolding update_owned_block
  Runs-owned_block =
      Runs-bind _ _ (Runs-given {Q = λ _. Unit {0}} (build_block_key ctx 96) (λ k e. tt)) λ key _.
        Runs-bind _ _ (Runs-fetch key) λ current _. Runs-bind _ _ (Runs-owned_by ctx current) λ _ _.
          Runs-bind _ _ (runs key) λ _ _. Runs-bind _ _ (Runs-fetch key) λ resolved good.
            Runs-bind _ _ (Runs-group ctx resolved good.terminated) λ _ _. Runs-answer resolved good
