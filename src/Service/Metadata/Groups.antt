-- ===== src/Service/Metadata/Groups.antt =====
-- A prefix group that is put: its record is the one that was, or a new one, with a member added.
use mem_service.Base.{
  ◌<◌, ◌≡◌, refl, subst, ap, ◌∙◌, inl, inr, Bool, true, false, not, ◌&&◌, ◌||◌, none, some, take,
  ◌!=◌, !=_false, ltb, leb, any_of, Bool-cases, Option-cases, if◌then◌else◌, if_both, set-set,
  arith,
}
use mem_service.Base.Text.{Text, strlen, c_str, c_str-snprintf_text, text_eq_refl}
use mem_service.Service.{Record, MemService, kind_prefix_group, max_group_members}
use mem_service.Service.Records.{
  contains_hash, append_member, has_member, find_record, get_record, alloc_record, add_member,
  write_record,
}
use mem_service.Service.Records.Members.{add_member-MembersValid, has_member-add_member}
use mem_service.Service.Records.Table.{key_of}
use mem_service.Service.Records.Valid.{IsValid, RecordValid, Puts-found, Puts-fresh}
use mem_service.Service.Metadata.{
  bump_version, Placement, put_prefix_group, put_group_at, new_group, update_group,
  placed_otherwise, place,
}
use mem_service.Service.Metadata.Puts.{
  PutResult, get_record-found, get_record-missing, RecordValid-alike, bump_version-RecordValid,
  found-RecordValid,
}

-- What the placement and the version do not touch is kept by an update of a group.
pub update_group_both :
    (Q : Record → Type 0) (is_new : Bool) (r : Record) (p : Placement)
    → Q r
    → ((b : Record) → Q b → Q (place p b))
    → ((b : Record) → Q b → Q (bump_version b))
    → Q (update_group is_new r p)
unfolding update_group
update_group_both Q is_new r p start placed bumped =
    let moved = any_of (placed_otherwise r p) in
    let r' = if moved then place p r else r in
    let after : Q r' = if_both Q moved (placed r start) start in
    if_both Q ((is_new || moved) && (not is_new && ltb 0 r'.version)) (bumped r' after) after

-- What tells one record from another, and does not change while it is in the table.
abbrev pub SameName : Record → Record → Type 0
SameName r b =
    (b.in_use ≡ r.in_use) × (b.key ≡ r.key) × (b.kind ≡ r.kind) × (b.block_hash ≡ r.block_hash)

pub add_member-SameName :
    (r : Record) (x : Text) {r' : Record} → add_member r x ≡ some r' → SameName r r'
unfolding add_member append_member
add_member-SameName r x {r'} e = elim (Bool-cases (has_member r x)) [
  | inl old ↦
      let e' : some r ≡ some r' = rw old at e in
      let same : r ≡ r' = cc in subst (SameName r) same (refl, refl, refl, refl)
  | inr fresh ↦ elim (Bool-cases (leb max_group_members r.member_count)) [
    | inl full ↦ absurd (let e' : none ≡ some r' = rw (fresh, full) at e in ground arith)
    | inr room ↦
        let e' : some (append_member r x) ≡ some r' = rw (fresh, room) at e in
        let same : append_member r x ≡ r' = cc in subst (SameName r) same (refl, refl, refl, refl)
  ]
]

or_true : (b : Bool) → b || true ≡ true
or_true b = ground arith

module _ (svc : MemService) (key request_id group_id block_hash : Text) (p : Placement) where
  -- The record of the group is the old one, or a new one, with the member added.
  abbrev pub Grouped : Record → Type 0
  Grouped b =
      (is_new : Bool) × (base r : Record) × (get_record svc key
        ≡ (if is_new then none else some base))
      × (base.kind ≡ kind_prefix_group)
      × (add_member base block_hash ≡ some r)
      × (b ≡ update_group is_new r p)
      × RecordValid b
      × (has_member b block_hash ≡ true)

  grouped :
      (is_new : Bool) (base : Record) {r : Record}
      → strlen block_hash < 96
      → get_record svc key ≡ (if is_new then none else some base)
      → (base.kind ≡ kind_prefix_group)
      → RecordValid base
      → add_member base block_hash ≡ some r
      → Grouped (update_group is_new r p)
  unfolding has_member
  grouped is_new base {r} fits was kinded good added =
      let hash_kept = (add_member-SameName base block_hash added).3 in
      let good' : RecordValid r = record {
        members = add_member-MembersValid base block_hash good.members fits added;
        terminated = rw hash_kept good.terminated;
      } in
      (
        is_new,
        base,
        r,
        was,
        kinded,
        added,
        refl,
        update_group_both RecordValid is_new r p good'
            (λ b g. RecordValid-alike b (place p b) g refl refl refl) bump_version-RecordValid,
        update_group_both (λ b. has_member b block_hash ≡ true) is_new r p
            (has_member-add_member base block_hash good.members fits block_hash added
              ∙ ap (λ c. has_member base block_hash || c)
                  (text_eq_refl (take 96 (c_str block_hash)))
              ∙ or_true (has_member base block_hash))
            (λ b h. h) (λ b h. h),
      )

  -- A group that is new has room for its first member.
  add_member-new_group :
      add_member (new_group key request_id group_id) block_hash
      ≡ some (append_member (new_group key request_id group_id) block_hash)
  unfolding add_member has_member contains_hash
  add_member-new_group = refl

  new_group-RecordValid : RecordValid (new_group key request_id group_id)
  unfolding c_str
  new_group-RecordValid = record {
    members = record { within = omega arith; slots = refl; distinct = tt };
    terminated = omega arith;
  }

  -- The update keeps the slot's name.
  group_keyed :
      (is_new : Bool) (r : Record)
      → r.in_use ≡ true
      → key_of r.key ≡ key_of key
      → ((update_group is_new r p).in_use ≡ true)
        × (key_of (update_group is_new r p).key ≡ key_of key)
  group_keyed is_new r used named =
      update_group_both (λ b. (b.in_use ≡ true) × (key_of b.key ≡ key_of key)) is_new r p
        (used, named) (λ b h. h) (λ b h. h)

  pub put_prefix_group_lem :
      IsValid svc
      → strlen key < 96
      → strlen block_hash < 96
      → PutResult svc key Grouped (put_prefix_group svc key request_id group_id block_hash p)
  unfolding put_prefix_group put_group_at PutResult append_member
  put_prefix_group_lem v named fits = elim (Option-cases (find_record svc key)) [
    | inr ((i, r), found) ↦ rw found (elim (Bool-cases (r.kind != kind_prefix_group)) [
      | inl other ↦ rw other refl
      | inr kinded ↦ rw kinded (elim (Option-cases (add_member r block_hash)) [
        | inl full ↦ rw full refl
        | inr (r', added) ↦ rw added (
            let (good, used, keyed) = found-RecordValid svc key v found in
            let (same_use, same_key, _, _) = add_member-SameName r block_hash added in
            let (used', keyed') =
              group_keyed false r' (same_use ∙ used) (ap key_of same_key ∙ keyed) in
            (
              update_group false r' p,
              Puts-found svc key (update_group false r' p) used' keyed' found,
              grouped false r fits (get_record-found svc key found)
                  (!=_false r.kind kind_prefix_group kinded) good added,
            ))
      ])
    ])
    | inl missing ↦ rw missing (elim (Option-cases (alloc_record svc)) [
      | inl full ↦ rw full refl
      | inr (((i, a), t), free) ↦ rw free (
          let new = new_group key request_id group_id in
          let first = append_member new block_hash in
          let b = update_group true first p in
          let (used', keyed') =
            group_keyed true first refl (ap (take 96) (c_str-snprintf_text 96 key named)) in
          let rewritten : write_record (write_record t i new) i b ≡ write_record t i b =
            λ j. record t { records = set-set t.records i new b j } in
          rw (add_member-new_group, rewritten)
            (
              b,
              Puts-fresh svc key b used' keyed' missing free,
              grouped true new fits (get_record-missing svc key missing) refl new_group-RecordValid
                  add_member-new_group,
            ))
    ])
  ]
