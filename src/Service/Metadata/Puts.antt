-- ===== src/Service/Metadata/Puts.antt =====
-- Each static function of the metadata puts one record under its key, or leaves the service alone.
use mem_service.Base.{
  ℕ, ◌≡◌, refl, subst, ap, ◌∙◌, inl, inr, Bool, true, false, none, some, All-get_elem?,
  find_slot-some, ◌!=◌, !=_false, Bool-cases, Option-cases, arith,
}
use mem_service.Base.Text.{Text}
use mem_service.Service.{Record, MemService}
use mem_service.Service.Records.{holds, find_record, get_record, alloc_record}
use mem_service.Service.Records.Table.{key_of, holds_keyed}
use mem_service.Service.Records.Valid.{IsValid, RecordValid, Puts, Puts-found, Puts-fresh}
use mem_service.Service.Metadata.{Rc, done, put_record, update_slot, bump_version}

-- The result of a call that puts a record of which P holds, or changes nothing.
unfoldable pub PutResult : MemService → Text → (Record → Type 0) → Bool × MemService → Type 0
PutResult svc key P (true, svc') = (b : Record) × Puts svc key b svc' × P b
PutResult svc key P (false, svc') = svc' ≡ svc

unfoldable pub UpdateResult : MemService → Text → (Record → Type 0) → Rc × MemService → Type 0
UpdateResult svc key P (done, svc') = (b : Record) × Puts svc key b svc' × P b
UpdateResult svc key P (rc, svc') = svc' ≡ svc

-- A call that answered 0 has put its record.
pub PutResult-true :
    (svc : MemService) (key : Text) (P : Record → Type 0) {r : Bool × MemService} {t : MemService}
    → PutResult svc key P r
    → r ≡ (true, t)
    → (b : Record) × Puts svc key b t × P b
unfolding PutResult
PutResult-true svc key P result e = subst (PutResult svc key P) e result

pub UpdateResult-done :
    (svc : MemService) (key : Text) (P : Record → Type 0) {r : Rc × MemService} {t : MemService}
    → UpdateResult svc key P r
    → r ≡ (done, t)
    → (b : Record) × Puts svc key b t × P b
unfolding UpdateResult
UpdateResult-done svc key P result e = subst (UpdateResult svc key P) e result

module _ (svc : MemService) (key : Text) (r : Record) (used : r.in_use ≡ true)
    (named : key_of r.key ≡ key_of key) where
  pub put_record_lem : PutResult svc key (λ b. b ≡ r) (put_record svc key r)
  unfolding put_record PutResult
  put_record_lem = elim (Option-cases (find_record svc key)) [
    | inr ((i, a), found) ↦ rw found (r, Puts-found svc key r used named found, refl)
    | inl missing ↦ rw missing (elim (Option-cases (alloc_record svc)) [
      | inl full ↦ rw full refl
      | inr (((i, a), t), free) ↦ rw free (r, Puts-fresh svc key r used named missing free, refl)
    ])
  ]

pub get_record-found :
    (svc : MemService) (key : Text) {i : ℕ} {r : Record}
    → find_record svc key ≡ some (i, r)
    → get_record svc key ≡ some r
unfolding get_record
get_record-found svc key found = rw found refl

pub get_record-some :
    (svc : MemService) (key : Text) {r : Record}
    → get_record svc key ≡ some r
    → (i : ℕ) × (find_record svc key ≡ some (i, r))
unfolding get_record
get_record-some svc key {r} e = elim (Option-cases (find_record svc key)) [
  | inl missing ↦ absurd (let e' : none ≡ some r = rw missing at e in ground arith)
  | inr ((i, a), found) ↦
      let e' : some a ≡ some r = rw found at e in
      let same : a ≡ r = cc in (i, found ∙ ap (λ t. some (i, t)) same)
]

pub get_record-missing :
    (svc : MemService) (key : Text) → find_record svc key ≡ none → get_record svc key ≡ none
unfolding get_record
get_record-missing svc key missing = rw missing refl

-- The members and the hash of a block decide whether a record is valid.
pub RecordValid-alike :
    (r b : Record)
    → RecordValid r
    → b.member_count ≡ r.member_count
    → b.member_block_hashes ≡ r.member_block_hashes
    → b.block_hash ≡ r.block_hash
    → RecordValid b
RecordValid-alike r b good counted hashed named = record {
  members = record {
    within = rw counted good.members.within;
    slots = rw hashed good.members.slots;
    distinct = rw (counted, hashed) good.members.distinct;
  };
  terminated = rw named good.terminated;
}

pub bump_version-RecordValid : (r : Record) → RecordValid r → RecordValid (bump_version r)
bump_version-RecordValid r good = RecordValid-alike r (bump_version r) good refl refl refl

pub found-RecordValid :
    (svc : MemService) (key : Text) {i : ℕ} {r : Record}
    → IsValid svc
    → find_record svc key ≡ some (i, r)
    → RecordValid r × (r.in_use ≡ true) × (key_of r.key ≡ key_of key)
unfolding find_record
found-RecordValid svc key {i} {r} v found =
    let (held, hit) = find_slot-some (holds key) svc.records found in
    let (used, named) = holds_keyed key r hit in
    (All-get_elem? RecordValid svc.records i v.each held, used, named)

-- An update keeps what the table goes by, and keeps the record valid.
pub record KeepsRecord (next : Record → Record) : Type 0 where
  pub used : (r : Record) → (next r).in_use ≡ r.in_use
  pub named : (r : Record) → (next r).key ≡ r.key
  pub valid : (r : Record) → RecordValid r → RecordValid (next r)

module _ (svc : MemService) (key : Text) (kind : ℕ) (current : Record → Bool)
    (next : Record → Record) where
  -- What is written comes from a record of the kind that was not up to date.
  abbrev pub Updated : Record → Type 0
  Updated b =
      (r : Record) × (get_record svc key ≡ some r)
      × (r.kind ≡ kind)
      × (current r ≡ false)
      × (b ≡ bump_version (next r))
      × RecordValid b

  pub update_slot_lem :
      KeepsRecord next
      → IsValid svc
      → UpdateResult svc key Updated (update_slot svc (find_record svc key) kind current next)
  unfolding update_slot UpdateResult
  update_slot_lem keeps v = elim (Option-cases (find_record svc key)) [
    | inl missing ↦ rw missing refl
    | inr ((i, r), found) ↦ rw found (elim (Bool-cases (r.kind != kind)) [
      | inl other ↦ rw other refl
      | inr kinded ↦ rw kinded (elim (Bool-cases (current r)) [
        | inl fresh ↦ rw fresh refl
        | inr stale ↦ rw stale (
            let (good, used, named) = found-RecordValid svc key v found in
            let b = bump_version (next r) in
            (
              b,
              Puts-found svc key b (keeps.used r ∙ used) (ap key_of (keeps.named r) ∙ named) found,
              (
                r,
                get_record-found svc key found,
                !=_false r.kind kind kinded,
                stale,
                refl,
                bump_version-RecordValid (next r) (keeps.valid r good),
              ),
            ))
      ])
    ])
  ]
