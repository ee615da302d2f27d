-- ===== src/Service/Records.antt =====
-- The table of records: components/mem_service/mem_service_records.c and mem_service_get_record of
-- mem_service_metadata.c. A pointer to a record is its slot, with what the slot holds.
pub mod Table
pub mod Members
pub mod Valid
use mem_service.Base.{
  ℕ, ◌+◌, ◌%◌, ◌^◌, min, Bool, true, false, not, ◌&&◌, ◌||◌, Option, none, some, List, [], ◌∷◌, leb,
  if◌then◌else◌, take, set, find_slot,
}
use mem_service.Base.Text.{Text, strncmp_eq, snprintf_text}
use mem_service.Service.{Record, MemService, max_group_members}
use mathlib.Core.Option

-- `!rec->in_use`
abbrev pub is_free : Record → Bool
is_free r = not r.in_use

abbrev pub write_record : MemService → ℕ → Record → MemService
write_record svc i r = record svc { records = set svc.records i r }

unfoldable pub alloc_in : MemService → Option (ℕ × Record) → Option ((ℕ × Record) × MemService)
alloc_in svc none = none
alloc_in svc (some (i, r)) =
    let used = record r { in_use = true } in
    some (
      (i, used),
      record svc {
        record_count = (svc.record_count + 1) % 2 ^ 64;
        records = set svc.records i used;
      },
    )

unfoldable pub alloc_record : MemService → Option ((ℕ × Record) × MemService)
unfolding alloc_in
alloc_record svc = alloc_in svc (find_slot is_free svc.records)

abbrev pub holds : Text → Record → Bool
holds key r = r.in_use && strncmp_eq 96 r.key key

unfoldable pub find_record : MemService → Text → Option (ℕ × Record)
find_record svc key = find_slot (holds key) svc.records

-- The copy of a record, where there is one.
unfoldable pub get_record : MemService → Text → Option Record
get_record svc key = Option.map (λ (i, r). r) (find_record svc key)

unfoldable pub contains_hash : Text → List Text → Bool
contains_hash block_hash [] = false
contains_hash block_hash (h ∷ hs) = strncmp_eq 96 h block_hash || contains_hash block_hash hs

-- The entries that the loop reads.
abbrev pub members : Record → List Text
members r = take (min r.member_count max_group_members) r.member_block_hashes

unfoldable pub has_member : Record → Text → Bool
has_member r block_hash = contains_hash block_hash (members r)

unfoldable pub has_member_block : Record → Text → Bool
has_member_block r block_hash = has_member r block_hash

unfoldable pub append_member : Record → Text → Record
append_member r block_hash = record r {
  member_count = (r.member_count + 1) % 2 ^ 32;
  member_block_hashes = set r.member_block_hashes r.member_count (snprintf_text 96 block_hash);
}

-- `none` is -1; what was there of an old entry after the NUL is not kept.
unfoldable pub add_member : Record → Text → Option Record
add_member r block_hash =
    if has_member r block_hash
    then some r
    else if leb max_group_members r.member_count
    then none
    else some (append_member r block_hash)
