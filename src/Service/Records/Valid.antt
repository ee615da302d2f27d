-- ===== src/Service/Records/Valid.antt =====
-- The invariant of the table of records, and what a write that puts a record under a key does.
use mem_service.Base.{
  ℕ, ◌+◌, ◌≤◌, ◌<◌, ◌%◌, ◌^◌, ◌≡◌, refl, sym, subst, ap, ◌∙◌, Bool, true, false, Option, none, some,
  All, All-set, length, get_elem?, set, set-set, length-set, find_slot, find_slot-some, count,
  count-set, count-eq-zero, count-le-length, Bool-cases, inl, inr, if◌then◌else◌, arith,
}
use mathlib.Core.Option
use mem_service.Base.Text.{Text, strlen, c_str}
use mem_service.Service.{Record, MemService, max_records, zero_record}
use mem_service.Service.Records.{
  holds, is_free, find_record, get_record, alloc_record, alloc_in, write_record,
}
use mem_service.Service.Records.Members.{MembersValid}
use mem_service.Service.Records.Table.{
  key_of, same_key, holds_keyed, holds_free, holds_named, find_slot-set_keyed, find_slot-set_free,
  find_slot-same_key,
}

abbrev pub is_used : Record → Bool
is_used r = r.in_use

pub record RecordValid (r : Record) : Type 0 where
  pub members : MembersValid r
  pub terminated : strlen r.block_hash < 96

-- A slot after `memset`.
pub zero_valid : RecordValid zero_record
unfolding c_str
zero_valid = record {
  members = record { within = omega arith; slots = refl; distinct = tt };
  terminated = omega arith;
}

pub record IsValid (svc : MemService) : Type 0 where
  pub counted : svc.record_count ≡ count is_used svc.records
  pub bounded : length svc.records ≤ max_records
  pub unique : (k : Text) → count (holds k) svc.records ≤ 1
  pub each : All RecordValid svc.records

-- One write puts `b` under `key`: the lookups after it, and the invariant.
pub record Puts (svc : MemService) (key : Text) (b : Record) (svc' : MemService) : Type 0 where
  pub looked_up :
      (j : Text) → get_record svc' j ≡ (if same_key key j then some b else get_record svc j)
  pub kept : IsValid svc → RecordValid b → IsValid svc'
  pub framed : svc' ≡ record svc { record_count = svc'.record_count; records = svc'.records }

abbrev second : ℕ × Record → Record
second (i, r) = r

map-if :
    (c : Bool) (i : ℕ) (b : Record) (o : Option (ℕ × Record))
    → Option.map second (if c then some (i, b) else o) ≡ (if c then some b else Option.map second o)
map-if true i b o = refl
map-if false i b o = refl

-- The slot that is allocated was free, and is marked and counted.
alloc_in-some :
    (svc : MemService) (o : Option (ℕ × Record)) {i : ℕ} {a : Record} {svc' : MemService}
    → alloc_in svc o ≡ some ((i, a), svc')
    → (r : Record) × (o ≡ some (i, r))
      × (svc' ≡ record svc {
        record_count = (svc.record_count + 1) % 2 ^ 64;
        records = set svc.records i a;
      })
unfolding alloc_in
alloc_in-some svc none e = absurd (ground arith)
alloc_in-some svc (some (m, r)) {i} {a} {svc'} e =
    let at : m ≡ i = cc in
    let marked : record r { in_use = true } ≡ a = cc in (r, rw at refl, rw (← at, ← marked) cc)

alloc_record-free :
    (svc : MemService) {i : ℕ} {a : Record} {svc' : MemService}
    → alloc_record svc ≡ some ((i, a), svc')
    → (r : Record) × (find_slot is_free svc.records ≡ some (i, r))
      × (svc' ≡ record svc {
        record_count = (svc.record_count + 1) % 2 ^ 64;
        records = set svc.records i a;
      })
unfolding alloc_record
alloc_record-free svc e = alloc_in-some svc (find_slot is_free svc.records) e

module _ (svc : MemService) (key : Text) (b : Record) (used : b.in_use ≡ true)
    (named : key_of b.key ≡ key_of key) where
  pub Puts-found :
      {i : ℕ} {a : Record}
      → find_record svc key ≡ some (i, a)
      → Puts svc key b (write_record svc i b)
  unfolding find_record get_record
  Puts-found {i} {a} found =
      let (held, hit) = find_slot-some (holds key) svc.records found in
      let (old_used, old_named) = holds_keyed key a hit in
      record {
        looked_up = λ j.
            ap (Option.map second) (find_slot-set_keyed svc.records key b used named j found)
            ∙ map-if (same_key key j) i b (find_slot (holds j) svc.records);
        kept = λ v good. record {
          counted = ground (arith, v.counted, count-set is_used svc.records i a b held);
          bounded = omega (arith, v.bounded, length-set svc.records i b);
          unique = λ k. ground (
            arith,
            v.unique k,
            count-set (holds k) svc.records i a b held,
            holds_named key k a old_used old_named,
            holds_named key k b used named,
          );
          each = All-set RecordValid svc.records i b v.each good;
        };
        framed = refl;
      }

  unique_fresh :
      (i : ℕ) (r : Record) (k : Text)
      → IsValid svc
      → find_slot (holds key) svc.records ≡ none
      → get_elem? svc.records i ≡ some r
      → is_free r ≡ true
      → count (holds k) (set svc.records i b) ≤ 1
  unique_fresh i r k v missing held unused = elim (Bool-cases (same_key key k)) [
    | inl same ↦
        let empty =
          (count-eq-zero (holds k) svc.records).1
            (find_slot-same_key svc.records key k same missing) in
        ground (
          arith,
          empty,
          count-set (holds k) svc.records i r b held,
          holds_free k r unused,
          holds_named key k b used named,
        )
    | inr differ ↦ ground (
      arith,
      v.unique k,
      differ,
      count-set (holds k) svc.records i r b held,
      holds_free k r unused,
      holds_named key k b used named,
    )
  ]

  pub Puts-fresh :
      {i : ℕ} {a : Record} {svc' : MemService}
      → find_record svc key ≡ none
      → alloc_record svc ≡ some ((i, a), svc')
      → Puts svc key b (write_record svc' i b)
  unfolding find_record get_record alloc_record alloc_in
  Puts-fresh {i} {a} {svc'} missing e =
      let (r, free, after) = alloc_record-free svc e in
      let (held, unused) = find_slot-some is_free svc.records free in
      let written = record svc {
        record_count = (svc.record_count + 1) % 2 ^ 64;
        records = set svc.records i b;
      } in
      let same : write_record svc' i b ≡ written =
        ap (λ s. write_record s i b) after
        ∙ (λ t. record written { records = set-set svc.records i a b t }) in
      subst (Puts svc key b) (sym same) (record {
        looked_up = λ j.
            ap (Option.map second) (find_slot-set_free svc.records key b used named j missing free)
            ∙ map-if (same_key key j) i b (find_slot (holds j) svc.records);
        kept = λ v good. record {
          counted = ground (
            arith,
            v.counted,
            v.bounded,
            unused,
            count-le-length is_used svc.records,
            count-set is_used svc.records i r b held,
          );
          bounded = omega (arith, v.bounded, length-set svc.records i b);
          unique = λ k. unique_fresh i r k v missing held unused;
          each = All-set RecordValid svc.records i b v.each good;
        };
        framed = refl;
      })
