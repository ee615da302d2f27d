-- ===== src/Service/Retention/Oldest/Limit.antt =====
-- The retention loops end, at the limit, and keep the table of records valid.
use mem_service.Base.{
  ℕ, zero, suc, ◌+◌, ◌-◌, ◌≤◌, ◌<◌, min, ◌≡◌, refl, ◌∙◌, inl, inr, Bool, true, false, not, ◌&&◌,
  none, some, List, [], ltb, ◌==◌, if◌then◌else◌, if_both, length, length-set, set, count,
  count-set, count_congr, one_if, All-set, get_elem?, Bool-cases, Option-cases, arith,
}
use mem_service.Base.Text.{Text, c_str}
use mem_service.Service.{Record, MemService, zero_record}
use mem_service.Service.Records.{holds}
use mem_service.Service.Records.Valid.{IsValid, RecordValid, is_used, zero_valid}
use mem_service.Service.Idempotency.{prune_idempotency_for_record_key}
use mem_service.Service.Retention.{
  record_is_checkpoint, count_checkpoint_records, find_oldest_checkpoint_record_index, oldest_from,
  Kept, record_matches_retention_kind, count_retained_kind_records, find_oldest_record_index,
  Retained, retire, retain_loop, apply_checkpoint_retention, has_expired, expire_slot, expire_loop,
  over_limit, apply_record_retention,
}
use mem_service.Service.Retention.Oldest.{oldest_from_lem}

-- The answers that are pruned are no part of the table.
prune_both :
    (Q : MemService → Type 0) (svc : MemService) (key : Text)
    → Q svc
    → ((svc' : MemService)
        → svc'.records ≡ svc.records
        → svc'.record_count ≡ svc.record_count
        → Q svc')
    → Q (prune_idempotency_for_record_key svc key)
unfolding prune_idempotency_for_record_key
prune_both Q svc key same other = if_both Q (length (c_str key) == 0) same (other _ refl refl)

module _ (storage_root : Text) (at : Retained) (i : ℕ) (r : Record)
    (held : get_elem? at.1.records i ≡ some r) where
  pub records-retire : (retire storage_root at i r).1.records ≡ set at.1.records i zero_record
  unfolding retire
  records-retire =
      prune_both (λ s. s.records ≡ set at.1.records i zero_record) _ _ refl (λ s e _. e)

  record_count-retire :
      (retire storage_root at i r).1.record_count
      ≡ (if ltb 0 at.1.record_count then at.1.record_count - 1 else at.1.record_count)
  unfolding retire
  record_count-retire =
      prune_both
        (λ s.
          s.record_count
          ≡ (if ltb 0 at.1.record_count then at.1.record_count - 1 else at.1.record_count))
        _ _ refl (λ s _ e. e)

  -- A record that is given up leaves the count of those that pass a test, unless it passed.
  pub count-retire :
      (p : Record → Bool)
      → p zero_record ≡ false
      → count p (retire storage_root at i r).1.records + one_if (p r) ≡ count p at.1.records
  count-retire p free =
      rw records-retire (ground (arith, free, count-set p at.1.records i r zero_record held))

  pub retire-IsValid : r.in_use ≡ true → IsValid at.1 → IsValid (retire storage_root at i r).1
  retire-IsValid used v = record {
    counted = ground (arith, used, v.counted, record_count-retire, count-retire is_used refl);
    bounded = rw records-retire (omega (arith, v.bounded, length-set at.1.records i zero_record));
    unique = λ k. omega (arith, v.unique k, count-retire (holds k) refl);
    each = rw records-retire (All-set RecordValid at.1.records i zero_record v.each zero_valid);
  }

-- A loop over the records that pass `p`, of which `measure` is the number.
module _ (p : Record → Bool) (measure : MemService → ℕ) (storage_root : Text)
    (free : p zero_record ≡ false) (in_table : (r : Record) → p r ≡ true → r.in_use ≡ true)
    (measures : (svc : MemService) → IsValid svc → measure svc ≡ count p svc.records)
    (max : ℕ) where
  retain_loop-Ends :
      (fuel : ℕ) (pruned : Bool) (at : Retained)
      → IsValid at.1
      → count p at.1.records - max < fuel
      → (pruned' : Bool) × (at' : Retained) × (retain_loop measure
            (λ s. oldest_from p 0 none s.records)
            max
            storage_root
            fuel
            pruned
            at
          ≡ some (pruned', at'))
        × IsValid at'.1
        × (count p at'.1.records ≡ min (count p at.1.records) max)
  unfolding retain_loop
  retain_loop-Ends zero pruned at v h = absurd (omega (arith, h))
  retain_loop-Ends (suc fuel) pruned at v h = elim (Bool-cases (ltb max (measure at.1))) [
    | inr under ↦ (pruned, at, rw under refl, v, ground (arith, measures at.1 v))
    | inl over ↦ elim (oldest_from_lem p at.1.records) [
      | inl (nothing, empty) ↦ absurd (ground (arith, measures at.1 v))
      | inr (i, r, found, held, passes, _) ↦
          let next = retire storage_root at i r in
          let fewer = count-retire storage_root at i r held p free in
          let (pruned', at', e, v', n) =
            retain_loop-Ends fuel true next
              (retire-IsValid storage_root at i r held (in_table r passes) v)
              (ground (arith, fewer, passes, measures at.1 v)) in
          (pruned', at', rw (over, found) e, v', ground (arith, fewer, passes, n, measures at.1 v))
    ]
  ]

checkpoint_in_table : (r : Record) → record_is_checkpoint r ≡ true → r.in_use ≡ true
unfolding record_is_checkpoint
checkpoint_in_table r h = ground arith

-- With fuel for the checkpoints over the limit, the retention of checkpoints ends. Of the checkpoints
-- that were there, the limit or all are left, and the table of records is still valid.
pub apply_checkpoint_retention-Ends :
    (fuel : ℕ) (svc : MemService) (max : ℕ) (storage_root : Text)
    → IsValid svc
    → 1 ≤ max
    → count_checkpoint_records svc - max < fuel
    → (pruned : Bool) × (gone : List Record) × (svc' : MemService) × (apply_checkpoint_retention
          fuel svc max storage_root
        ≡ some (pruned, (gone, svc')))
      × IsValid svc'
      × (count_checkpoint_records svc' ≡ min (count_checkpoint_records svc) max)
unfolding apply_checkpoint_retention count_checkpoint_records find_oldest_checkpoint_record_index
    record_is_checkpoint
apply_checkpoint_retention-Ends fuel svc max storage_root v some_max h =
    let (pruned, (gone, svc'), e, v', n) =
      retain_loop-Ends record_is_checkpoint count_checkpoint_records storage_root refl
        checkpoint_in_table (λ s _. refl) max fuel false ([], svc) v h in
    let limited : (max == 0) ≡ false = ground arith in (pruned, gone, svc', rw limited e, v', n)

module _ (kept : Kept) where
  kept_in_table : (r : Record) → record_matches_retention_kind kept r ≡ true → r.in_use ≡ true
  unfolding record_matches_retention_kind
  kept_in_table r h = ground arith

  -- Where every record is kept, the counter is the number of them.
  count_retained-eq :
      (svc : MemService)
      → IsValid svc
      → count_retained_kind_records svc kept
        ≡ count (record_matches_retention_kind kept) svc.records
  unfolding count_retained_kind_records record_matches_retention_kind
  count_retained-eq svc v = elim (Bool-cases (kept.kind == 0 && not kept.tenant_enabled)) [
    | inr some_kept ↦ rw some_kept refl
    | inl all_kept ↦ rw all_kept (
        v.counted
        ∙ count_congr is_used (record_matches_retention_kind kept) (λ r. ground (arith, all_kept))
            svc.records)
  ]

  abbrev pub Fewer : MemService → Retained → Type 0
  Fewer svc at =
      IsValid at.1
      × (count (record_matches_retention_kind kept) at.1.records
          ≤ count (record_matches_retention_kind kept) svc.records)

  expire_slot-Fewer :
      (now max_age : ℕ) (storage_root : Text) (i : ℕ) (pruned : Bool) (at : Retained)
      → IsValid at.1
      → Fewer at.1
          (expire_slot
            (has_expired kept now max_age)
            storage_root
            i
            (get_elem? at.1.records i)
            (pruned, at)).1
  unfolding record_matches_retention_kind
  expire_slot-Fewer now max_age storage_root i pruned at v =
      elim (Option-cases (get_elem? at.1.records i)) [
        | inl out ↦ rw out (v, omega arith)
        | inr (r, held) ↦ rw held (elim (Bool-cases (has_expired kept now max_age r)) [
          | inr young ↦ rw young (v, omega arith)
          | inl old ↦ rw old (
            retire-IsValid storage_root at i r held (kept_in_table r (ground (arith, old))) v,
            omega (
              arith,
              count-retire storage_root at i r held (record_matches_retention_kind kept) refl,
            ),
          )
        ])
      ]

  pub expire_loop-Fewer :
      (now max_age : ℕ) (storage_root : Text) (i n : ℕ) (pruned : Bool) (at : Retained)
      → IsValid at.1
      → Fewer at.1 (expire_loop (has_expired kept now max_age) storage_root i n (pruned, at)).1
  unfolding expire_loop
  expire_loop-Fewer now max_age storage_root i zero pruned at v = (v, omega arith)
  expire_loop-Fewer now max_age storage_root i (suc n) pruned at v =
      let step =
        expire_slot (has_expired kept now max_age) storage_root i (get_elem? at.1.records i)
          (pruned, at) in
      let (v1, n1) = expire_slot-Fewer now max_age storage_root i pruned at v in
      let (v2, n2) = expire_loop-Fewer now max_age storage_root (suc i) n step.0 step.1 v1 in
      (v2, omega (arith, n1, n2))

  -- With fuel for the records over the limit, the retention of records ends. Of the records of the
  -- kind and tenant that the limits name, no more than the limit are left, and the table of records is
  -- still valid, whether records are given up for their number or for their age.
  pub apply_record_retention-Ends :
      (fuel : ℕ) (svc : MemService) (max max_age now : ℕ) (storage_root : Text)
      → IsValid svc
      → 1 ≤ max
      → count (record_matches_retention_kind kept) svc.records - max < fuel
      → (pruned : Bool) × (gone : List Record) × (svc' : MemService) × (apply_record_retention fuel
            svc max max_age kept now storage_root
          ≡ some (pruned, (gone, svc')))
        × IsValid svc'
        × (count (record_matches_retention_kind kept) svc'.records ≤ max)
  unfolding apply_record_retention find_oldest_record_index record_matches_retention_kind
  apply_record_retention-Ends fuel svc max max_age now storage_root v some_max h =
      let limited : (max == 0) ≡ false = ground arith in
      let on : ltb 0 max ≡ true = ground arith in
      let (pruned, at, e, v', n) =
        retain_loop-Ends (record_matches_retention_kind kept) (over_limit max kept) storage_root
          refl kept_in_table (λ s w. rw on (count_retained-eq s w)) max fuel false ([], svc) v h in
      elim (Bool-cases (ltb 0 max_age)) [
        | inr ageless ↦ (pruned, at.0, at.1, rw (limited, e, ageless) refl, v', omega (arith, n))
        | inl aged ↦
            let done =
              expire_loop (has_expired kept now max_age) storage_root 0 (length at.1.records)
                (pruned, at) in
            let (v2, n2) =
              expire_loop-Fewer now max_age storage_root 0 (length at.1.records) pruned at v' in
            (done.0, done.1.0, done.1.1, rw (limited, e, aged) refl, v2, omega (arith, n, n2))
      ]
