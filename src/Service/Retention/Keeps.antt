-- ===== src/Service/Retention/Keeps.antt =====
-- What every record that retention gives up keeps, retention keeps.
use mem_service.Base.{
  ℕ, zero, suc, ◌≡◌, subst, inl, inr, Bool, true, false, ◌&&◌, Option, none, some, [], ltb, ◌==◌,
  length, get_elem?, Bool-cases, Option-cases, arith,
}
use mem_service.Base.Text.{Text}
use mem_service.Service.{Record, MemService}
use mem_service.Service.Retention.{
  oldest_from, Kept, record_is_checkpoint, record_matches_retention_kind, find_oldest_record_index,
  find_oldest_checkpoint_record_index, count_checkpoint_records, Retained, retire, retain_loop,
  has_expired, expire_slot, expire_loop, over_limit, apply_record_retention,
  apply_checkpoint_retention,
}
use mem_service.Service.Retention.Oldest.{oldest_from_lem}

module _ (storage_root : Text) (Q : Retained → Type 0)
    (step : (at : Retained) (i : ℕ) (r : Record)
      → get_elem? at.1.records i ≡ some r
      → Q at
      → Q (retire storage_root at i r)) where
  retain_loop-keeps :
      (p : Record → Bool) (measure : MemService → ℕ) (max fuel : ℕ) (pruned : Bool) (at : Retained)
      {pruned' : Bool} {at' : Retained}
      → Q at
      → retain_loop measure (λ s. oldest_from p 0 none s.records) max storage_root fuel pruned at
        ≡ some (pruned', at')
      → Q at'
  unfolding retain_loop
  retain_loop-keeps p measure max zero pruned at h e = absurd (ground arith)
  retain_loop-keeps p measure max (suc fuel) pruned at {pruned'} {at'} h e =
      elim (Bool-cases (ltb max (measure at.1))) [
        | inr under ↦
            let e' : ◌≡◌ {A = Option (Bool × Retained)} (some (pruned, at)) (some (pruned', at')) =
              rw under at e in
            let same : at ≡ at' = cc in subst Q same h
        | inl over ↦ elim (oldest_from_lem p at.1.records) [
          | inl (nothing, _) ↦
              let e' : ◌≡◌ {A = Option (Bool × Retained)} (some (pruned, at))
                  (some (pruned', at')) =
                rw (over, nothing) at e in
              let same : at ≡ at' = cc in subst Q same h
          | inr (i, r, found, held, _, _) ↦
              retain_loop-keeps p measure max fuel true (retire storage_root at i r)
                (step at i r held h) (rw (over, found) at e)
        ]
      ]

  expire_slot-keeps :
      (expired : Record → Bool) (i : ℕ) (pruned : Bool) (at : Retained)
      → Q at
      → let step = expire_slot expired storage_root i (get_elem? at.1.records i) (pruned, at) in
        Q step.1
  expire_slot-keeps expired i pruned at h = elim (Option-cases (get_elem? at.1.records i)) [
    | inl out ↦ rw out h
    | inr (r, held) ↦ rw held (elim (Bool-cases (expired r)) [
      | inr young ↦ rw young h
      | inl old ↦ rw old (step at i r held h)
    ])
  ]

  expire_loop-keeps :
      (expired : Record → Bool) (i n : ℕ) (pruned : Bool) (at : Retained)
      → Q at
      → let last = expire_loop expired storage_root i n (pruned, at) in Q last.1
  unfolding expire_loop
  expire_loop-keeps expired i zero pruned at h = h
  expire_loop-keeps expired i (suc n) pruned at h =
      let step = expire_slot expired storage_root i (get_elem? at.1.records i) (pruned, at) in
      expire_loop-keeps expired (suc i) n step.0 step.1 (expire_slot-keeps expired i pruned at h)

  pub apply_record_retention-keeps :
      (fuel : ℕ) (svc : MemService) (max max_age : ℕ) (kept : Kept) (now : ℕ) {pruned : Bool}
      {end : Retained}
      → Q ([], svc)
      → apply_record_retention fuel svc max max_age kept now storage_root ≡ some (pruned, end)
      → Q end
  unfolding apply_record_retention find_oldest_record_index
  apply_record_retention-keeps fuel svc max max_age kept now {pruned} {end} start e =
      elim (Bool-cases (max == 0 && max_age == 0)) [
        | inl unlimited ↦
            let e' : ◌≡◌ {A = Option (Bool × Retained)} (some (false, ([], svc)))
                (some (pruned, end)) =
              rw unlimited at e in
            let same : ([], svc) ≡ end = cc in subst Q same start
        | inr limited ↦
            let loop =
              retain_loop (over_limit max kept)
                (λ s. oldest_from (record_matches_retention_kind kept) 0 none s.records) max
                storage_root fuel false ([], svc) in
            elim (Option-cases loop) [
              | inl stuck ↦
                  absurd
                    (let e' : none ≡ some (pruned, end) = rw (limited, stuck) at e in ground arith)
              | inr ((pr, at), ran) ↦
                  let clear : Q at =
                    retain_loop-keeps (record_matches_retention_kind kept) (over_limit max kept) max
                      fuel false ([], svc) start ran in
                  elim (Bool-cases (ltb 0 max_age)) [
                    | inr ageless ↦
                        let e' : ◌≡◌ {A = Option (Bool × Retained)} (some (pr, at))
                            (some (pruned, end)) =
                          rw (limited, ran, ageless) at e in
                        let same : at ≡ end = cc in subst Q same clear
                    | inl aged ↦
                        let expired = has_expired kept now max_age in
                        let n = length at.1.records in
                        let e' : ◌≡◌ {A = Option (Bool × Retained)}
                            (some (expire_loop expired storage_root 0 n (pr, at)))
                            (some (pruned, end)) =
                          rw (limited, ran, aged) at e in
                        let same : expire_loop expired storage_root 0 n (pr, at) ≡ (pruned, end) =
                          cc in
                        subst (λ (l : Bool × Retained). Q l.1) same
                          (expire_loop-keeps expired 0 n pr at clear)
                  ]
            ]
      ]

  pub apply_checkpoint_retention-keeps :
      (fuel : ℕ) (svc : MemService) (max : ℕ) {pruned : Bool} {end : Retained}
      → Q ([], svc)
      → apply_checkpoint_retention fuel svc max storage_root ≡ some (pruned, end)
      → Q end
  unfolding apply_checkpoint_retention find_oldest_checkpoint_record_index
  apply_checkpoint_retention-keeps fuel svc max {pruned} {end} start e =
      elim (Bool-cases (max == 0)) [
        | inl unlimited ↦
            let e' : ◌≡◌ {A = Option (Bool × Retained)} (some (false, ([], svc)))
                (some (pruned, end)) =
              rw unlimited at e in
            let same : ([], svc) ≡ end = cc in subst Q same start
        | inr limited ↦
            retain_loop-keeps record_is_checkpoint count_checkpoint_records max fuel false ([], svc)
              start (rw limited at e)
      ]
