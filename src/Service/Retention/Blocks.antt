-- ===== src/Service/Retention/Blocks.antt =====
-- The payload blocks that retention removes are those of no record that is left.
use mem_service.Base.{
  ℕ, zero, suc, ◌≡◌, refl, ap, ◌∙◌, inl, inr, Bool, false, some, List, [], ◌∷◌, All, All-append,
  ◌==◌, length, set, count, get_elem?, Bool-cases, arith,
}
use mem_service.Base.Text.{Text, c_str}
use mem_service.Service.{Record, MemService, zero_record}
use mem_service.Service.Retention.{
  Kept, record_has_payload_block, same_block, referenced_but, payload_block_is_referenced,
  gc_payload_block_if_orphaned, Retained, retire, apply_record_retention,
}
use mem_service.Service.Retention.Keeps.{apply_record_retention-keeps}
use mem_service.Service.Retention.Oldest.Limit.{records-retire, count-retire}

-- No record in use has a block that was removed.
abbrev pub Unreferenced : List Record → MemService → Type 0
Unreferenced gone svc = All (λ g. count (same_block g) svc.records ≡ 0) gone

-- A block that no other slot refers to is one that no slot does, once its own is empty.
referenced_but-set :
    (r : Record) (rs : List Record) (i : ℕ)
    → referenced_but r rs i ≡ false
    → count (same_block r) (set rs i zero_record) ≡ 0
unfolding referenced_but count
referenced_but-set r [] i h = refl
referenced_but-set r (c ∷ rs) zero h = ground arith
referenced_but-set r (c ∷ rs) (suc i) h = ground (arith, referenced_but-set r rs i)

module _ (storage_root : Text) (at : Retained) (i : ℕ) (r : Record)
    (held : get_elem? at.1.records i ≡ some r) where
  -- The block of the record goes only where no other refers to it.
  gc-Unreferenced :
      All
        (λ g. count (same_block g) (retire storage_root at i r).1.records ≡ 0)
        (gc_payload_block_if_orphaned at.1 i r storage_root)
  unfolding gc_payload_block_if_orphaned payload_block_is_referenced
  gc-Unreferenced = elim (Bool-cases (length (c_str storage_root) == 0)) [
    | inl no_root ↦ rw no_root tt
    | inr root ↦ elim (Bool-cases (record_has_payload_block r)) [
      | inr blockless ↦ rw (root, blockless) tt
      | inl blocked ↦ elim (Bool-cases (referenced_but r at.1.records i)) [
        | inl shared ↦ rw (root, blocked, shared) tt
        | inr orphaned ↦
            rw (root, blocked, orphaned)
              (
                ap (count (same_block r)) (records-retire storage_root at i r held)
                    ∙ referenced_but-set r at.1.records i orphaned,
                tt,
              )
      ]
    ]
  ]

  kept-Unreferenced :
      (gone : List Record)
      → Unreferenced gone at.1
      → Unreferenced gone (retire storage_root at i r).1
  kept-Unreferenced [] h = tt
  kept-Unreferenced (g ∷ gone) (h, hs) = (
    omega (arith, h, count-retire storage_root at i r held (same_block g) refl),
    kept-Unreferenced gone hs,
  )

  retire-Unreferenced :
      Unreferenced at.0 at.1
      → Unreferenced (retire storage_root at i r).0 (retire storage_root at i r).1
  unfolding retire
  retire-Unreferenced h =
      All-append (λ g. count (same_block g) (retire storage_root at i r).1.records ≡ 0) at.0
        (gc_payload_block_if_orphaned at.1 i r storage_root) (kept-Unreferenced at.0 h)
        gc-Unreferenced

-- Retention of records, for their number or for their age, never removes the payload block of a
-- record that is left: no record that is then in use has the kind and the checksum of a block that is
-- gone.
pub apply_record_retention-Unreferenced :
    (fuel : ℕ) (svc : MemService) (max max_age : ℕ) (kept : Kept) (now : ℕ) (storage_root : Text)
    {pruned : Bool} {gone : List Record} {svc' : MemService}
    → apply_record_retention fuel svc max max_age kept now storage_root
      ≡ some (pruned, (gone, svc'))
    → Unreferenced gone svc'
apply_record_retention-Unreferenced fuel svc max max_age kept now storage_root e =
    apply_record_retention-keeps storage_root (λ at. Unreferenced at.0 at.1)
      (λ at i r held h. retire-Unreferenced storage_root at i r held h) fuel svc max max_age kept
      now tt e
