-- ===== src/Service/Retention.antt =====
-- Records that are given up: the retention of checkpoints and records in
-- components/mem_service/mem_service_daemon.c. The files of a payload block are removed outside this
-- model: what is kept of it is the list of the records whose blocks are removed.
pub mod Oldest
pub mod Keeps
pub mod Blocks
use mem_service.Base.{
  ℕ, zero, suc, ◌+◌, ◌-◌, Bool, true, false, not, ◌&&◌, ◌||◌, Option, none, some, List, [], ◌∷◌,
  ◌++◌, ltb, leb, ◌==◌, if◌then◌else◌, any_of, all_of, length, set, count, get_elem?,
}
use mem_service.Base.Text.{Text, c_str, strcmp_eq, snprintf_text, codes}
use mem_service.Service.{Record, MemService, zero_record, kind_training_artifact}
use mem_service.Service.Idempotency.{prune_idempotency_for_record_key}

unfoldable pub record_is_checkpoint : Record → Bool
record_is_checkpoint r =
    r.in_use && (r.kind == kind_training_artifact && strcmp_eq r.artifact_kind (codes "checkpoint"))

unfoldable pub count_checkpoint_records : MemService → ℕ
count_checkpoint_records svc = count record_is_checkpoint svc.records

abbrev pub is_older : Record → Record → Bool
is_older r best =
    ltb r.version best.version
    || (r.version == best.version
        && ltb r.object_publish_monotonic_ms best.object_publish_monotonic_ms)

abbrev pub older_than : Record → Option (ℕ × Record) → Bool
older_than r none = true
older_than r (some (_, best)) = is_older r best

-- The loop of both searches, from index `i` on, with the oldest so far.
unfoldable pub oldest_from :
    (Record → Bool) → ℕ → Option (ℕ × Record) → List Record → Option (ℕ × Record)
oldest_from matches i best [] = best
oldest_from matches i best (r ∷ rs) =
    oldest_from matches (suc i) (if matches r && older_than r best then some (i, r) else best) rs

unfoldable pub find_oldest_checkpoint_record_index : MemService → Option (ℕ × Record)
find_oldest_checkpoint_record_index svc = oldest_from record_is_checkpoint 0 none svc.records

-- What the limits say: the kind 0 is every kind, and a tenant counts only where it is enabled.
pub record Kept : Type 0 where
  pub kind : ℕ
  pub tenant_enabled : Bool
  pub tenant : ℕ

unfoldable pub record_matches_retention_kind : Kept → Record → Bool
record_matches_retention_kind kept r =
    r.in_use
    && ((kept.kind == 0 || r.kind == kept.kind)
        && (not kept.tenant_enabled || r.object_owner_node == kept.tenant))

unfoldable pub count_retained_kind_records : MemService → Kept → ℕ
count_retained_kind_records svc kept =
    if kept.kind == 0 && not kept.tenant_enabled
    then svc.record_count
    else count (record_matches_retention_kind kept) svc.records

unfoldable pub find_oldest_record_index : MemService → Kept → Option (ℕ × Record)
find_oldest_record_index svc kept =
    oldest_from (record_matches_retention_kind kept) 0 none svc.records

unfoldable pub record_has_payload_block : Record → Bool
record_has_payload_block r =
    if not r.in_use || r.object_payload_checksum == 0
    then false
    else any_of (
        (r.object_payload_kind == 64)
        ∷ (r.object_payload_kind == 65)
        ∷ (r.object_payload_kind == 66)
        ∷ (r.object_payload_kind == 67)
        ∷ [])

-- `svc->records[i]` for each `i` but one, that is in use and has the same block.
abbrev pub same_block : Record → Record → Bool
same_block r candidate =
    candidate.in_use
    && (candidate.object_payload_kind == r.object_payload_kind
        && candidate.object_payload_checksum == r.object_payload_checksum)

unfoldable pub referenced_but : Record → List Record → ℕ → Bool
referenced_but r [] skip = false
referenced_but r (candidate ∷ rs) zero = leb 1 (count (same_block r) rs)
referenced_but r (candidate ∷ rs) (suc skip) = same_block r candidate || referenced_but r rs skip

unfoldable pub payload_block_is_referenced : MemService → Record → ℕ → Bool
payload_block_is_referenced svc r skip_index =
    if not (record_has_payload_block r) then false else referenced_but r svc.records skip_index

-- The storage root is the empty text where it is NULL.
unfoldable pub gc_payload_block_if_orphaned : MemService → ℕ → Record → Text → List Record
gc_payload_block_if_orphaned svc record_index r storage_root =
    if length (c_str storage_root) == 0
    then []
    else if not (record_has_payload_block r) || payload_block_is_referenced svc r record_index
    then []
    else r ∷ []

-- A service with the records whose payload blocks were removed on the way.
abbrev pub Retained : Type 0
Retained = List Record × MemService

-- One record is given up: its block, its slot, its count, and the answers that name it.
unfoldable pub retire : Text → Retained → ℕ → Record → Retained
retire storage_root (gone, svc) i r = (
  gone ++ gc_payload_block_if_orphaned svc i r storage_root,
  prune_idempotency_for_record_key
      (record svc {
        record_count = if ltb 0 svc.record_count then svc.record_count - 1 else svc.record_count;
        records = set svc.records i zero_record;
      })
      (snprintf_text 96 r.key),
)

abbrev pub retire_found :
    Text
    → Retained
    → Option (ℕ × Record)
    → (Retained → Option (Bool × Retained))
    → Bool
    → Option (Bool × Retained)
retire_found storage_root at none again pruned = some (pruned, at)
retire_found storage_root at (some (i, r)) again pruned = again (retire storage_root at i r)

-- `while (count(…) > max) …`, on fuel; the Bool is whether a record was given up.
unfoldable pub retain_loop :
    (MemService → ℕ)
    → (MemService → Option (ℕ × Record))
    → ℕ
    → Text
    → ℕ
    → Bool
    → Retained
    → Option (Bool × Retained)
retain_loop measure find max_records storage_root zero pruned at = none
retain_loop measure find max_records storage_root (suc fuel) pruned at =
    let again = retain_loop measure find max_records storage_root fuel true in
    if ltb max_records (measure at.1)
    then retire_found storage_root at (find at.1) again pruned
    else some (pruned, at)

unfoldable pub apply_checkpoint_retention : ℕ → MemService → ℕ → Text → Option (Bool × Retained)
apply_checkpoint_retention fuel svc max_checkpoint_records storage_root =
    if max_checkpoint_records == 0
    then some (false, ([], svc))
    else retain_loop count_checkpoint_records find_oldest_checkpoint_record_index
        max_checkpoint_records storage_root fuel false ([], svc)

-- Too old, by a clock that has reached the time of its publication.
abbrev pub has_expired : Kept → ℕ → ℕ → Record → Bool
has_expired kept now_ms max_age_ms r = not (
    any_of (
      (not (record_matches_retention_kind kept r))
      ∷ (r.object_publish_monotonic_ms == 0)
      ∷ (ltb now_ms r.object_publish_monotonic_ms)
      ∷ (leb (now_ms - r.object_publish_monotonic_ms) max_age_ms)
      ∷ []))

abbrev pub expire_slot :
    (Record → Bool) → Text → ℕ → Option Record → Bool × Retained → Bool × Retained
expire_slot expired storage_root i none (pruned, at) = (pruned, at)
expire_slot expired storage_root i (some r) (pruned, at) =
    if expired r then (true, retire storage_root at i r) else (pruned, at)

-- `for (i = …; i < …; ++i)`, for `n` slots from `i` on.
unfoldable pub expire_loop : (Record → Bool) → Text → ℕ → ℕ → Bool × Retained → Bool × Retained
expire_loop expired storage_root i zero at = at
expire_loop expired storage_root i (suc n) (pruned, at) =
    expire_loop expired storage_root (suc i) n
      (expire_slot expired storage_root i (get_elem? at.1.records i) (pruned, at))

abbrev pub then_expire : Kept → ℕ → ℕ → Text → Option (Bool × Retained) → Option (Bool × Retained)
then_expire kept now_ms max_age_ms storage_root none = none
then_expire kept now_ms max_age_ms storage_root (some (pruned, at)) = some (
    if ltb 0 max_age_ms
    then expire_loop (has_expired kept now_ms max_age_ms) storage_root 0 (length at.1.records)
        (pruned, at)
    else (pruned, at))

abbrev pub over_limit : ℕ → Kept → MemService → ℕ
over_limit max_retained_records kept svc =
    if ltb 0 max_retained_records then count_retained_kind_records svc kept else 0

unfoldable pub apply_record_retention :
    ℕ → MemService → ℕ → ℕ → Kept → ℕ → Text → Option (Bool × Retained)
apply_record_retention fuel svc max_retained_records max_age_ms kept now_ms storage_root =
    if max_retained_records == 0 && max_age_ms == 0
    then some (false, ([], svc))
    else then_expire kept now_ms max_age_ms storage_root (
        retain_loop (over_limit max_retained_records kept) (λ s. find_oldest_record_index s kept)
          max_retained_records storage_root fuel false ([], svc))
