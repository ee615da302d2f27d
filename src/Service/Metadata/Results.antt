-- ===== src/Service/Metadata/Results.antt =====
-- What the updates of a block answer, and what they leave of the records.
use mem_service.Base.{
  ℕ, ◌≤◌, ◌≡◌, ◌≢◌, refl, sym, subst, ap, ◌∙◌, inl, inr, true, false, Option, some, List, [], ◌∷◌,
  Bool-cases, if◌then◌else◌, ◌!=◌, arith,
}
use mathlib.Core.Option.{map}
use mem_service.Base.Text.{Text}
use mem_service.Service.{Record, MemService, kind_block_meta}
use mem_service.Service.Keys.{BlockCtx, build_block_key}
use mem_service.Service.Records.{find_record, get_record}
use mem_service.Service.Records.Table.{same_key, find_slot-same_key}
use mem_service.Service.Records.Valid.{IsValid}
use mem_service.Service.Metadata.{
  Rc, unchanged, not_owner, update_slot, update_block_result, result_is_stale,
}
use mem_service.Service.Metadata.Flows.{stop, update_owned_block, apply_block_result}
use mem_service.Service.Metadata.Puts.{get_record-some}
use mem_service.Service.Metadata.Evolves.{Evolves, here, put, Evolves-IsValid, Evolves-trans}
use mem_service.Service.Metadata.Histories.{Forward}
use mem_service.Service.Metadata.Reachable.{Update, perform, perform-Runs}

unfoldable pub perform_all : List Update → MemService → MemService
perform_all [] svc = svc
perform_all (u ∷ us) svc = perform_all us (perform u svc).1

pub get_record-same_key :
    (svc : MemService) (k j : Text) → same_key k j ≡ true → get_record svc k ≡ get_record svc j
unfolding get_record find_record
get_record-same_key svc k j same =
    ap (map (λ (i, r). r)) (sym (find_slot-same_key svc.records k j same refl))

-- A record that is there stays, as one that is further on.
abbrev pub Later : Record → Option Record → Type 0
Later r o = (r' : Record) × (o ≡ some r') × Forward (some r) r'

Forward-trans : (r s t : Record) → Forward (some r) s → Forward (some s) t → Forward (some r) t
unfolding Forward
Forward-trans r s t (kinded, on) (kinded', on') = (
  kinded' ∙ kinded,
  λ block. let first = on block in let next = on' (kinded ∙ block) in omega (arith, first, next),
)

Evolves-Later :
    {svc t : MemService} (key : Text) {r : Record}
    → Evolves Forward svc t
    → get_record svc key ≡ some r
    → Later r (get_record t key)
unfolding Forward
Evolves-Later key {r} here e = (r, e, (refl, λ _. omega arith))
Evolves-Later {svc} key {r} (put {t} {u} k b e p good f) found =
    let (s, now, g) = Evolves-Later key e found in
    elim (Bool-cases (same_key k key)) [
      | inl same ↦ (
        b,
        p.looked_up key ∙ ap (λ c. if c then some b else get_record t key) same,
        Forward-trans r s b g (subst (λ o. Forward o b) (get_record-same_key t k key same ∙ now) f),
      )
      | inr differ ↦
          (s, p.looked_up key ∙ ap (λ c. if c then some b else get_record t key) differ ∙ now, g)
    ]

perform_all-Evolves :
    (us : List Update) (svc : MemService) → IsValid svc → Evolves Forward svc (perform_all us svc)
unfolding perform_all
perform_all-Evolves [] svc v = here
perform_all-Evolves (u ∷ us) svc v =
    let e = ((perform-Runs u).at svc v).0 in
    Evolves-trans e (perform_all-Evolves us (perform u svc).1 (Evolves-IsValid e v))

-- Through any updates of a valid service, whichever fail, a block stays under its key and stays a
-- block, and its last result segment never goes back.
pub perform_all-Forward :
    (us : List Update) (svc : MemService) (key : Text) {r : Record}
    → IsValid svc
    → get_record svc key ≡ some r
    → r.kind ≡ kind_block_meta
    → (r' : Record) × (get_record (perform_all us svc) key ≡ some r')
      × (r'.kind ≡ kind_block_meta)
      × (r.last_result_segment ≤ r'.last_result_segment)
unfolding Forward
perform_all-Forward us svc key v found block =
    let (r', now, (kinded, on)) = Evolves-Later key (perform_all-Evolves us svc v) found in
    (r', now, kinded ∙ block, on block)

-- An update by a context that is not at the node of the block is refused, whatever it would write, and
-- changes nothing.
pub update_owned_block-refused :
    (ctx : BlockCtx) (svc : MemService) (key : Text) {r : Record}
    (update : MemService → Text → Rc × MemService)
    → build_block_key ctx 96 ≡ some key
    → get_record svc key ≡ some r
    → r.placement_node ≢ ctx.placement_node
    → update_owned_block ctx update svc ≡ (stop not_owner, svc)
unfolding update_owned_block
update_owned_block-refused ctx svc key {r} update built found away =
    let moved : (r.placement_node != ctx.placement_node) ≡ true = ground arith in
    rw (built, found, moved) refl

-- A result that is not newer than the last one of the block changes nothing.
pub apply_block_result-stale :
    (ctx : BlockCtx) (svc : MemService) (key : Text) {r : Record} (segment next_state : ℕ)
    → build_block_key ctx 96 ≡ some key
    → get_record svc key ≡ some r
    → r.placement_node ≡ ctx.placement_node
    → r.kind ≡ kind_block_meta
    → r.last_result_segment ≢ 0
    → segment ≤ r.last_result_segment
    → apply_block_result ctx segment next_state svc ≡ (stop unchanged, svc)
unfolding update_owned_block apply_block_result update_block_result update_slot
apply_block_result-stale ctx svc key {r} segment next_state built found home kinded some_result
      old =
    let (i, slot) = get_record-some svc key found in
    let kept : (r.placement_node != ctx.placement_node) ≡ false = ground arith in
    let block : (r.kind != kind_block_meta) ≡ false = ground arith in
    let stale : result_is_stale segment r ≡ true = ground arith in
    rw (built, found, kept, slot, block, stale) refl
