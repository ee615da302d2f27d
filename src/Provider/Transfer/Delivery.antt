-- ===== src/Provider/Transfer/Delivery.antt =====
-- What a transfer has moved when it is reported as done, and what reaches the provider.
use mem_service.Base.{
  ℕ, ◌+◌, ◌≤◌, ◌≡◌, ◌≢◌, refl, sym, ap, ◌∙◌, Bool, true, false, Option, none, some, List, any_of,
  any_of-AllFalse, arith,
}
use mem_service.Base.Text.{strcmp_eq}
use mem_service.Provider.Types.{
  Reply, Provider, Registry, Channel, RegionBinding, RemoteRegion, TransferRequest, has_bits,
}
use mem_service.Provider.Cap
use mem_service.Provider.Channel.{function_of}
use mem_service.Provider.Channel.Bound.{Ready, with_ready-some, guarded-some, same_provider_eq}
use mem_service.Provider.Transfer.{
  transfer_request, submit_conditions, finish_submit, call_submit, submit_transfer,
}

module _ {W : Type 0} where
  -- A transfer as the provider was given it: both ranges lie in their regions, the source is a
  -- registered region of this provider, and the destination one of a provider of the same name.
  pub record Submitted (reg : Registry W) (channel : Channel) (source : RegionBinding)
      (source_offset : ℕ) (destination : RemoteRegion) (destination_offset len checksum : ℕ) (w : W)
      (id : ℕ) (w' : W) : Type 0 where
    pub ready : Ready reg channel w
    pub submit : ℕ → TransferRequest → W → Reply ℕ W
    pub found : function_of ready.provider.ops (λ o. o.submit_transfer) ≡ some submit
    pub reply : Reply ℕ W
    pub called :
        submit ready.provider.context
          (transfer_request source source_offset destination destination_offset len checksum)
          ready.probed
        ≡ reply
    pub id_given : reply.out ≡ id
    pub world_given : reply.world ≡ w'
    pub id_set : id ≢ 0
    pub registered : source.registered ≡ true
    pub owned : source.owner ≡ channel.provider
    pub same_name : strcmp_eq destination.provider_name ready.provider.name ≡ true
    pub not_empty : len ≢ 0
    pub source_in_bounds : source_offset + len ≤ source.region.len
    pub destination_in_bounds : destination_offset + len ≤ destination.len
    pub transfers : has_bits ready.provider.capabilities Cap.transfer_mask ≡ true

  finish_submit-some :
      (reply : Reply ℕ W) {id : ℕ}
      → (finish_submit reply).0 ≡ some id
      → (reply.out ≡ id) × (id ≢ 0) × ((finish_submit reply).1 ≡ reply.world)
  unfolding finish_submit
  finish_submit-some reply h = (ground arith, ground arith, ground arith)

  call_submit-some :
      (p : Provider W) (conditions : List Bool) (request : TransferRequest)
      (f : Option (ℕ → TransferRequest → W → Reply ℕ W)) (w : W) {id : ℕ}
      → (call_submit p conditions request f w).0 ≡ some id
      → (function : ℕ → TransferRequest → W → Reply ℕ W) × (f ≡ some function)
        × (any_of conditions ≡ false)
        × ((function p.context request w).out ≡ id)
        × (id ≢ 0)
        × ((call_submit p conditions request f w).1 ≡ (function p.context request w).world)
  unfolding call_submit
  call_submit-some p conditions request none w h = absurd (ground arith)
  call_submit-some p conditions request (some f) w h =
      let (good, call, step) = guarded-some (any_of conditions) w _ h in
      let (same, set, left) = finish_submit-some (f p.context request w) call in
      (f, refl, good, same, set, ap (λ t. t.1) step ∙ left)

  -- A submitted transfer stays within both regions: the provider is called once, on a ready channel,
  -- with a request whose ranges are in bounds.
  pub submit_transfer_lem :
      (reg : Registry W) (channel : Channel) (source : RegionBinding) (source_offset : ℕ)
      (destination : RemoteRegion) (destination_offset len checksum : ℕ) (w : W) {id : ℕ}
      → (submit_transfer reg channel source source_offset destination destination_offset len
          checksum w).0
        ≡ some id
      → Submitted reg channel source source_offset destination destination_offset len checksum w id
          (submit_transfer reg channel source source_offset destination destination_offset len
            checksum w).1
  unfolding submit_transfer
  submit_transfer_lem reg channel source source_offset destination destination_offset len checksum w
        h =
      let (r, step, call) = with_ready-some reg channel w _ h in
      let conditions =
        submit_conditions r.provider channel source source_offset destination destination_offset len
          checksum in
      let (f, found, good, same, set, left) =
        call_submit-some r.provider conditions
          (transfer_request source source_offset destination destination_offset len checksum)
          (function_of r.provider.ops (λ o. o.submit_transfer)) r.probed call in
      let c = any_of-AllFalse conditions good in
      record {
        ready = r;
        submit = f;
        found = found;
        reply = _;
        called = refl;
        id_given = same;
        world_given = sym left ∙ ap (λ t. t.1) (sym step);
        id_set = set;
        registered = ground arith;
        owned = same_provider_eq source.owner channel.provider (ground arith);
        same_name = ground arith;
        not_empty = ground arith;
        source_in_bounds = ground arith;
        destination_in_bounds = ground arith;
        transfers = ground arith;
      }
