-- ===== src/Provider/Transfer/Done.antt =====
-- A transfer or a receive fence that is reported as done, and one that asks for too much.
use mem_service.Base.{
  ℕ, ◌+◌, ◌≤◌, ◌<◌, ◌≡◌, ◌≢◌, refl, sym, ap, ◌∙◌, ◌⊎◌, Bool, true, false, Option, none, some, List,
  ◌∷◌, [], any_of, any_of-AllFalse, ◌==◌, Bool-cases, inl, inr, arith,
}
use mem_service.Provider.Types.{
  Reply, Provider, Registry, Channel, RegionBinding, RemoteRegion, TransferRequest, ReceiveRequest,
  TransferCompletion,
}
use mem_service.Provider.Channel.{function_of}
use mem_service.Provider.Channel.Bound.{
  Ready, probed_only, with_ready_refused, with_ready-some, guarded-some, same_provider_eq,
}
use mem_service.Provider.Transfer.Delivery.{Submitted, submit_transfer_lem}
use mem_service.Provider.Transfer.{
  receive_request, submit_conditions, call_submit, submit_transfer, completion_conditions,
  finish_poll, call_poll, poll_transfer, after_submit, transfer, receive_conditions,
  received_conditions, call_receive, wait_receive,
}

-- A completion of the whole range, with the checksum that was expected.
pub record Complete (c : TransferCompletion) (len checksum : ℕ) : Type 0 where
  pub id_set : c.id ≢ 0
  pub no_error : c.status ≡ 0
  pub whole : c.transferred_bytes ≡ len
  pub intact : c.checksum ≡ checksum
  pub not_empty : len ≢ 0
  pub checked : checksum ≢ 0

module _ {W : Type 0} where
  finish_poll-some :
      (conditions : List Bool) (reply : Reply TransferCompletion W) {c : TransferCompletion}
      → (finish_poll conditions reply).0 ≡ some c
      → (any_of conditions ≡ false) × (reply.out ≡ c)
  unfolding finish_poll
  finish_poll-some conditions reply h =
      let (good, call, _) = guarded-some (any_of conditions) reply.world _ h in (good, cc call)

  completion_accepted :
      (id len checksum : ℕ) (reply : Reply TransferCompletion W)
      → any_of (completion_conditions id len checksum reply) ≡ false
      → (reply.out.id ≡ id)
        × (reply.out.status ≡ 0)
        × (reply.out.transferred_bytes ≡ len)
        × (reply.out.checksum ≡ checksum)
  completion_accepted id len checksum reply h =
      let c = any_of-AllFalse (completion_conditions id len checksum reply) h in
      (ground arith, ground arith, ground arith, ground arith)

  call_poll-some :
      (p : Provider W) (id len checksum : ℕ) (f : Option (ℕ → ℕ → W → Reply TransferCompletion W))
      (w : W) {c : TransferCompletion}
      → (call_poll p id len checksum f w).0 ≡ some c
      → Complete c len checksum × (c.id ≡ id)
  unfolding call_poll
  call_poll-some p id len checksum none w h = absurd (ground arith)
  call_poll-some p id len checksum (some f) w {c} h =
      let guard : List Bool = (id == 0) ∷ (len == 0) ∷ (checksum == 0) ∷ [] in
      let (good, call, _) = guarded-some (any_of guard) w _ h in
      let (accepted, same) =
        finish_poll-some (completion_conditions id len checksum (f p.context id w))
          (f p.context id w) call in
      let g = any_of-AllFalse guard good in
      let (a, b, d, e) = completion_accepted id len checksum (f p.context id w) accepted in
      (
        record {
          id_set = ground arith;
          no_error = ground arith;
          whole = ground arith;
          intact = ground arith;
          not_empty = ground arith;
          checked = ground arith;
        },
        ground arith,
      )

  poll_transfer-Complete :
      (reg : Registry W) (channel : Channel) (id len checksum : ℕ) (w : W) {c : TransferCompletion}
      → (poll_transfer reg channel id len checksum w).0 ≡ some c
      → Complete c len checksum × (c.id ≡ id)
  unfolding poll_transfer
  poll_transfer-Complete reg channel id len checksum w h =
      let (r, _, call) = with_ready-some reg channel w _ h in
      call_poll-some r.provider id len checksum
        (function_of r.provider.ops (λ o. o.poll_completion)) r.probed call

  after_submit-some :
      (reg : Registry W) (channel : Channel) (len checksum : ℕ) (t : Option ℕ × W)
      {c : TransferCompletion}
      → (after_submit reg channel len checksum t).0 ≡ some c
      → (t.0 ≡ some c.id) × Complete c len checksum
  unfolding after_submit
  after_submit-some reg channel len checksum (none, w) h = absurd (ground arith)
  after_submit-some reg channel len checksum (some id, w) h =
      let (complete, same) = poll_transfer-Complete reg channel id len checksum w h in
      (ap some (sym same), complete)

  -- A transfer that reports done was submitted within the bounds of both regions, under the id of
  -- the completion, and has moved the whole range without error and with the expected checksum.
  pub transfer_lem :
      (reg : Registry W) (channel : Channel) (source : RegionBinding) (source_offset : ℕ)
      (destination : RemoteRegion) (destination_offset len checksum : ℕ) (w : W)
      {c : TransferCompletion}
      → (transfer reg channel source source_offset destination destination_offset len checksum w).0
        ≡ some c
      → Complete c len checksum
        × Submitted reg channel source source_offset destination destination_offset len checksum w
            c.id
            (submit_transfer reg channel source source_offset destination destination_offset len
              checksum w).1
  unfolding transfer
  transfer_lem reg channel source source_offset destination destination_offset len checksum w h =
      let (submitted, complete) = after_submit-some reg channel len checksum _ h in
      (
        complete,
        submit_transfer_lem reg channel source source_offset destination destination_offset len
            checksum w submitted,
      )

  call_submit_refused :
      (p : Provider W) (conditions : List Bool) (request : TransferRequest)
      (f : Option (ℕ → TransferRequest → W → Reply ℕ W)) (w : W)
      → any_of conditions ≡ true
      → call_submit p conditions request f w ≡ (none, w)
  unfolding call_submit
  call_submit_refused p conditions request none w h = refl
  call_submit_refused p conditions request (some f) w h = rw h

  out_of_bounds :
      (p : Provider W) (channel : Channel) (source : RegionBinding) (source_offset : ℕ)
      (destination : RemoteRegion) (destination_offset len checksum : ℕ)
      → (source.region.len < source_offset + len) ⊎ (destination.len < destination_offset + len)
      → any_of (
          submit_conditions p channel source source_offset destination destination_offset len
            checksum)
        ≡ true
  out_of_bounds p channel source source_offset destination destination_offset len checksum h =
      let conditions =
        submit_conditions p channel source source_offset destination destination_offset len
          checksum in
      elim (Bool-cases (any_of conditions)) [
        | inl bad ↦ bad
        | inr good ↦ let c = any_of-AllFalse conditions good in absurd (ground arith)
      ]

  -- A transfer that would leave either region, also by offsets whose sum passes 2 ^ 64, is refused;
  -- the provider is probed, and no other function of it is called.
  pub submit_transfer_out_of_bounds :
      (reg : Registry W) (channel : Channel) (source : RegionBinding) (source_offset : ℕ)
      (destination : RemoteRegion) (destination_offset len checksum : ℕ) (w : W)
      → (source.region.len < source_offset + len) ⊎ (destination.len < destination_offset + len)
      → (submit_transfer reg channel source source_offset destination destination_offset len
            checksum w
          ≡ (none, probed_only reg channel w))
  unfolding submit_transfer
  submit_transfer_out_of_bounds reg channel source source_offset destination destination_offset len
        checksum w h =
      with_ready_refused reg channel w _ λ p w'.
        call_submit_refused p _ _ (function_of p.ops (λ o. o.submit_transfer)) w' (
          out_of_bounds p channel source source_offset destination destination_offset len checksum
            h)

  call_receive-some :
      (p : Provider W) (conditions : List Bool) (request : ReceiveRequest)
      (f : Option (ℕ → ReceiveRequest → W → Reply TransferCompletion W)) (w : W)
      {c : TransferCompletion}
      → (call_receive p conditions request f w).0 ≡ some c
      → (any_of conditions ≡ false)
        × (c.id ≢ 0)
        × (c.status ≡ 0)
        × (c.transferred_bytes ≡ request.destination.len)
        × (c.checksum ≡ request.expected_checksum)
        × (function : ℕ → ReceiveRequest → W → Reply TransferCompletion W) × (f ≡ some function)
        × ((function p.context request w).out ≡ c)
        × ((call_receive p conditions request f w).1 ≡ (function p.context request w).world)
  unfolding call_receive finish_poll
  call_receive-some p conditions request none w h = absurd (ground arith)
  call_receive-some p conditions request (some f) w {c} h =
      let reply = f p.context request w in
      let checks = received_conditions request.destination.len request.expected_checksum reply in
      let (good, call, step) = guarded-some (any_of conditions) w _ h in
      let (accepted, same) = finish_poll-some checks reply call in
      let (_, _, step') =
        guarded-some (any_of checks) reply.world (some reply.out, reply.world) call in
      let d = any_of-AllFalse checks accepted in
      (
        good,
        ground arith,
        ground arith,
        ground arith,
        ground arith,
        f,
        refl,
        same,
        ap (λ t. t.1) (step ∙ step'),
      )

  -- A fence as the provider was given it, and its answer.
  pub record Fenced (reg : Registry W) (channel : Channel) (destination : RegionBinding)
      (offset len checksum : ℕ) (w : W) (c : TransferCompletion) (w' : W) : Type 0 where
    pub ready : Ready reg channel w
    pub fence : ℕ → ReceiveRequest → W → Reply TransferCompletion W
    pub found : function_of ready.provider.ops (λ o. o.wait_receive) ≡ some fence
    pub request : ReceiveRequest
    pub of_region : request.destination.region_handle ≡ destination.region.handle
    pub described : request.destination.descriptor ≡ destination.region.descriptor
    pub from_offset : request.destination.offset ≡ offset
    pub of_length : request.destination.len ≡ len
    pub expecting : request.expected_checksum ≡ checksum
    pub answered : (fence ready.provider.context request ready.probed).out ≡ c
    pub left : (fence ready.provider.context request ready.probed).world ≡ w'
    pub registered : destination.registered ≡ true
    pub owned : destination.owner ≡ channel.provider
    pub in_bounds : offset + len ≤ destination.region.len

  -- The completion of a receive fence is the answer of the provider's fence function, called where the
  -- channel has just been found ready, with the handle and the descriptor of the region and the offset,
  -- the length and the checksum of the range; what that call leaves is left. The range lies in a
  -- registered region of that provider, and the answer is of all of it, without error and with the
  -- expected checksum.
  pub wait_receive_lem :
      (reg : Registry W) (channel : Channel) (destination : RegionBinding) (offset len checksum : ℕ)
      (w : W) {c : TransferCompletion}
      → (wait_receive reg channel destination offset len checksum w).0 ≡ some c
      → Complete c len checksum
        × Fenced reg channel destination offset len checksum w c
            (wait_receive reg channel destination offset len checksum w).1
  unfolding wait_receive
  wait_receive_lem reg channel destination offset len checksum w h =
      let (r, step, call) = with_ready-some reg channel w _ h in
      let conditions = receive_conditions r.provider channel destination offset len checksum in
      let (good, set, clean, whole, intact, f, found, same, left) =
        call_receive-some r.provider conditions (receive_request destination offset len checksum)
          (function_of r.provider.ops (λ o. o.wait_receive)) r.probed call in
      let d = any_of-AllFalse conditions good in
      (
        record {
          id_set = set;
          no_error = clean;
          whole = whole;
          intact = intact;
          not_empty = ground arith;
          checked = ground arith;
        },
        record {
          ready = r;
          fence = f;
          found = found;
          request = receive_request destination offset len checksum;
          of_region = refl;
          described = refl;
          from_offset = refl;
          of_length = refl;
          expecting = refl;
          answered = same;
          left = sym left ∙ ap (λ t. t.1) (sym step);
          registered = ground arith;
          owned = same_provider_eq destination.owner channel.provider (ground arith);
          in_bounds = ground arith;
        },
      )
