-- ===== src/Provider/Transfer.antt =====
-- The transfers of components/mem_service/mem_service_provider.c: submitting, polling, both in one
-- call, and the receiver's fence.
pub mod Delivery
pub mod Done
use mem_service.Base.{
  ℕ, ◌-◌, Bool, not, ◌||◌, Option, none, some, List, [], ◌∷◌, ltb, ◌==◌, ◌!=◌, if◌then◌else◌,
  any_of, is_none,
}
use mem_service.Base.Text.{strcmp_eq}
use mem_service.Provider.Types.{
  Reply, Provider, Registry, Channel, RegionBinding, RemoteRegion, TransferRequest, ReceiveRequest,
  TransferCompletion, has_bits, memory_kind_valid, provider_descriptor_len,
}
use mem_service.Provider.Cap
use mem_service.Provider.Channel.{with_ready, function_of, same_provider}

-- The request that is handed to the provider; the rest of it is zeroed.
abbrev pub transfer_request : RegionBinding → ℕ → RemoteRegion → ℕ → ℕ → ℕ → TransferRequest
transfer_request source source_offset destination destination_offset len checksum = record {
  source = record {
    region_handle = source.region.handle;
    offset = source_offset;
    len = len;
    descriptor = source.region.descriptor;
  };
  destination = record {
    region_handle = 0;
    offset = destination_offset;
    len = len;
    descriptor = destination.descriptor;
  };
  expected_checksum = checksum;
  flags = 0;
}

abbrev pub receive_request : RegionBinding → ℕ → ℕ → ℕ → ReceiveRequest
receive_request destination offset len checksum = record {
  destination = record {
    region_handle = destination.region.handle;
    offset = offset;
    len = len;
    descriptor = destination.region.descriptor;
  };
  expected_checksum = checksum;
  flags = 0;
}

module _ {W : Type 0} where
  abbrev pub submit_conditions :
      Provider W → Channel → RegionBinding → ℕ → RemoteRegion → ℕ → ℕ → ℕ → List Bool
  submit_conditions p channel source source_offset destination destination_offset len checksum =
      not source.registered
      ∷ not (same_provider source.owner channel.provider)
      ∷ (len == 0)
      ∷ (checksum == 0)
      ∷ not (strcmp_eq destination.provider_name p.name)
      ∷ (destination.descriptor.len == 0)
      ∷ ltb provider_descriptor_len destination.descriptor.len
      ∷ not (memory_kind_valid destination.memory_kind)
      ∷ ltb source.region.len source_offset
      ∷ ltb (source.region.len - source_offset) len
      ∷ ltb destination.len destination_offset
      ∷ ltb (destination.len - destination_offset) len
      ∷ not (has_bits p.capabilities Cap.transfer_mask)
      ∷ is_none (function_of p.ops (λ o. o.poll_completion))
      ∷ []

  finish_submit : Reply ℕ W → Option ℕ × W
  finish_submit reply =
      if reply.rc != 0 || reply.out == 0 then (none, reply.world) else (some reply.out, reply.world)

  -- The guard, and the call of the provider where it passes.
  unfoldable pub call_submit :
      Provider W
      → List Bool
      → TransferRequest
      → Option (ℕ → TransferRequest → W → Reply ℕ W)
      → W
      → Option ℕ × W
  unfolding finish_submit
  call_submit p conditions request none w = (none, w)
  call_submit p conditions request (some f) w =
      if any_of conditions then (none, w) else finish_submit (f p.context request w)

  unfoldable pub submit_transfer :
      Registry W → Channel → RegionBinding → ℕ → RemoteRegion → ℕ → ℕ → ℕ → W → Option ℕ × W
  submit_transfer reg channel source source_offset destination destination_offset len checksum w =
      with_ready reg channel w λ p w'.
        call_submit p
          (submit_conditions p channel source source_offset destination destination_offset len
            checksum)
          (transfer_request source source_offset destination destination_offset len checksum)
          (function_of p.ops (λ o. o.submit_transfer)) w'

  -- The completion is the one that was waited for, without error, and of the whole range.
  abbrev pub completion_conditions : ℕ → ℕ → ℕ → Reply TransferCompletion W → List Bool
  completion_conditions id len checksum reply =
      (reply.rc != 0)
      ∷ (reply.out.id != id)
      ∷ (reply.out.status != 0)
      ∷ (reply.out.transferred_bytes != len)
      ∷ (reply.out.checksum != checksum)
      ∷ []

  finish_poll : List Bool → Reply TransferCompletion W → Option TransferCompletion × W
  finish_poll conditions reply =
      if any_of conditions then (none, reply.world) else (some reply.out, reply.world)

  unfoldable pub call_poll :
      Provider W
      → ℕ
      → ℕ
      → ℕ
      → Option (ℕ → ℕ → W → Reply TransferCompletion W)
      → W
      → Option TransferCompletion × W
  unfolding finish_poll
  call_poll p id len checksum none w = (none, w)
  call_poll p id len checksum (some f) w =
      if any_of ((id == 0) ∷ (len == 0) ∷ (checksum == 0) ∷ [])
      then (none, w)
      else let reply = f p.context id w in
        finish_poll (completion_conditions id len checksum reply) reply

  unfoldable pub poll_transfer :
      Registry W → Channel → ℕ → ℕ → ℕ → W → Option TransferCompletion × W
  poll_transfer reg channel id len checksum w =
      with_ready reg channel w
        λ p w'. call_poll p id len checksum (function_of p.ops (λ o. o.poll_completion)) w'

  after_submit : Registry W → Channel → ℕ → ℕ → Option ℕ × W → Option TransferCompletion × W
  after_submit reg channel len checksum (none, w) = (none, w)
  after_submit reg channel len checksum (some id, w) = poll_transfer reg channel id len checksum w

  unfoldable pub transfer :
      Registry W
      → Channel
      → RegionBinding
      → ℕ
      → RemoteRegion
      → ℕ
      → ℕ
      → ℕ
      → W
      → Option TransferCompletion × W
  unfolding after_submit
  transfer reg channel source source_offset destination destination_offset len checksum w =
      after_submit reg channel len checksum (
        submit_transfer reg channel source source_offset destination destination_offset len checksum
          w)

  abbrev pub receive_conditions : Provider W → Channel → RegionBinding → ℕ → ℕ → ℕ → List Bool
  receive_conditions p channel destination offset len checksum =
      not destination.registered
      ∷ not (same_provider destination.owner channel.provider)
      ∷ (len == 0)
      ∷ (checksum == 0)
      ∷ ltb destination.region.len offset
      ∷ ltb (destination.region.len - offset) len
      ∷ not (has_bits p.capabilities Cap.receive_fence)
      ∷ []

  -- A fence has no id to wait for; the provider's must not be 0.
  abbrev pub received_conditions : ℕ → ℕ → Reply TransferCompletion W → List Bool
  received_conditions len checksum reply =
      (reply.rc != 0)
      ∷ (reply.out.id == 0)
      ∷ (reply.out.status != 0)
      ∷ (reply.out.transferred_bytes != len)
      ∷ (reply.out.checksum != checksum)
      ∷ []

  unfoldable pub call_receive :
      Provider W
      → List Bool
      → ReceiveRequest
      → Option (ℕ → ReceiveRequest → W → Reply TransferCompletion W)
      → W
      → Option TransferCompletion × W
  unfolding finish_poll
  call_receive p conditions request none w = (none, w)
  call_receive p conditions request (some f) w =
      if any_of conditions
      then (none, w)
      else let reply = f p.context request w in
        finish_poll (received_conditions request.destination.len request.expected_checksum reply)
          reply

  unfoldable pub wait_receive :
      Registry W → Channel → RegionBinding → ℕ → ℕ → ℕ → W → Option TransferCompletion × W
  wait_receive reg channel destination offset len checksum w = with_ready reg channel w λ p w'.
      call_receive p (receive_conditions p channel destination offset len checksum)
        (receive_request destination offset len checksum) (function_of p.ops (λ o. o.wait_receive))
        w'
