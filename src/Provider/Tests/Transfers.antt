-- ===== src/Provider/Tests/Transfers.antt =====
-- The theorems of transfers at the provider of the tests.
use mem_service.Base.{◌≡◌, refl, some}
use mem_service.Base.Text.{text_eq, c_str}
use mem_service.Provider.Types.{TransferCompletion, memory_kind_valid}
use mem_service.Provider.Registry.{run_probe}
use mem_service.Provider.Channel.{same_provider, deref, function_of, is_ready, with_ready}
use mem_service.Provider.Transfer.{
  call_submit, submit_transfer, call_poll, poll_transfer, transfer, call_receive, wait_receive,
}
use mem_service.Provider.Transfer.Delivery.{Submitted}
use mem_service.Provider.Transfer.Done.{Complete, Fenced, transfer_lem, wait_receive_lem}
use mem_service.Provider.Tests.{test_registry, test_channel, test_binding, test_remote}

submitted :
    (submit_transfer test_registry test_channel test_binding 8 test_remote 48 16 99 0).0 ≡ some 5
unfolding submit_transfer call_submit with_ready deref run_probe is_ready function_of same_provider
    memory_kind_valid text_eq c_str
submitted = refl

abbrev test_completion : TransferCompletion
test_completion = record { id = 5; status = 0; transferred_bytes = 16; checksum = 99 }

transferred :
    (transfer test_registry test_channel test_binding 8 test_remote 48 16 99 0).0
    ≡ some test_completion
unfolding transfer poll_transfer call_poll submit_transfer call_submit with_ready deref run_probe
    is_ready function_of same_provider memory_kind_valid text_eq c_str
transferred = refl

transfer_lem_example :
    Complete test_completion 16 99
    × Submitted test_registry test_channel test_binding 8 test_remote 48 16 99 0 test_completion.id
        (submit_transfer test_registry test_channel test_binding 8 test_remote 48 16 99 0).1
transfer_lem_example =
    transfer_lem test_registry test_channel test_binding 8 test_remote 48 16 99 0 transferred

abbrev received_completion : TransferCompletion
received_completion = record { id = 6; status = 0; transferred_bytes = 16; checksum = 99 }

received :
    (wait_receive test_registry test_channel test_binding 48 16 99 0).0 ≡ some received_completion
unfolding wait_receive call_receive with_ready deref run_probe is_ready function_of same_provider
received = refl

wait_receive_lem_example :
    Complete received_completion 16 99
    × Fenced test_registry test_channel test_binding 48 16 99 0 received_completion
        (wait_receive test_registry test_channel test_binding 48 16 99 0).1
wait_receive_lem_example =
    wait_receive_lem test_registry test_channel test_binding 48 16 99 0 received
