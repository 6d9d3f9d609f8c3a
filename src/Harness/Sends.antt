-- ===== src/Harness/Sends.antt =====
-- From the guest's call of `tx_send_message` to the relay: `send_message` of
-- rs-zephyr-env/src/host.rs and `invoke_vm` of rs-zephyr-env/src/testutils/mod.rs.
use zephyr_vm.Prelude.{ℕ, ◌≡◌, some, String, List, []}
use zephyr_vm.Platform.{Platform}
use zephyr_vm.Host.{Host, MemoryManager, alive}
use zephyr_vm.Host.Functions.Sent.{Sending}
use zephyr_vm.Vm.{Instance, func}

module _ {P : Platform} where
  -- A function that sends these messages when it runs in this memory, whatever else it does, and
  -- returns, fails or panics as it likes.
  pub record Sends (i : Instance P) (fname : String) (m : MemoryManager P)
      (messages : List (List ℕ)) : Type 0 where
    pub f : i.Func
    pub has_name : i.get_export fname ≡ some (func f)
    pub runs :
        (h : Host P) (tx : P.Sender)
        → h.context.vm ≡ some (alive (record { memory_manager = m }))
        → h.transmitter ≡ some tx
        → Sending h messages (i.call f [] [] h).1
