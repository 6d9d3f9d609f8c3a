-- ===== src/Host/Functions/Ledger.antt =====
-- The functions that read the ledger state for the guest: rs-zephyr-env/src/host/soroban.rs, and
-- their closures in `host_functions` of rs-zephyr-env/src/host.rs.
use zephyr_vm.Prelude.{ℕ, false, List, [], ◌∷◌}
use zephyr_vm.Errors.{foreign}
use zephyr_vm.Exec.{gets, lift, map_err, ◌>>=◌, ◌>>◌}
use zephyr_vm.Trace.{text, number, numbers, ledger_impl}
use zephyr_vm.Platform.{Platform}
use zephyr_vm.Host.{Handler}
use zephyr_vm.Host.State.{trace}
use zephyr_vm.Host.Memory.{memory_manager, read_segment_from_memory, write_to_memory}
use zephyr_vm.Host.Functions.{handled, placed, failed_with_place}

module _ {P : Platform} where
  -- The serialization unwraps, and serializes into a vector.
  unfoldable pub internal_read_contract_data_entry_by_contract_id_and_key :
      List ℕ → P.ledger.ScVal → Handler P (ℕ × ℕ)
  internal_read_contract_data_entry_by_contract_id_and_key contract key = do
    ledger ← gets (λ h. h.ledger)
    write_to_memory (
        P.serialize_entry
          (P.ledger.read_contract_data_entry_by_contract_id_and_key ledger contract key))

  unfoldable pub read_contract_data_entry_by_contract_id_and_key :
      List ℕ → ℕ → ℕ → Handler P (ℕ × ℕ)
  read_contract_data_entry_by_contract_id_and_key contract offset size = do
    manager ← memory_manager
    bytes ← lift (read_segment_from_memory P manager.memory (offset, size))
    key ← lift (map_err foreign (P.scval_from_xdr bytes))
    internal_read_contract_data_entry_by_contract_id_and_key contract key

  unfoldable pub read_contract_instance : List ℕ → Handler P (ℕ × ℕ)
  read_contract_instance contract =
      internal_read_contract_data_entry_by_contract_id_and_key contract
        P.ledger_key_contract_instance

  unfoldable pub read_contract_entries : List ℕ → Handler P (ℕ × ℕ)
  read_contract_entries contract = do
    ledger ← gets (λ h. h.ledger)
    write_to_memory
        (P.serialize_entries (P.ledger.read_contract_data_entries_by_contract_id ledger contract))

  unfoldable pub read_account_object : List ℕ → Handler P (ℕ × ℕ)
  read_account_object account = do
    ledger ← gets (λ h. h.ledger)
    write_to_memory
        (P.serialize_account (P.ledger.read_account ledger (P.public_key_to_string account)))

  -- The four parts are the contract, the segment is the key.
  unfoldable pub read_contract_data_entry_by_contract_id_and_key_fn :
      List ℕ → ℕ → ℕ → Handler P (List ℕ)
  read_contract_data_entry_by_contract_id_and_key_fn parts offset size = do
    let contract = P.array_from_max_parts parts
    trace ledger_impl
        (text "Reading contract data entry for contract "
          ∷ numbers contract
          ∷ text " and key with size of "
          ∷ number size
          ∷ text "."
          ∷ [])
        false
    handled (read_contract_data_entry_by_contract_id_and_key contract offset size) placed
        failed_with_place

  unfoldable pub read_contract_instance_fn : List ℕ → Handler P (List ℕ)
  read_contract_instance_fn parts = do
    let contract = P.array_from_max_parts parts
    trace ledger_impl
        (text "Reading contract instance for contract " ∷ numbers contract ∷ text "." ∷ []) false
    handled (read_contract_instance contract) placed failed_with_place

  unfoldable pub read_contract_entries_fn : List ℕ → Handler P (List ℕ)
  read_contract_entries_fn parts = do
    let contract = P.array_from_max_parts parts
    trace ledger_impl
        (text "Reading all non-instance contract entries for contract "
          ∷ numbers contract
          ∷ text "."
          ∷ [])
        false
    handled (read_contract_entries contract) placed failed_with_place

  unfoldable pub read_account_from_ledger_fn : List ℕ → Handler P (List ℕ)
  read_account_from_ledger_fn parts = do
    let account = P.array_from_max_parts parts
    trace ledger_impl (text "Fetching account " ∷ numbers account ∷ text " from the ledger." ∷ [])
        false
    handled (read_account_object account) placed failed_with_place
