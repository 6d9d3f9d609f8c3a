-- ===== src/Host/Soroban.antt =====
-- The calls of the host that use the embedded Soroban host: rs-zephyr-env/src/host/soroban.rs.
use zephyr_vm.Prelude.{ℕ, ⊤, false, Option, none, some, List, [], ◌∷◌, if◌then◌else◌}
use zephyr_vm.Errors.{foreign, host, soroban_host_with_context}
use zephyr_vm.Exec.{Exec, pure, lift, abort, gets, unwrap, unwrapped, map_err, ◌>>=◌, ◌>>◌}
use zephyr_vm.Trace.{text, number, library_value, soroban_environment}
use zephyr_vm.Soroban.{LedgerInfo}
use zephyr_vm.Snapshot.{get, get_including_archived, get_current_ledger_sequence}
use zephyr_vm.Platform.{Platform}
use zephyr_vm.Host.{Handler}
use zephyr_vm.Host.State.{trace}
use zephyr_vm.Host.Memory.{memory_manager, read_segment_from_memory, write_to_memory}
use zephyr_vm.Host.Context.{on_soroban, foreign_errors}

module _ (P : Platform) where
  -- The budget is lifted and debugging turned on before each use.
  unfoldable pub prepared : Exec P.soroban.Soroban P.Foreign ⊤
  prepared = do unwrapped P.soroban.reset_unlimited; unwrapped P.soroban.enable_debug

  -- An entry goes into the map, unless it is the contract's instance; other ledger entries than
  -- contract data are a panic.
  put_data : ℕ → Option (P.ledger.ScVal × P.ledger.ScVal) → Exec P.soroban.Soroban P.Foreign ℕ
  put_data map none = abort
  put_data map (some (key, val)) = if P.soroban.is_contract_instance key then pure map else do
    host_key ← P.soroban.to_valid_host_val key
    host_val ← P.soroban.to_valid_host_val val
    P.soroban.map_put map host_key host_val

  unfoldable pub put_entries :
      List P.ledger.ContractDataEntry → ℕ → Exec P.soroban.Soroban P.Foreign ℕ
  unfolding put_data
  put_entries [] map = pure map
  put_entries (entry ∷ entries) map = do
    map' ← put_data map (P.soroban.contract_data entry)
    put_entries entries map'

  -- What the frame runs.
  unfoldable pub map_of_entries :
      List P.ledger.ContractDataEntry → Exec P.soroban.Soroban P.Foreign ℕ
  map_of_entries entries = do
    map ← P.soroban.map_new
    filled ← put_entries entries map
    unwrapped P.soroban.enable_debug
    pure filled

-- The ledger of a simulation, before the network's configuration is filled in.
abbrev pub simulated_ledger : (P : Platform) → List ℕ → ℕ × ℕ → LedgerInfo
simulated_ledger P network_id (sequence, timestamp) = record P.simulation.default_ledger_info {
  protocol_version = 21;
  sequence_number = sequence;
  timestamp = timestamp;
  network_id = network_id;
  max_entry_ttl = 3110400;
}

module _ {P : Platform} where
  unfoldable pub scval_to_valid_host_val : P.ledger.ScVal → Handler P ℕ
  scval_to_valid_host_val scval = do
    foreign_errors (on_soroban (prepared P))
    foreign_errors
        (on_soroban (P.soroban.with_test_contract_frame (P.soroban.to_valid_host_val scval)))

  -- The conversion, with the error that carries it.
  unfoldable pub scval_of : ℕ → Handler P P.ledger.ScVal
  scval_of val h =
      let (r, h') = on_soroban (P.soroban.scval_from_val val) h in
      (map_err (λ e. host (soroban_host_with_context e)) r, h')

  unfoldable pub valid_host_val_to_scval : ℕ → Handler P (ℕ × ℕ)
  valid_host_val_to_scval val = do
    foreign_errors (on_soroban (prepared P))
    trace soroban_environment (text "Converting host value to SCVal." ∷ []) false
    scval ← scval_of val
    bytes ← lift (unwrap (P.soroban.scval_to_xdr scval))
    write_to_memory bytes

  unfoldable pub read_contract_entries_to_env : List ℕ → Handler P ℕ
  read_contract_entries_to_env contract = do
    ledger ← gets (λ h. h.ledger)
    let entries = P.ledger.read_contract_data_entries_by_contract_id ledger contract
    foreign_errors (on_soroban (prepared P))
    foreign_errors (on_soroban (P.soroban.with_test_contract_frame (map_of_entries P entries)))

  unfoldable pub simulate_soroban_transaction : List ℕ → ℕ → ℕ → Handler P (ℕ × ℕ)
  simulate_soroban_transaction source offset size = do
    manager ← memory_manager
    bytes ← lift (read_segment_from_memory P manager.memory (offset, size))
    host_fn ← lift (map_err foreign (P.simulation.host_function_from_xdr bytes))
    trace soroban_environment (text "Simulating host function " ∷ library_value ∷ text "." ∷ [])
        false
    ledger_from_state ← lift (map_err foreign (get_current_ledger_sequence P.store))
    network_id ← gets (λ h. h.network_id)
    string ← lift (map_err foreign P.simulation.read_bucket_size)
    bucket_size ← lift (map_err foreign (P.simulation.parse_bucket_size string))
    trace soroban_environment (text "Current bucket size is " ∷ number bucket_size ∷ text "." ∷ [])
        false
    config ← lift (
        map_err foreign
          (P.simulation.load_from_snapshot (get_including_archived P.store) bucket_size))
    let ledger_info =
        P.simulation.fill_config_fields config (simulated_ledger P network_id ledger_from_state)
    resp ← lift (
        map_err foreign (
          P.simulation.simulate (get P.store) (get_including_archived P.store) config ledger_info
            host_fn source))
    trace soroban_environment (text "Simulated with result " ∷ library_value ∷ text "." ∷ []) false
    write_to_memory (P.simulation.serialize resp)
