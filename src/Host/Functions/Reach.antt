-- ===== src/Host/Functions/Reach.antt =====
-- Every guest call keeps what `Kept` names, so every run of calls does.
use zephyr_vm.Prelude.{ℕ, ◌≡◌, refl, subst, Option, none, some, List}
use zephyr_vm.Errors.{Result, panic, Error}
use zephyr_vm.Exec.{lift}
use zephyr_vm.Database.{read_only}
use zephyr_vm.Platform.{Platform}
use zephyr_vm.Host.{Host}
use zephyr_vm.Host.Read.{read_database_as_id, read_database_self}
use zephyr_vm.Host.Functions.{
  db_write_fn, db_update_fn, db_read_fn, db_read_as_id_fn, write_result, conclude_fn, transmit,
  send_message, send_message_fn, stack_push_fn, read_ledger_meta, read_ledger_meta_fn,
}
use zephyr_vm.Host.Functions.Ledger.{
  internal_read_contract_data_entry_by_contract_id_and_key,
  read_contract_data_entry_by_contract_id_and_key, read_contract_instance, read_contract_entries,
  read_account_object, read_contract_data_entry_by_contract_id_and_key_fn,
  read_contract_instance_fn, read_contract_entries_fn, read_account_from_ledger_fn,
}
use zephyr_vm.Host.Functions.Calls.{
  Call, write_raw, read_raw, update_raw, read_ledger_meta as meta_call, zephyr_logger,
  zephyr_stack_push, read_as_id, conclude, tx_send_message, dispatch, generated_at, Step, call, own,
  Reach, here, next,
}
use zephyr_vm.Host.Functions.Kept.{Same, Kept, Kept-Order}
use zephyr_vm.Host.Functions.Keeps.{Keeps, kept_calls}
use zephyr_vm.Host.Functions.Keeps.Soroban.{kept_soroban}
use zephyr_vm.Host.Functions.Soroban
use zephyr_vm.Soroban.{EnvFunction}

module _ {P : Platform} where
  Keeps-read_database_as_id : (id : ℕ) → Keeps (read_database_as_id {P = P} id)
  unfolding read_database_as_id
  Keeps-read_database_as_id id = search kept_calls

  Keeps-read_database_self : Keeps (read_database_self {P = P})
  unfolding read_database_self
  Keeps-read_database_self = search kept_calls

  Keeps-write_result : (offset size : ℕ) → Keeps (write_result {P = P} offset size)
  unfolding write_result
  Keeps-write_result offset size = search kept_calls depth 20

  Keeps-transmit : (message : List ℕ) (tx : Option P.Sender) → Keeps (transmit {P = P} message tx)
  unfolding transmit
  Keeps-transmit message none = search kept_calls
  Keeps-transmit message (some tx) = record { at = λ h. (refl, λ _. refl) }

  Keeps-send_message : (offset size : ℕ) → Keeps (send_message {P = P} offset size)
  unfolding send_message
  Keeps-send_message offset size = search (kept_calls, Keeps-transmit) depth 20

  Keeps-read_ledger_meta : Keeps (read_ledger_meta {P = P})
  unfolding read_ledger_meta
  Keeps-read_ledger_meta = search kept_calls depth 20

  Keeps-read_by_key :
      (contract : List ℕ) (key : P.ledger.ScVal)
      → Keeps (internal_read_contract_data_entry_by_contract_id_and_key {P = P} contract key)
  unfolding internal_read_contract_data_entry_by_contract_id_and_key
  Keeps-read_by_key contract key = search kept_calls

  Keeps-read_by_segment :
      (contract : List ℕ) (offset size : ℕ)
      → Keeps (read_contract_data_entry_by_contract_id_and_key {P = P} contract offset size)
  unfolding read_contract_data_entry_by_contract_id_and_key
  Keeps-read_by_segment contract offset size = search (kept_calls, Keeps-read_by_key) depth 20

  Keeps-read_contract_instance :
      (contract : List ℕ) → Keeps (read_contract_instance {P = P} contract)
  unfolding read_contract_instance
  Keeps-read_contract_instance contract = Keeps-read_by_key contract _

  Keeps-read_contract_entries : (contract : List ℕ) → Keeps (read_contract_entries {P = P} contract)
  unfolding read_contract_entries
  Keeps-read_contract_entries contract = search kept_calls

  Keeps-read_account_object : (account : List ℕ) → Keeps (read_account_object {P = P} account)
  unfolding read_account_object
  Keeps-read_account_object account = search kept_calls

ruleset kept_functions = (
  kept_calls, Keeps-read_database_as_id, Keeps-read_database_self, Keeps-write_result,
  Keeps-send_message, Keeps-read_ledger_meta, Keeps-read_by_segment, Keeps-read_contract_instance,
  Keeps-read_contract_entries, Keeps-read_account_object,
)

module _ {P : Platform} where
  Keeps-panic : {A : Type 0} → Keeps {P = P} (lift {E = Error P.Foreign} {A = A} panic)
  Keeps-panic = record { at = λ h. (refl, λ _. refl) }

  Keeps-generated_at :
      (f : Option (EnvFunction P.Foreign P.soroban.Soroban)) (args : List ℕ)
      → Keeps (generated_at P f args)
  unfolding generated_at Soroban.generated_fn
  Keeps-generated_at none args = Keeps-panic
  Keeps-generated_at (some f) args = search kept_soroban depth 20

  Keeps-dispatch : (c : Call) → Keeps (dispatch {P = P} c)
  unfolding dispatch db_write_fn db_update_fn db_read_fn db_read_as_id_fn conclude_fn
      send_message_fn stack_push_fn read_ledger_meta_fn
      read_contract_data_entry_by_contract_id_and_key_fn read_contract_instance_fn
      read_contract_entries_fn read_account_from_ledger_fn Soroban.valid_host_val_to_scval_fn
      Soroban.i128_from_pieces Soroban.scval_to_valid_host_val_fn Soroban.string_from_linmem
      Soroban.symbol_from_linmem Soroban.vec_new_from_linear_memory_mem
      Soroban.bytes_new_from_linear_memory_mem Soroban.symbol_index_from_linmem
      Soroban.map_new_from_linear_memory_mem Soroban.vec_unpack_to_linear_memory_fn_mem
      Soroban.bytes_copy_to_linear_memory_mem Soroban.map_unpack_to_linear_memory_fn_mem
      Soroban.soroban_simulate_tx_fn Soroban.read_contract_entries_to_env_fn Soroban.generated_fn
  Keeps-dispatch write_raw = search kept_functions depth 20
  Keeps-dispatch read_raw = search kept_functions depth 20
  Keeps-dispatch update_raw = search kept_functions depth 20
  Keeps-dispatch meta_call = search kept_functions depth 20
  Keeps-dispatch (zephyr_logger param) = search kept_functions depth 20
  Keeps-dispatch (zephyr_stack_push param) = search kept_functions depth 20
  Keeps-dispatch (read_as_id id) = search kept_functions depth 20
  Keeps-dispatch (conclude offset size) = search (kept_functions, Keeps-panic) depth 20
  Keeps-dispatch (tx_send_message offset size) = search kept_functions depth 20
  Keeps-dispatch (Call.read_contract_data_entry_by_contract_id_and_key parts offset size) =
      search kept_functions depth 20
  Keeps-dispatch (Call.read_contract_instance parts) = search kept_functions depth 20
  Keeps-dispatch (Call.read_contract_entries_by_contract parts) = search kept_functions depth 20
  Keeps-dispatch (Call.read_account_from_ledger parts) = search kept_functions depth 20
  Keeps-dispatch (Call.valid_host_val_to_scval val) = search (kept_functions, kept_soroban) depth 30
  Keeps-dispatch (Call.i128_from_pieces obj) = search (kept_functions, kept_soroban) depth 30
  Keeps-dispatch (Call.scval_to_valid_host_val offset size) =
      search (kept_functions, kept_soroban) depth 30
  Keeps-dispatch (Call.string_from_linmem pos len) = search (kept_functions, kept_soroban) depth 30
  Keeps-dispatch (Call.symbol_from_linmem pos len) = search (kept_functions, kept_soroban) depth 30
  Keeps-dispatch (Call.vec_new_from_linear_memory_mem pos len) =
      search (kept_functions, kept_soroban) depth 30
  Keeps-dispatch (Call.bytes_new_from_linear_memory_mem pos len) =
      search (kept_functions, kept_soroban) depth 30
  Keeps-dispatch (Call.symbol_index_from_linmem sym pos len) =
      search (kept_functions, kept_soroban) depth 30
  Keeps-dispatch (Call.map_new_from_linear_memory_mem keys vals len) =
      search (kept_functions, kept_soroban) depth 30
  Keeps-dispatch (Call.vec_unpack_to_linear_memory_fn_mem vec vals len) =
      search (kept_functions, kept_soroban) depth 30
  Keeps-dispatch (Call.bytes_copy_to_linear_memory_mem b b_pos pos len) =
      search (kept_functions, kept_soroban) depth 30
  Keeps-dispatch (Call.map_unpack_to_linear_memory_fn_mem map keys vals len) =
      search (kept_functions, kept_soroban) depth 30
  Keeps-dispatch (Call.soroban_simulate_tx parts offset size) =
      search (kept_functions, kept_soroban) depth 30
  Keeps-dispatch (Call.read_contract_entries_by_contract_to_env parts) =
      search (kept_functions, kept_soroban) depth 30
  Keeps-dispatch (Call.generated i args) = Keeps-generated_at _ args

  Kept-Step : (h h' : Host P) → Step h h' → Kept h h'
  Kept-Step h h' (call c values e) =
      subst (λ (k : Result (List ℕ) (Error P.Foreign) × Host P). Kept h k.1) e
        ((Keeps-dispatch c).at h)
  Kept-Step h h' (own m memory vm e) = rw e (refl, λ _. refl)

  pub Reach-Kept : (h h' : Host P) → Reach h h' → Kept h h'
  Reach-Kept h h' here = Kept-Order.same h
  Reach-Kept h h' (next {h' = between} run step) =
      Kept-Order.then h between h' (Reach-Kept h between run) (Kept-Step between h' step)

  -- Whatever calls of the functions in `Call` a guest makes, and whatever it does to its memory
  -- between them: the id of the host, the network, the permissions of the database, the ledger and
  -- the latest close are as they were.
  pub Reach-Same : (h h' : Host P) → Reach h h' → Same h h'
  Reach-Same h h' run = (Reach-Kept h h' run).0

  -- No sequence of calls of the functions in `Call`, with changes of the guest's memory between
  -- them, changes what a read-only database holds.
  pub Reach-read_only :
      (h h' : Host P)
      → Reach h h'
      → h.database.permissions ≡ read_only
      → h'.database.db ≡ h.database.db
  Reach-read_only h h' run e = (Reach-Kept h h' run).1 e
