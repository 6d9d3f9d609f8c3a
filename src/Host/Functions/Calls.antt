-- ===== src/Host/Functions/Calls.antt =====
-- The calls that a guest can make, as a type, and a run of them. Between two calls the guest may
-- write its own memory.
use zephyr_vm.Prelude.{◌≡◌, ℕ, Option, none, some, List, [], get_elem?}
use zephyr_vm.Errors.{ok}
use zephyr_vm.Exec.{pure, abort}
use zephyr_vm.Soroban.{EnvFunction}
use zephyr_vm.Platform.{Platform}
use zephyr_vm.Host.{Host, Handler, alive, MemoryManager}
use zephyr_vm.Host.Memory.{with_manager}
use zephyr_vm.Host.Functions.{
  db_write_fn, db_update_fn, db_read_fn, db_read_as_id_fn, conclude_fn, send_message_fn,
  stack_push_fn, read_ledger_meta_fn,
}
use zephyr_vm.Host.Functions.Ledger.{
  read_contract_data_entry_by_contract_id_and_key_fn, read_contract_instance_fn,
  read_contract_entries_fn, read_account_from_ledger_fn,
}
use zephyr_vm.Host.Functions.Soroban

-- The functions that `host_functions` lists, and a function of env.json by its place there.
-- `zephyr_logger` prints its argument.
pub data Call : Type 0 where
  write_raw read_raw update_raw read_ledger_meta : Call
  zephyr_logger zephyr_stack_push read_as_id : ℕ → Call
  conclude tx_send_message : ℕ → ℕ → Call
  read_contract_data_entry_by_contract_id_and_key : List ℕ → ℕ → ℕ → Call
  read_contract_instance read_contract_entries_by_contract read_account_from_ledger : List ℕ → Call
  read_contract_entries_by_contract_to_env : List ℕ → Call
  valid_host_val_to_scval i128_from_pieces : ℕ → Call
  scval_to_valid_host_val string_from_linmem symbol_from_linmem : ℕ → ℕ → Call
  vec_new_from_linear_memory_mem bytes_new_from_linear_memory_mem : ℕ → ℕ → Call
  symbol_index_from_linmem map_new_from_linear_memory_mem : ℕ → ℕ → ℕ → Call
  vec_unpack_to_linear_memory_fn_mem : ℕ → ℕ → ℕ → Call
  bytes_copy_to_linear_memory_mem map_unpack_to_linear_memory_fn_mem : ℕ → ℕ → ℕ → ℕ → Call
  soroban_simulate_tx : List ℕ → ℕ → ℕ → Call
  generated : ℕ → List ℕ → Call

-- Beyond the end of env.json there is no function to call.
unfoldable pub generated_at :
    (P : Platform) → Option (EnvFunction P.Foreign P.soroban.Soroban) → List ℕ → Handler P (List ℕ)
generated_at P none args = abort
generated_at P (some f) args = Soroban.generated_fn P f args

module _ {P : Platform} where
  unfoldable pub dispatch : Call → Handler P (List ℕ)
  unfolding generated_at
  dispatch write_raw = db_write_fn
  dispatch read_raw = db_read_fn
  dispatch update_raw = db_update_fn
  dispatch read_ledger_meta = read_ledger_meta_fn
  dispatch (zephyr_logger param) = pure []
  dispatch (zephyr_stack_push param) = stack_push_fn param
  dispatch (read_as_id id) = db_read_as_id_fn id
  dispatch (conclude offset size) = conclude_fn offset size
  dispatch (tx_send_message offset size) = send_message_fn offset size
  dispatch (read_contract_data_entry_by_contract_id_and_key parts offset size) =
      read_contract_data_entry_by_contract_id_and_key_fn parts offset size
  dispatch (read_contract_instance parts) = read_contract_instance_fn parts
  dispatch (read_contract_entries_by_contract parts) = read_contract_entries_fn parts
  dispatch (read_account_from_ledger parts) = read_account_from_ledger_fn parts
  dispatch (read_contract_entries_by_contract_to_env parts) =
      Soroban.read_contract_entries_to_env_fn parts
  dispatch (valid_host_val_to_scval val) = Soroban.valid_host_val_to_scval_fn val
  dispatch (i128_from_pieces obj) = Soroban.i128_from_pieces obj
  dispatch (scval_to_valid_host_val offset size) = Soroban.scval_to_valid_host_val_fn offset size
  dispatch (string_from_linmem pos len) = Soroban.string_from_linmem pos len
  dispatch (symbol_from_linmem pos len) = Soroban.symbol_from_linmem pos len
  dispatch (vec_new_from_linear_memory_mem pos len) = Soroban.vec_new_from_linear_memory_mem pos len
  dispatch (bytes_new_from_linear_memory_mem pos len) =
      Soroban.bytes_new_from_linear_memory_mem pos len
  dispatch (symbol_index_from_linmem sym pos len) = Soroban.symbol_index_from_linmem sym pos len
  dispatch (map_new_from_linear_memory_mem keys vals len) =
      Soroban.map_new_from_linear_memory_mem keys vals len
  dispatch (vec_unpack_to_linear_memory_fn_mem vec vals len) =
      Soroban.vec_unpack_to_linear_memory_fn_mem vec vals len
  dispatch (bytes_copy_to_linear_memory_mem b b_pos pos len) =
      Soroban.bytes_copy_to_linear_memory_mem b b_pos pos len
  dispatch (map_unpack_to_linear_memory_fn_mem map keys vals len) =
      Soroban.map_unpack_to_linear_memory_fn_mem map keys vals len
  dispatch (soroban_simulate_tx parts offset size) =
      Soroban.soroban_simulate_tx_fn parts offset size
  dispatch (generated i args) = generated_at P (get_elem? P.soroban.functions i) args

  -- One move of the guest: a call that does not trap, or a change of the memory of its VM.
  pub data Step : Host P → Host P → Type 0 where
    call : {h h' : Host P} (c : Call) (values : List ℕ) → dispatch c h ≡ (ok values, h') → Step h h'
    own :
        {h h' : Host P} (m : MemoryManager P) (memory : P.Memory)
        → h.context.vm ≡ some (alive (record { memory_manager = m }))
        → h' ≡ with_manager (record m { memory = memory }) h
        → Step h h'

  pub data Reach (h : Host P) : Host P → Type 0 where
    here : Reach h h
    next : {h' h'' : Host P} → Reach h h' → Step h' h'' → Reach h h''
