-- ===== src/Host/Functions/Keeps.antt =====
-- What a handler keeps of what `Kept` names, from the steps that it is built of.
pub mod Soroban
use zephyr_vm.Prelude.{ℕ, ⊤, Bool, ◌≡◌, refl, ap, subst, Option, none, some, List, ◌++◌}
use zephyr_vm.Errors.{Result, panic, Error, DatabaseError}
use zephyr_vm.Exec.{Exec, lift, modify}
use zephyr_vm.Trace.{TracePoint, Piece}
use zephyr_vm.Database.{read_only}
use zephyr_vm.Platform.{Platform}
use zephyr_vm.Host.{Host, Handler, MemoryManager}
use zephyr_vm.Host.State.{trace, stack_push}
use zephyr_vm.Host.Memory.{memory_manager, with_manager, write_to_memory}
use zephyr_vm.Host.Database.{finish_write}
use zephyr_vm.Host.Quiet.{Quiet, whole, Quiet-trace, Quiet-memory_manager}
use zephyr_vm.Host.Guards.{
  Barred, write_database_raw-Barred, update_database_raw-Barred, read_database_raw-Quiet,
  Quiet-write_instructions, Quiet-update_instructions,
}
use zephyr_vm.Host.Write.{write_instructions, write_database_raw}
use zephyr_vm.Host.Update.{update_instructions, update_database_raw}
use zephyr_vm.Host.Read.{read_database_as_id, read_database_self, read_database_raw}
use zephyr_vm.Host.Functions.{
  db_write_fn, db_update_fn, db_read_fn, db_read_as_id_fn, write_result, conclude_fn, transmit,
  send_message, send_message_fn, stack_push_fn, read_ledger_meta, read_ledger_meta_fn,
}
use zephyr_vm.Host.Functions.Ledger.{
  internal_read_contract_data_entry_by_contract_id_and_key,
  read_contract_data_entry_by_contract_id_and_key, read_contract_instance, read_contract_entries,
  read_account_object, read_contract_data_entry_by_contract_id_and_key_fn,
  read_contract_instance_fn, read_contract_entries_fn, read_account_from_ledger_fn,
}
use zephyr_vm.Host.Functions.Calls.{
  Call, write_raw, read_raw, update_raw, read_ledger_meta as meta_call, zephyr_logger,
  zephyr_stack_push, read_as_id, conclude, tx_send_message, dispatch, Step, call, own, Reach, here,
  next,
}
use zephyr_vm.Host.Functions.Kept.{
  Along, Along-bind, Along-handled, Along-lift, Along-gets, Along-pure, Along-raise, Along-ok_or,
  Along-unwrapped, Along-caught, Along-foreign_errors, Same, Same-Order, Kept, Kept-Order,
}

module _ {P : Platform} where
  abbrev pub Keeps : {E A : Type 0} → Exec (Host P) E A → Type 0
  Keeps m = Along Kept-Order m

  Same-Quiet : {A : Type 0} (m : Handler P A) → Quiet whole m → Along Same-Order m
  Same-Quiet m q = record { at = λ h. let (s, t, e, v) = q.at h in rw e refl }

  pub Keeps-Quiet : {A : Type 0} (m : Handler P A) → Quiet whole m → Keeps m
  Keeps-Quiet m q = record { at = λ h. let (s, t, e, v) = q.at h in rw e (refl, λ _. refl) }

  pub Keeps-trace :
      (point : TracePoint) (message : List (Piece P.Foreign)) (e : Bool)
      → Keeps (trace point message e)
  Keeps-trace point message e = Keeps-Quiet _ (Quiet-trace whole point message e)

  pub Keeps-memory_manager : Keeps memory_manager
  Keeps-memory_manager = Keeps-Quiet _ (Quiet-memory_manager whole)

  pub Keeps-with_manager :
      {E : Type 0} (m : MemoryManager P) → Keeps (modify {E = E} (with_manager m))
  Keeps-with_manager m = record { at = λ h. (refl, λ _. refl) }

  pub Keeps-result :
      (res : List ℕ)
      → Keeps (modify {E = Error P.Foreign} (λ h. record h { result = h.result ++ res }))
  Keeps-result res = record { at = λ h. (refl, λ _. refl) }

  pub Keeps-stack_push : (param : ℕ) → Keeps (stack_push param)
  unfolding stack_push
  Keeps-stack_push param = record { at = λ h. (refl, λ _. refl) }

  Same-trace :
      (point : TracePoint) (message : List (Piece P.Foreign)) (e : Bool)
      → Along Same-Order (trace {P = P} point message e)
  Same-trace point message e = Same-Quiet _ (Quiet-trace whole point message e)

  Same-finish_write :
      (a : Result ⊤ DatabaseError × P.database.Db) → Along Same-Order (finish_write {P = P} a)
  Same-finish_write a = record { at = λ h. refl }

  Same-write_instructions : Along Same-Order (write_instructions {P = P})
  Same-write_instructions = Same-Quiet _ Quiet-write_instructions

  Same-update_instructions : Along Same-Order (update_instructions {P = P})
  Same-update_instructions = Same-Quiet _ Quiet-update_instructions

  -- What is barred from a read-only database spares it.
  Keeps-Barred : {A : Type 0} (m : Handler P A) → Along Same-Order m → Barred read_only m → Keeps m
  Keeps-Barred m q b = record {
    at = λ h. (
      q.at h,
      λ e. let ((s, t, touched, v), fails) = b.at h e in ap (λ (k : Host P). k.database.db) touched,
    );
  }

ruleset same_steps = (
  Along-bind, Along-lift, Along-gets, Same-trace, Same-finish_write, Same-write_instructions,
  Same-update_instructions,
)

pub ruleset kept_steps = (
  Along-bind, Along-handled, Along-lift, Along-gets, Along-pure, Along-raise, Along-ok_or,
  Along-unwrapped, Along-caught, Along-foreign_errors, Keeps-trace, Keeps-memory_manager,
  Keeps-with_manager, Keeps-result, Keeps-stack_push,
)

module _ {P : Platform} where
  pub Keeps-write_to_memory : (contents : List ℕ) → Keeps (write_to_memory {P = P} contents)
  unfolding write_to_memory
  Keeps-write_to_memory contents = search kept_steps depth 30

  pub Keeps-write_database_raw : Keeps (write_database_raw {P = P})
  unfolding write_database_raw
  Keeps-write_database_raw = Keeps-Barred _ (search same_steps depth 20) write_database_raw-Barred

  pub Keeps-update_database_raw : Keeps (update_database_raw {P = P})
  unfolding update_database_raw
  Keeps-update_database_raw = Keeps-Barred _ (search same_steps depth 20) update_database_raw-Barred

  pub Keeps-read_database_raw : (id : ℕ) → Keeps (read_database_raw {P = P} id)
  Keeps-read_database_raw id = Keeps-Quiet _ (read_database_raw-Quiet id)

pub ruleset kept_calls = (
  kept_steps, Keeps-write_to_memory, Keeps-write_database_raw, Keeps-update_database_raw,
  Keeps-read_database_raw,
)
