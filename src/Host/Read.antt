-- ===== src/Host/Read.antt =====
-- `read_database_raw` of rs-zephyr-env/src/host/database.rs, and the two calls of it.
pub mod Instructions
pub mod Delivery
use zephyr_vm.Prelude.{ℕ, ⊤, Bool, true, false, Option, none, some, String, List, [], ◌∷◌, length}
use zephyr_vm.Errors.{
  Result, ok, err, panic, Error, database, DatabaseError, write_on_read_only, read_on_write_only,
}
use zephyr_vm.Exec.{Exec, pure, raise, gets, modify, lift, map_err, attempt, ◌>>=◌, ◌>>◌}
use zephyr_vm.Trace.{Piece, text, number, numbers, database_impl}
use zephyr_vm.Database.{
  WhereCond, DatabasePermissions, read_only, write_only, read_write, DatabaseImpl,
}
use zephyr_vm.Platform.{Platform}
use zephyr_vm.Host.{Host, Handler, MemoryManager}
use zephyr_vm.Host.State.{trace, get_host_id, next_value, stack_clear}
use zephyr_vm.Host.Memory.{memory_manager, get_memory, read_segments, write_to_memory}
use zephyr_vm.Host.Instructions.{
  read_point_hash, next_values, next_pairs, next_conditions, read_columns, read_segment_list,
  read_conditions, signed_rounds, doubled, rounds_by_two,
}
use zephyr_vm.Host.Database.{
  about_table, WriteInstructions, UpdateInstructions, ReadInstructions, check_writable,
  check_readable, finish_write,
}

module _ {P : Platform} where
  -- The conditions of a read, if their number is there.
  unfoldable pub optional_conditions : Option ℕ → Handler P (Option (List WhereCond))
  optional_conditions none = pure none
  optional_conditions (some non_fixed) = do
    conditions_length ← lift (doubled non_fixed)
    conditions ← next_conditions (rounds_by_two conditions_length)
    pure (some conditions)

  unfoldable pub optional_args : Option (List WhereCond) → Handler P (Option (List (ℕ × ℕ)))
  optional_args none = pure none
  optional_args (some _) = do segments ← read_segment_list; pure (some segments)

  -- The condition arguments come from linear memory; `get_memory` unwraps the context.
  unfoldable pub aggregated : Option (List (ℕ × ℕ)) → Handler P (Option (List (List ℕ)))
  aggregated none = pure none
  aggregated (some segments) = do
    memory ← get_memory
    args ← lift (read_segments P memory segments)
    pure (some args)

  -- The instructions of a read; nothing is cleared yet.
  unfoldable pub read_instructions : ℕ → Handler P ReadInstructions
  read_instructions host_id = do
    trace database_impl (text "Reading the table name." ∷ []) false
    hash ← read_point_hash host_id
    trace database_impl (text "Reading column names for table " ∷ numbers hash ∷ text "." ∷ [])
        false
    data_size_idx ← next_value
    read_data ← next_values (signed_rounds data_size_idx)
    trace database_impl (about_table "Reading conditions" hash read_data) false
    non_fixed ← attempt next_value
    conditions ← optional_conditions non_fixed
    trace database_impl (about_table "Reading condition arguments" hash read_data) false
    conditions_args ← optional_args conditions
    pure (record {
      read_point_hash = hash;
      read_data = read_data;
      conditions = conditions;
      conditions_args = conditions_args;
    })

  -- `host_id` is the user whose table is read; the database is told the id of the host itself.
  unfoldable pub read_database_raw : ℕ → Handler P (List ℕ)
  read_database_raw host_id = do
    db_impl ← gets (λ h. h.database)
    lift (check_readable db_impl.permissions)
    i ← read_instructions host_id
    trace database_impl
        (about_table "Aggregating condition arguments" i.read_point_hash i.read_data) false
    args ← aggregated i.conditions_args
    user_id ← gets get_host_id
    stack_clear
    trace database_impl
        (text "Delegating database read instructions to generic database implementation." ∷ [])
        false
    lift (
        map_err database
          (P.database.read_raw db_impl.db user_id i.read_point_hash i.read_data i.conditions args))

  unfoldable pub read_database_as_id : ℕ → Handler P (ℕ × ℕ)
  read_database_as_id host_id = do read ← read_database_raw host_id; write_to_memory read

  unfoldable pub read_database_self : Handler P (ℕ × ℕ)
  read_database_self = do
    host_id ← gets get_host_id
    read ← read_database_raw host_id
    write_to_memory read
