-- ===== src/Host/Write.antt =====
-- `write_database_raw` of rs-zephyr-env/src/host/database.rs.
pub mod Delivery
use zephyr_vm.Prelude.{ℕ, ⊤, Bool, true, false, Option, none, some, String, List, [], ◌∷◌, length}
use zephyr_vm.Errors.{
  Result, ok, err, panic, Error, database, DatabaseError, write_on_read_only, read_on_write_only,
}
use zephyr_vm.Exec.{Exec, pure, raise, gets, modify, lift, map_err, attempt, ◌>>=◌, ◌>>◌}
use zephyr_vm.Trace.{Piece, text, number, numbers, database_impl}
use zephyr_vm.Database.{
  WhereCond, DatabasePermissions, read_only, write_only, read_write, DatabaseImpl,
}
use zephyr_vm.Platform.{Platform}
use zephyr_vm.Host.{Host, Handler, MemoryManager}
use zephyr_vm.Host.State.{trace, get_host_id, next_value, stack_clear}
use zephyr_vm.Host.Memory.{memory_manager, get_memory, read_segments, write_to_memory}
use zephyr_vm.Host.Instructions.{
  read_point_hash, next_values, next_pairs, next_conditions, read_columns, read_segment_list,
  read_conditions, signed_rounds, doubled, rounds_by_two,
}
use zephyr_vm.Host.Database.{
  about_table, WriteInstructions, UpdateInstructions, ReadInstructions, check_writable,
  check_readable, finish_write,
}

module _ {P : Platform} where
  -- The block that reads the instructions of a write; it ends by clearing the stack.
  unfoldable pub write_instructions : Handler P (WriteInstructions P)
  write_instructions = do
    id ← gets get_host_id
    trace database_impl (text "Reading the table name." ∷ []) false
    write_point_hash ← read_point_hash id
    trace database_impl
        (text "Reading column names for table " ∷ numbers write_point_hash ∷ text "." ∷ []) false
    columns ← read_columns
    trace database_impl (about_table "Reading data segments" write_point_hash columns) false
    data_segments ← read_segment_list
    manager ← memory_manager
    stack_clear
    pure (record {
      memory = manager.memory;
      write_point_hash = write_point_hash;
      columns = columns;
      segments = data_segments;
    })

  unfoldable pub write_database_raw : Handler P ⊤
  write_database_raw = do
    i ← write_instructions
    trace database_impl
        (text "Using "
          ∷ number (length i.segments)
          ∷ text " segment pairs to retrieve the data from linear memory."
          ∷ [])
        false
    aggregated_data ← lift (read_segments P i.memory i.segments)
    db_impl ← gets (λ h. h.database)
    lift (check_writable db_impl.permissions)
    trace database_impl
        (text "Delegating database insertion instructions to generic database implementation." ∷ [])
        false
    id ← gets get_host_id
    finish_write (P.database.write_raw db_impl.db id i.write_point_hash i.columns aggregated_data)
