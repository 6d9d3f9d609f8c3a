-- ===== src/Tests/Calls.antt =====
-- The database calls at concrete inputs: the user 7, the table 5 with one column 6, and segments of
-- the sample's memory.
use zephyr_vm.Prelude.{◌≡◌, refl, ⊤, [], ◌∷◌, arith}
use zephyr_vm.Errors.{ok}
use zephyr_vm.Exec.{◌>>=◌}
use zephyr_vm.Stack
use zephyr_vm.Stack.{get_with_step}
use zephyr_vm.Trace.{StackTrace}
use zephyr_vm.Database.{read_only, read_write, col_gt}
use zephyr_vm.Host.{Host, MemoryManager}
use zephyr_vm.Host.Memory.{read_segments, read_segment_from_memory}
use zephyr_vm.Host.Instructions.{point_bytes, read_point_hash, read_columns, next_values}
use zephyr_vm.Host.Database.{check_writable, check_readable}
use zephyr_vm.Host.Quiet.{Touches, whole}
use zephyr_vm.Host.Write.{write_database_raw, write_instructions}
use zephyr_vm.Host.Write.Delivery.{write_message, write_database_raw-delivers}
use zephyr_vm.Host.Update.{update_database_raw}
use zephyr_vm.Host.Update.Delivery.{update_message, update_database_raw-delivers}
use zephyr_vm.Host.Read.{read_database_raw}
use zephyr_vm.Host.Read.Instructions.{read_message, filter_message}
use zephyr_vm.Host.Read.Delivery.{read_database_raw-answers, read_database_raw-answers_filtered}
use zephyr_vm.Host.Guards.{Fails, read_database_raw-Touches, write_database_raw-read_only}
use zephyr_vm.Host.Stale.{write_instructions-leaves}
use zephyr_vm.Host.Functions.Calls.{dispatch, Reach, here, next, call, zephyr_stack_push, write_raw}
use zephyr_vm.Host.Functions.{stack_push_fn}
use zephyr_vm.Host.State.{stack_push, trace, next_value}
use zephyr_vm.Host.Functions.Messages.{push_all, push_all-delivers}
use zephyr_vm.Host.Functions.Kept.{Same}
use zephyr_vm.Host.Functions.Reach.{Reach-Same, Reach-read_only}
use zephyr_vm.Tests.Sample.{sample, memory, host_with, Row}

abbrev manager : MemoryManager sample
manager = record { memory = memory; offset = 0 }

-- The last of these is never read.
abbrev to_write : Host sample
to_write = host_with read_write (write_message 5 (6 ∷ []) ((0, 2) ∷ []) (9 ∷ []))

-- One row, of the two bytes at 0.
abbrev written_row : Row
written_row = record {
  user = 7;
  table = point_bytes 5 7;
  columns = 6 ∷ [];
  values = (10 ∷ 11 ∷ []) ∷ [];
}

write_database_raw-delivers_example :
    (t : StackTrace ⊤) × (write_database_raw to_write ≡ (
      ok tt,
      record to_write {
        stack = Stack.empty;
        stack_trace = t;
        database = record { permissions = read_write; db = written_row ∷ [] };
      },
    ))
unfolding read_segments read_segment_from_memory check_writable
write_database_raw-delivers_example =
    write_database_raw-delivers 5 (6 ∷ []) ((0, 2) ∷ []) (9 ∷ []) to_write manager
      ((10 ∷ 11 ∷ []) ∷ []) (omega arith) refl refl refl refl

abbrev to_update : Host sample
to_update =
    host_with read_write (update_message 5 (6 ∷ []) ((0, 2) ∷ []) (col_gt 6 ∷ []) ((2, 1) ∷ []) [])

update_database_raw-delivers_example :
    (t : StackTrace ⊤) × (update_database_raw to_update ≡ (
      ok tt,
      record to_update {
        stack = Stack.empty;
        stack_trace = t;
        database = record { permissions = read_write; db = written_row ∷ [] };
      },
    ))
unfolding read_segments read_segment_from_memory check_writable
update_database_raw-delivers_example =
    update_database_raw-delivers 5 (6 ∷ []) ((0, 2) ∷ []) (col_gt 6 ∷ []) ((2, 1) ∷ []) [] to_update
      manager ((10 ∷ 11 ∷ []) ∷ []) ((12 ∷ []) ∷ []) (omega arith) (omega arith) (omega arith) refl
      refl refl refl refl

abbrev to_read : Host sample
to_read = host_with read_only (read_message 5 (6 ∷ []) [])

-- The sample's database answers with the number of its rows and the columns it is asked for.
read_database_raw-answers_example :
    (t : StackTrace ⊤) × (read_database_raw 7 to_read
      ≡ (ok (0 ∷ 6 ∷ []), record to_read { stack = Stack.empty; stack_trace = t }))
unfolding check_readable
read_database_raw-answers_example =
    read_database_raw-answers 7 5 (6 ∷ []) to_read (omega arith) refl refl

abbrev to_filter : Host sample
to_filter =
    host_with read_only (read_message 5 (6 ∷ []) (filter_message (col_gt 6 ∷ []) ((2, 1) ∷ []) []))

read_database_raw-answers_filtered_example :
    (t : StackTrace ⊤) × (read_database_raw 7 to_filter
      ≡ (ok (0 ∷ 6 ∷ []), record to_filter { stack = Stack.empty; stack_trace = t }))
unfolding check_readable read_segments read_segment_from_memory
read_database_raw-answers_filtered_example =
    read_database_raw-answers_filtered 7 5 (6 ∷ []) (col_gt 6 ∷ []) ((2, 1) ∷ []) [] to_filter
      manager ((12 ∷ []) ∷ []) (omega arith) (omega arith) (omega arith) refl refl refl refl

read_database_raw-Touches_example : Touches whole to_filter (read_database_raw 7 to_filter).1
read_database_raw-Touches_example = read_database_raw-Touches 7 to_filter

-- The same message, with a read-only database.
abbrev barred : Host sample
barred = host_with read_only (write_message 5 (6 ∷ []) ((0, 2) ∷ []) [])

write_database_raw-read_only_example :
    Touches whole barred (write_database_raw barred).1 × Fails (write_database_raw barred).0
write_database_raw-read_only_example = write_database_raw-read_only barred refl

-- Two columns are announced and one is there.
abbrev short : Host sample
short = host_with read_write (5 ∷ 2 ∷ 6 ∷ [])

write_instructions-leaves_example : (write_instructions short).1.stack.inner ≡ 5 ∷ 2 ∷ 6 ∷ []
unfolding ◌>>=◌ write_instructions trace read_point_hash read_columns next_values next_value
    get_with_step
write_instructions-leaves_example = write_instructions-leaves short tt

-- A push.
pushed : Reach barred (host_with read_only (write_message 5 (6 ∷ []) ((0, 2) ∷ []) (4 ∷ [])))
unfolding dispatch stack_push_fn stack_push ◌>>=◌ Stack.push
pushed = next here (call (zephyr_stack_push 4) [] refl)

Reach-Same_example :
    Same barred (host_with read_only (write_message 5 (6 ∷ []) ((0, 2) ∷ []) (4 ∷ [])))
Reach-Same_example = Reach-Same barred _ pushed

Reach-read_only_example :
    (host_with read_only (write_message 5 (6 ∷ []) ((0, 2) ∷ []) (4 ∷ []))).database.db ≡ []
Reach-read_only_example = Reach-read_only barred _ pushed refl

-- The same write, pushed by the guest.
push_all-delivers_example :
    (t : StackTrace ⊤) × (dispatch write_raw
        (push_all (write_message 5 (6 ∷ []) ((0, 2) ∷ []) []) (host_with read_write []))
      ≡ (
        ok (0 ∷ []),
        record (host_with read_write []) {
          stack = Stack.empty;
          stack_trace = t;
          database = record { permissions = read_write; db = written_row ∷ [] };
        },
      ))
unfolding read_segments read_segment_from_memory check_writable
push_all-delivers_example =
    push_all-delivers 5 (6 ∷ []) ((0, 2) ∷ []) (host_with read_write []) manager
      ((10 ∷ 11 ∷ []) ∷ []) (omega arith) refl refl refl refl
