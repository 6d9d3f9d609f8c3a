-- ===== src/Host/Functions/Messages.antt =====
-- A whole write, from the guest's side: the message is pushed, one value at a time, and `write_raw`
-- is called.
use zephyr_vm.Prelude.{
  false, ℕ, ◌<◌, ◌^◌, ⊤, ◌≡◌, refl, sym, ap, ◌∙◌, some, List, [], ◌∷◌, ◌++◌, length, append-nil,
  append_assoc,
}
use zephyr_vm.Errors.{Result, ok, err, panic, Error, database, DatabaseError}
use zephyr_vm.Exec.{map_err, pure, ◌>>=◌}
use zephyr_vm.Stack
use zephyr_vm.Stack.{StackImpl}
use zephyr_vm.Trace.{StackTrace, text, database_impl}
use zephyr_vm.Platform.{Platform}
use zephyr_vm.Host.{Host, alive, MemoryManager}
use zephyr_vm.Host.State.{trace, stack_push}
use zephyr_vm.Host.Memory.{read_segments}
use zephyr_vm.Host.Instructions.{point_bytes}
use zephyr_vm.Host.Database.{check_writable}
use zephyr_vm.Host.Runs.{Left}
use zephyr_vm.Host.Write.Delivery.{write_message, write_database_raw-delivers}
use zephyr_vm.Host.Functions.{answered_by, handled, write_failed, db_write_fn, stack_push_fn}
use zephyr_vm.Host.Functions.Calls.{write_raw, zephyr_stack_push, dispatch}

module _ {P : Platform} where
  -- One call of `zephyr_stack_push` for each value.
  pub push_all : List ℕ → Host P → Host P
  push_all [] h = h
  push_all (v ∷ vs) h = push_all vs (dispatch (zephyr_stack_push v) h).1

  -- The values stand on the stack in the order of the pushes.
  push_all-stack :
      (vs : List ℕ) (h : Host P)
      → push_all vs h ≡ record h { stack = record h.stack { inner = h.stack.inner ++ vs } }
  unfolding push_all dispatch stack_push_fn stack_push ◌>>=◌ Stack.push
  push_all-stack [] h =
      ap (λ (l : List ℕ). record h { stack = record h.stack { inner = l } })
        (sym (append-nil h.stack.inner))
  push_all-stack (v ∷ vs) h =
      push_all-stack vs (dispatch (zephyr_stack_push v) h).1
      ∙ ap (λ (l : List ℕ). record h { stack = record h.stack { inner = l } })
          (append_assoc h.stack.inner (v ∷ []) vs)

-- What the guest is told of the database's answer.
abbrev pub reported : (P : Platform) → Result ⊤ DatabaseError → Result (List ℕ) (Error P.Foreign)
reported P (ok done) = ok (P.success ∷ [])
reported P (err e) = ok (P.status (database e) ∷ [])
reported P panic = panic

module _ {P : Platform} where
  answered :
      (r : Result ⊤ DatabaseError) (k : Host P)
      → (t : StackTrace P.Foreign) × (answered_by
            (map_err database r)
            (λ _. pure (P.success ∷ []))
            write_failed
            k
          ≡ (reported P r, record k { stack_trace = t }))
  unfolding ◌>>=◌ trace
  answered (ok done) k = (_, refl)
  answered (err e) k = (_, refl)
  answered panic k = (_, refl)

  -- `write_raw` on a well-formed message.
  db_write_fn-delivers :
      (point : ℕ) (columns : List ℕ) (segments : List (ℕ × ℕ)) (h : Host P) (m : MemoryManager P)
      (written : List (List ℕ))
      → length segments < 2 ^ 62
      → h.context.vm ≡ some (alive (record { memory_manager = m }))
      → Left (write_message point columns segments []) h.stack
      → check_writable {F = P.Foreign} h.database.permissions ≡ ok tt
      → read_segments P m.memory segments ≡ ok written
      → let (answer, db) =
          P.database.write_raw h.database.db h.id
            (P.md5 (point_bytes point h.id))
            columns
            written in
        (t : StackTrace P.Foreign) × (db_write_fn h ≡ (
          reported P answer,
          record h {
            stack = Stack.empty;
            stack_trace = t;
            database = record h.database { db = db };
          },
        ))
  unfolding db_write_fn handled ◌>>=◌ trace
  db_write_fn-delivers point columns segments h m written fits vm e can in_range =
      let (t, run) =
        write_database_raw-delivers point columns segments []
          (trace database_impl (text "Writing to the database implementation." ∷ []) false h).1 m
          written fits vm e can in_range in
      let (t', done) = answered _ _ in
      (
        t',
        ap
              (λ (x : Result ⊤ (Error P.Foreign) × Host P).
                answered_by x.0 (λ _. pure (P.success ∷ [])) write_failed x.1)
              run
            ∙ done,
      )

  -- A guest that pushes a well-formed message of fewer than 2 ^ 62 segments on an empty stack and
  -- calls `write_raw`, with its VM alive, the database writable and the segments in range: the
  -- database is called once, with the hash of the table and the user, the columns and the bytes of
  -- the segments; the guest gets the status of its answer; the stack is empty again, and nothing
  -- else but the database's contents and the trace has changed.
  pub push_all-delivers :
      (point : ℕ) (columns : List ℕ) (segments : List (ℕ × ℕ)) (h : Host P) (m : MemoryManager P)
      (written : List (List ℕ))
      → length segments < 2 ^ 62
      → h.context.vm ≡ some (alive (record { memory_manager = m }))
      → h.stack ≡ Stack.empty
      → check_writable {F = P.Foreign} h.database.permissions ≡ ok tt
      → read_segments P m.memory segments ≡ ok written
      → let (answer, db) =
          P.database.write_raw h.database.db h.id
            (P.md5 (point_bytes point h.id))
            columns
            written in
        (t : StackTrace P.Foreign) × (dispatch write_raw
            (push_all (write_message point columns segments []) h)
          ≡ (
            reported P answer,
            record h {
              stack = Stack.empty;
              stack_trace = t;
              database = record h.database { db = db };
            },
          ))
  unfolding dispatch
  push_all-delivers point columns segments h m written fits vm e can in_range =
      let (t, run) =
        db_write_fn-delivers point columns segments
          (record h { stack = record { inner = message; step = 0 } }) m written fits vm refl can
          in_range in
      (t, ap (λ (k : Host P). db_write_fn k) pushed ∙ run)
    where
      message : List ℕ
      message = write_message point columns segments []

      pushed : push_all message h ≡ record h { stack = record { inner = message; step = 0 } }
      pushed =
          push_all-stack message h
          ∙ ap (λ (s : StackImpl). record h { stack = record s { inner = s.inner ++ message } }) e
