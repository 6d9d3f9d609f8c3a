-- ===== src/Host/Update/Delivery.antt =====
-- What `update_database_raw` does on every message that a guest can push for it.
use zephyr_vm.Prelude.{ℕ, ◌<◌, ◌^◌, ⊤, ◌≡◌, refl, ◌∙◌, ap, some, List, ◌∷◌, length}
use zephyr_vm.Errors.{Result, ok, Error, database, DatabaseError}
use zephyr_vm.Exec.{map_err}
use zephyr_vm.Stack
use zephyr_vm.Stack.{StackImpl, clear}
use zephyr_vm.Trace.{StackTrace}
use zephyr_vm.Database.{WhereCond}
use zephyr_vm.Platform.{Platform}
use zephyr_vm.Host.{Host, alive, MemoryManager}
use zephyr_vm.Host.State.{get_host_id}
use zephyr_vm.Host.Memory.{read_segments}
use zephyr_vm.Host.Instructions.{point_bytes}
use zephyr_vm.Host.Messages.{
  columns_message, segments_message, conditions_message, Reads-point_hash, Reads-columns,
  Reads-segment_list, Reads-conditions,
}
use zephyr_vm.Host.Runs.{
  touched, Left, Ends, Ends-bind, Reads, Reads-bind, Reads-trace, Reads-pure, Reads-gets,
  Reads-lift, Reads-memory_manager, Reads-stack_clear,
}
use zephyr_vm.Host.Database.{check_writable}
use zephyr_vm.Host.Update.{update_instructions, update_database_raw}

-- A write's message, then the conditions, then a segment for each of their arguments.
abbrev pub update_message :
    ℕ → List ℕ → List (ℕ × ℕ) → List WhereCond → List (ℕ × ℕ) → List ℕ → List ℕ
update_message point columns segments conditions args r =
    point
    ∷ columns_message columns
        (segments_message segments (conditions_message conditions (segments_message args r)))

module _ {P : Platform} where
  Reads-update_instructions :
      (point : ℕ) (columns : List ℕ) (segments : List (ℕ × ℕ)) (conditions : List WhereCond)
      (args : List (ℕ × ℕ)) (r : List ℕ) (h : Host P) (m : MemoryManager P)
      → length segments < 2 ^ 62
      → length conditions < 2 ^ 62
      → length args < 2 ^ 62
      → h.context.vm ≡ some (alive (record { memory_manager = m }))
      → Left (update_message point columns segments conditions args r) h.stack
      → Reads update_instructions h
          (record {
            memory = m.memory;
            write_point_hash = P.md5 (point_bytes point h.id);
            columns = columns;
            segments = segments;
            conditions = conditions;
            conditions_args = args;
          })
          (λ s. s ≡ Stack.empty)
  unfolding update_instructions get_host_id
  Reads-update_instructions point columns segments conditions args r h m fs fc fa vm e =
      Reads-bind _ (Reads-gets (Left message) h e get_host_id) λ s t l.
        Reads-bind _ (Reads-trace (Left message) (touched h s t) l _ _ _) λ s t l.
          Reads-bind _ (Reads-point_hash h.id point _ (touched h s t) l) λ s t l.
            Reads-bind _ (Reads-trace (Left _) (touched h s t) l _ _ _) λ s t l.
              Reads-bind _ (Reads-columns columns _ (touched h s t) l) λ s t l.
                Reads-bind _ (Reads-trace (Left _) (touched h s t) l _ _ _) λ s t l.
                  Reads-bind _ (Reads-segment_list segments _ (touched h s t) fs l) λ s t l.
                    Reads-bind _ (Reads-trace (Left _) (touched h s t) l _ _ _) λ s t l.
                      Reads-bind _ (Reads-conditions conditions _ (touched h s t) fc l) λ s t l.
                        Reads-bind _ (Reads-trace (Left _) (touched h s t) l _ _ _) λ s t l.
                          Reads-bind _ (Reads-segment_list args r (touched h s t) fa l) λ s t l.
                            Reads-bind _ (Reads-memory_manager (Left r) (touched h s t) l m vm)
                              λ s t l.
                                Reads-bind _ (Reads-stack_clear (touched h s t))
                                  λ s t l. Reads-pure (λ s. s ≡ Stack.empty) (touched h s t) l _
    where
      message : List ℕ
      message = update_message point columns segments conditions args r

module _ {P : Platform} where
  -- On a message that is well formed, its segments, conditions and arguments each fewer than
  -- 2 ^ 62, with the VM alive, the database writable and all segments in
  -- range, the database is asked once to update, with the hash of the table and the user, the
  -- columns, the bytes of the segments, the conditions and the bytes of their arguments; the
  -- outcome is the database's; the stack is empty afterwards, and nothing else but the database's
  -- contents and the trace has changed.
  pub update_database_raw-delivers :
      (point : ℕ) (columns : List ℕ) (segments : List (ℕ × ℕ)) (conditions : List WhereCond)
      (args : List (ℕ × ℕ)) (r : List ℕ) (h : Host P) (m : MemoryManager P)
      (written values : List (List ℕ))
      → length segments < 2 ^ 62
      → length conditions < 2 ^ 62
      → length args < 2 ^ 62
      → h.context.vm ≡ some (alive (record { memory_manager = m }))
      → Left (update_message point columns segments conditions args r) h.stack
      → check_writable {F = P.Foreign} h.database.permissions ≡ ok tt
      → read_segments P m.memory segments ≡ ok written
      → read_segments P m.memory args ≡ ok values
      → let (answer, db) =
          P.database.update_raw h.database.db h.id
            (P.md5 (point_bytes point h.id))
            columns
            written
            conditions
            values in
        (t : StackTrace P.Foreign) × (update_database_raw h ≡ (
          map_err database answer,
          record h {
            stack = Stack.empty;
            stack_trace = t;
            database = record h.database { db = db };
          },
        ))
  unfolding update_database_raw get_host_id
  update_database_raw-delivers point columns segments conditions args r h m written values fs fc fa
        vm e can in_range args_in_range =
      let done = call in
      (
        done.final.stack_trace,
        done.run
            ∙ ap (λ (k : Host P). (map_err {E = Error P.Foreign} database answer.0, k)) done.holds,
      )
    where
      Empty : StackImpl → Type 0
      Empty s = s ≡ Stack.empty

      answer : Result ⊤ DatabaseError × P.database.Db
      answer =
          P.database.update_raw h.database.db h.id (P.md5 (point_bytes point h.id)) columns written
            conditions values

      call : Ends update_database_raw h (map_err database answer.0) (λ k. k ≡ record h {
        stack = Stack.empty;
        stack_trace = k.stack_trace;
        database = record h.database { db = answer.1 };
      })
      call =
          Ends-bind _
            (Reads-update_instructions point columns segments conditions args r h m fs fc fa vm e)
            λ s t l. Ends-bind _ (Reads-trace Empty (touched h s t) l _ _ _) λ s t l.
              Ends-bind _ (Reads-lift Empty (touched h s t) l _ written in_range) λ s t l.
                Ends-bind _ (Reads-trace Empty (touched h s t) l _ _ _) λ s t l.
                  Ends-bind _ (Reads-lift Empty (touched h s t) l _ values args_in_range) λ s t l.
                    Ends-bind _ (Reads-gets Empty (touched h s t) l (λ k. k.database)) λ s t l.
                      Ends-bind _ (Reads-lift Empty (touched h s t) l _ tt can) λ s t l.
                        Ends-bind _ (Reads-trace Empty (touched h s t) l _ _ _) λ s t l.
                          Ends-bind _ (Reads-gets Empty (touched h s t) l get_host_id)
                            λ s t l. record { final = _; run = refl; holds = rw l }
