-- ===== src/Host/Write/Delivery.antt =====
-- What `write_database_raw` does on every message that a guest can push for it.
use zephyr_vm.Prelude.{ℕ, ◌<◌, ◌^◌, ⊤, ◌≡◌, refl, ◌∙◌, ap, some, List, ◌∷◌, length}
use zephyr_vm.Errors.{Result, ok, Error, database, DatabaseError}
use zephyr_vm.Exec.{map_err}
use zephyr_vm.Stack
use zephyr_vm.Stack.{StackImpl, clear}
use zephyr_vm.Trace.{StackTrace}
use zephyr_vm.Platform.{Platform}
use zephyr_vm.Host.{Host, alive, MemoryManager}
use zephyr_vm.Host.State.{get_host_id}
use zephyr_vm.Host.Memory.{read_segments}
use zephyr_vm.Host.Instructions.{point_bytes}
use zephyr_vm.Host.Messages.{
  columns_message, segments_message, Reads-point_hash, Reads-columns, Reads-segment_list,
}
use zephyr_vm.Host.Runs.{
  touched, Left, Ends, Ends-bind, Reads, Reads-bind, Reads-trace, Reads-pure, Reads-gets,
  Reads-lift, Reads-memory_manager, Reads-stack_clear,
}
use zephyr_vm.Host.Database.{check_writable}
use zephyr_vm.Host.Write.{write_instructions, write_database_raw}

-- A table, the names of its columns, and a segment of linear memory for each value.
abbrev pub write_message : ℕ → List ℕ → List (ℕ × ℕ) → List ℕ → List ℕ
write_message point columns segments r =
    point ∷ columns_message columns (segments_message segments r)

module _ {P : Platform} where
  Reads-write_instructions :
      (point : ℕ) (columns : List ℕ) (segments : List (ℕ × ℕ)) (r : List ℕ) (h : Host P)
      (m : MemoryManager P)
      → length segments < 2 ^ 62
      → h.context.vm ≡ some (alive (record { memory_manager = m }))
      → Left (write_message point columns segments r) h.stack
      → Reads write_instructions h
          (record {
            memory = m.memory;
            write_point_hash = P.md5 (point_bytes point h.id);
            columns = columns;
            segments = segments;
          })
          (λ s. s ≡ Stack.empty)
  unfolding write_instructions get_host_id
  Reads-write_instructions point columns segments r h m fits vm e =
      Reads-bind _ (Reads-gets (Left message) h e get_host_id) λ s t l.
        Reads-bind _ (Reads-trace (Left message) (touched h s t) l _ _ _) λ s t l.
          Reads-bind _ (Reads-point_hash h.id point _ (touched h s t) l) λ s t l.
            Reads-bind _ (Reads-trace (Left _) (touched h s t) l _ _ _) λ s t l.
              Reads-bind _ (Reads-columns columns _ (touched h s t) l) λ s t l.
                Reads-bind _ (Reads-trace (Left _) (touched h s t) l _ _ _) λ s t l.
                  Reads-bind _ (Reads-segment_list segments r (touched h s t) fits l) λ s t l.
                    Reads-bind _ (Reads-memory_manager (Left r) (touched h s t) l m vm) λ s t l.
                      Reads-bind _ (Reads-stack_clear (touched h s t))
                        λ s t l. Reads-pure (λ s. s ≡ Stack.empty) (touched h s t) l _
    where
      message : List ℕ
      message = write_message point columns segments r

module _ {P : Platform} where
  -- On a message that is well formed and of fewer than 2 ^ 62 segments, with the VM alive, the
  -- database writable and the segments in range, the database is called once, with the hash of the
  -- table and the user, the columns and the bytes of the segments; the outcome is the database's;
  -- the stack is empty afterwards, and nothing else but the database's contents and the trace has
  -- changed.
  pub write_database_raw-delivers :
      (point : ℕ) (columns : List ℕ) (segments : List (ℕ × ℕ)) (r : List ℕ) (h : Host P)
      (m : MemoryManager P) (written : List (List ℕ))
      → length segments < 2 ^ 62
      → h.context.vm ≡ some (alive (record { memory_manager = m }))
      → Left (write_message point columns segments r) h.stack
      → check_writable {F = P.Foreign} h.database.permissions ≡ ok tt
      → read_segments P m.memory segments ≡ ok written
      → let (answer, db) =
          P.database.write_raw h.database.db h.id
            (P.md5 (point_bytes point h.id))
            columns
            written in
        (t : StackTrace P.Foreign) × (write_database_raw h ≡ (
          map_err database answer,
          record h {
            stack = Stack.empty;
            stack_trace = t;
            database = record h.database { db = db };
          },
        ))
  unfolding write_database_raw get_host_id
  write_database_raw-delivers point columns segments r h m written fits vm e can in_range =
      let done = call in
      (
        done.final.stack_trace,
        done.run
            ∙ ap (λ (k : Host P). (map_err {E = Error P.Foreign} database answer.0, k)) done.holds,
      )
    where
      Empty : StackImpl → Type 0
      Empty s = s ≡ Stack.empty

      answer : Result ⊤ DatabaseError × P.database.Db
      answer =
          P.database.write_raw h.database.db h.id (P.md5 (point_bytes point h.id)) columns written

      call : Ends write_database_raw h (map_err database answer.0) (λ k. k ≡ record h {
        stack = Stack.empty;
        stack_trace = k.stack_trace;
        database = record h.database { db = answer.1 };
      })
      call = Ends-bind _ (Reads-write_instructions point columns segments r h m fits vm e) λ s t l.
          Ends-bind _ (Reads-trace Empty (touched h s t) l _ _ _) λ s t l.
            Ends-bind _ (Reads-lift Empty (touched h s t) l _ written in_range) λ s t l.
              Ends-bind _ (Reads-gets Empty (touched h s t) l (λ k. k.database)) λ s t l.
                Ends-bind _ (Reads-lift Empty (touched h s t) l _ tt can) λ s t l.
                  Ends-bind _ (Reads-trace Empty (touched h s t) l _ _ _) λ s t l.
                    Ends-bind _ (Reads-gets Empty (touched h s t) l get_host_id)
                      λ s t l. record { final = _; run = refl; holds = rw l }
