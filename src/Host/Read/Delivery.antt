-- ===== src/Host/Read/Delivery.antt =====
-- What `read_database_raw` does on every message that a guest can push for it.
use zephyr_vm.Prelude.{ℕ, ◌<◌, ◌^◌, ◌≡◌, refl, ◌∙◌, ap, Option, none, some, List, [], length}
use zephyr_vm.Errors.{Result, ok, Error, database}
use zephyr_vm.Exec.{map_err}
use zephyr_vm.Stack
use zephyr_vm.Stack.{StackImpl, clear}
use zephyr_vm.Trace.{StackTrace}
use zephyr_vm.Database.{WhereCond}
use zephyr_vm.Host.Runs.{Reads-get_memory}
use zephyr_vm.Platform.{Platform}
use zephyr_vm.Host.{Handler, Host, alive, MemoryManager}
use zephyr_vm.Host.State.{get_host_id}
use zephyr_vm.Host.Memory.{read_segments}
use zephyr_vm.Host.Instructions.{point_bytes}
use zephyr_vm.Host.Runs.{
  touched, Left, Ends, Ends-bind, Reads, Reads-bind, Reads-trace, Reads-pure, Reads-gets,
  Reads-lift, Reads-stack_clear,
}
use zephyr_vm.Host.Database.{ReadInstructions, check_readable}
use zephyr_vm.Host.Read.{aggregated, read_instructions, read_database_raw}
use zephyr_vm.Host.Read.Instructions.{
  read_message, filter_message, Any, Reads-filtered_instructions, Reads-plain_instructions,
}

module _ {P : Platform} where
  Reads-weaken :
      {A : Type 0} {m : Handler P A} {h : Host P} {a : A} {Q : StackImpl → Type 0}
      → Reads m h a Q
      → Reads m h a Any
  Reads-weaken k = record { stack = k.stack; stack_trace = k.stack_trace; run = k.run; left = tt }

  -- Once the instructions and the arguments are there, the database is asked and the stack is empty.
  answered :
      (host_id : ℕ) (i : ReadInstructions) (args : Option (List (List ℕ))) (h : Host P)
      → check_readable {F = P.Foreign} h.database.permissions ≡ ok tt
      → ((t : StackTrace P.Foreign) → Reads (read_instructions host_id) (touched h h.stack t) i Any)
      → ((s : StackImpl) (t : StackTrace P.Foreign)
          → Reads (aggregated i.conditions_args) (touched h s t) args Any)
      → Ends
          (read_database_raw host_id)
          h
          (map_err database (
            P.database.read_raw h.database.db h.id i.read_point_hash i.read_data i.conditions args))
          (λ k. k ≡ record h { stack = Stack.empty; stack_trace = k.stack_trace })
  unfolding read_database_raw get_host_id
  answered host_id i args h can first second =
      Ends-bind _ (Reads-gets Same h refl (λ k. k.database)) λ s t l.
        Ends-bind _ (Reads-lift Same (touched h s t) l _ tt can) λ s t l.
          Ends-bind _ (from_there s t l) λ s t l.
            Ends-bind _ (Reads-trace Any (touched h s t) tt _ _ _) λ s t l.
              Ends-bind _ (second s t) λ s t l.
                Ends-bind _ (Reads-gets Any (touched h s t) tt get_host_id) λ s t l.
                  Ends-bind _ (Reads-stack_clear (touched h s t)) λ s t l.
                    Ends-bind _ (Reads-trace (λ s. s ≡ Stack.empty) (touched h s t) l _ _ _)
                      λ s t l. record { final = _; run = refl; holds = rw l }
    where
      Same : StackImpl → Type 0
      Same s = s ≡ h.stack

      from_there :
          (s : StackImpl) (t : StackTrace P.Foreign)
          → s ≡ h.stack
          → Reads (read_instructions host_id) (touched h s t) i Any
      from_there s t l = rw l (first t)

  finished :
      {r : Result (List ℕ) (Error P.Foreign)} {h : Host P} (host_id : ℕ)
      → Ends
          (read_database_raw host_id)
          h
          r
          (λ k. k ≡ record h { stack = Stack.empty; stack_trace = k.stack_trace })
      → (t : StackTrace P.Foreign) × (read_database_raw host_id h
          ≡ (r, record h { stack = Stack.empty; stack_trace = t }))
  finished {r = r} host_id done =
      (done.final.stack_trace, done.run ∙ ap (λ (k : Host P). (r, k)) done.holds)

  -- A read of whole columns: with the database readable, on a message that ends behind its columns,
  -- fewer than 2 ^ 63 of them, the answer is the database's to the hash of the table and the user
  -- asked for, the columns and no condition, on behalf of the host's own user; the stack is empty
  -- afterwards and nothing else but the trace has changed.
  pub read_database_raw-answers :
      (host_id point : ℕ) (columns : List ℕ) (h : Host P)
      → length columns < 2 ^ 63
      → check_readable {F = P.Foreign} h.database.permissions ≡ ok tt
      → Left (read_message point columns []) h.stack
      → (t : StackTrace P.Foreign) × (read_database_raw host_id h ≡ (
        map_err database (
            P.database.read_raw h.database.db h.id
              (P.md5 (point_bytes point host_id))
              columns
              none
              none),
        record h { stack = Stack.empty; stack_trace = t },
      ))
  unfolding aggregated
  read_database_raw-answers host_id point columns h fits can e = finished host_id (
      answered host_id _ none h can
        (λ t. Reads-plain_instructions point host_id columns (touched h h.stack t) fits e)
        (λ s t. Reads-pure Any (touched h s t) tt none))

  -- A read with conditions: with the database readable, the VM alive, fewer than 2 ^ 63 columns and
  -- fewer than 2 ^ 62 conditions and arguments, and the segments of the arguments in range, the
  -- answer is the database's to the hash of the table and the user asked for, the columns, the
  -- conditions and the bytes of their arguments, on behalf of the host's own user; the stack is
  -- empty afterwards and nothing else but the trace has changed.
  pub read_database_raw-answers_filtered :
      (host_id point : ℕ) (columns : List ℕ) (conditions : List WhereCond) (args : List (ℕ × ℕ))
      (r : List ℕ) (h : Host P) (m : MemoryManager P) (values : List (List ℕ))
      → length columns < 2 ^ 63
      → length conditions < 2 ^ 62
      → length args < 2 ^ 62
      → h.context.vm ≡ some (alive (record { memory_manager = m }))
      → check_readable {F = P.Foreign} h.database.permissions ≡ ok tt
      → Left (read_message point columns (filter_message conditions args r)) h.stack
      → read_segments P m.memory args ≡ ok values
      → (t : StackTrace P.Foreign) × (read_database_raw host_id h ≡ (
        map_err database (
            P.database.read_raw h.database.db h.id
              (P.md5 (point_bytes point host_id))
              columns
              (some conditions)
              (some values)),
        record h { stack = Stack.empty; stack_trace = t },
      ))
  unfolding aggregated
  read_database_raw-answers_filtered host_id point columns conditions args r h m values fits fc fa
        vm can e in_range =
      finished host_id (
        answered host_id _ (some values) h can
          (λ t. Reads-weaken (
            Reads-filtered_instructions point host_id columns conditions args r
              (touched h h.stack t) fits fc fa e))
          (λ s t. Reads-bind _ (Reads-get_memory Any (touched h s t) tt m vm) λ s t l.
            Reads-bind _ (Reads-lift Any (touched h s t) tt _ values in_range)
              λ s t l. Reads-pure Any (touched h s t) tt (some values)))
