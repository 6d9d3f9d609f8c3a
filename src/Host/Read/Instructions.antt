-- ===== src/Host/Read/Instructions.antt =====
-- The instructions that `read_database_raw` decodes from a guest's message.
use zephyr_vm.Prelude.{ℕ, ◌<◌, ◌^◌, ⊤, ◌≡◌, ap, none, some, List, [], ◌∷◌, ◌++◌, length, arith}
use zephyr_vm.Errors.{Result, Error}
use zephyr_vm.Stack.{StackImpl}
use zephyr_vm.Trace.{StackTrace}
use zephyr_vm.Database.{WhereCond}
use zephyr_vm.Prelude.{drop-eq_nil}
use zephyr_vm.Exec.{attempt, dropped_error}
use zephyr_vm.Stack.Reads.{advance, get_with_step_end}
use zephyr_vm.Host.State.{next_value}
use zephyr_vm.Host.Instructions.{signed_rounds, next_values}
use zephyr_vm.Host.Runs.{Reads-next_value, Reads-next_values}
use zephyr_vm.Host.Messages.{conds, doubled_small, rounds_doubled, Reads-next_conditions}
use zephyr_vm.Platform.{Platform}
use zephyr_vm.Host.{Handler, Host}
use zephyr_vm.Host.Instructions.{point_bytes}
use zephyr_vm.Host.Messages.{
  columns_message, segments_message, conditions_message, Reads-point_hash, Reads-segment_list,
}
use zephyr_vm.Host.Runs.{touched, Left, Reads, Reads-bind, Reads-trace, Reads-pure, Reads-lift}
use zephyr_vm.Host.Read.{optional_conditions, optional_args, read_instructions}

-- A table and the columns to read.
abbrev pub read_message : ℕ → List ℕ → List ℕ → List ℕ
read_message point columns r = point ∷ columns_message columns r

-- The conditions on the rows, and a segment for each of their arguments.
abbrev pub filter_message : List WhereCond → List (ℕ × ℕ) → List ℕ → List ℕ
filter_message conditions args r = conditions_message conditions (segments_message args r)

signed_rounds_small : (n : ℕ) → n < 2 ^ 63 → signed_rounds n ≡ n
signed_rounds_small n h = ground arith

abbrev pub Any : StackImpl → Type 0
Any s = ⊤

module _ {P : Platform} where
  Reads-read_data :
      (columns r : List ℕ) (h : Host P)
      → length columns < 2 ^ 63
      → Left (columns ++ r) h.stack
      → Reads (next_values (signed_rounds (length columns))) h columns (Left r)
  Reads-read_data columns r h fits l =
      rw (signed_rounds_small (length columns) fits) (Reads-next_values columns r h l)

  Reads-attempt :
      {A : Type 0} {m : Handler P A} {h : Host P} {a : A} {Q : StackImpl → Type 0}
      → Reads m h a Q
      → Reads (attempt m) h (some a) Q
  Reads-attempt {A} first = record {
    stack = first.stack;
    stack_trace = first.stack_trace;
    run = ap (λ (k : Result A (Error P.Foreign) × Host P). (dropped_error k.0, k.1)) first.run;
    left = first.left;
  }

  Reads-attempt_end : (h : Host P) → Left [] h.stack → Reads (attempt next_value) h none Any
  unfolding next_value
  Reads-attempt_end h e = record {
    stack = advance 1 h.stack;
    stack_trace = h.stack_trace;
    run = rw (get_with_step_end {F = P.Foreign} h.stack (drop-eq_nil h.stack.inner h.stack.step e));
    left = tt;
  }

  Reads-some_conditions :
      (conditions : List WhereCond) (r : List ℕ) (h : Host P)
      → length conditions < 2 ^ 62
      → Left (conds conditions r) h.stack
      → Reads (optional_conditions (some (length conditions))) h (some conditions) (Left r)
  unfolding optional_conditions
  Reads-some_conditions conditions r h fits l =
      Reads-bind _ (Reads-lift (Left _) h l _ _ (doubled_small (length conditions) fits)) λ s t l.
        Reads-bind _
          (rw (rounds_doubled (length conditions))
            (Reads-next_conditions conditions r (touched h s t) l))
          λ s t l. Reads-pure (Left r) (touched h s t) l _

  Reads-some_args :
      (conditions : List WhereCond) (args : List (ℕ × ℕ)) (r : List ℕ) (h : Host P)
      → length args < 2 ^ 62
      → Left (segments_message args r) h.stack
      → Reads (optional_args (some conditions)) h (some args) (Left r)
  unfolding optional_args
  Reads-some_args conditions args r h fits l =
      Reads-bind _ (Reads-segment_list args r h fits l)
        λ s t l. Reads-pure (Left r) (touched h s t) l _

  -- The instructions with a filter.
  pub Reads-filtered_instructions :
      (point host_id : ℕ) (columns : List ℕ) (conditions : List WhereCond) (args : List (ℕ × ℕ))
      (r : List ℕ) (h : Host P)
      → length columns < 2 ^ 63
      → length conditions < 2 ^ 62
      → length args < 2 ^ 62
      → Left (read_message point columns (filter_message conditions args r)) h.stack
      → Reads
          (read_instructions host_id)
          h
          (record {
            read_point_hash = P.md5 (point_bytes point host_id);
            read_data = columns;
            conditions = some conditions;
            conditions_args = some args;
          })
          (Left r)
  unfolding read_instructions
  Reads-filtered_instructions point host_id columns conditions args r h fits fc fa e =
      Reads-bind _ (Reads-trace (Left _) h e _ _ _) λ s t l.
        Reads-bind _ (Reads-point_hash host_id point _ (touched h s t) l) λ s t l.
          Reads-bind _ (Reads-trace (Left _) (touched h s t) l _ _ _) λ s t l.
            Reads-bind _ (Reads-next_value (length columns) _ (touched h s t) l) λ s t l.
              Reads-bind _ (Reads-read_data columns _ (touched h s t) fits l) λ s t l.
                Reads-bind _ (Reads-trace (Left _) (touched h s t) l _ _ _) λ s t l.
                  Reads-bind _
                    (Reads-attempt (Reads-next_value (length conditions) _ (touched h s t) l))
                    λ s t l.
                      Reads-bind _ (Reads-some_conditions conditions _ (touched h s t) fc l)
                        λ s t l.
                          Reads-bind _ (Reads-trace (Left _) (touched h s t) l _ _ _) λ s t l.
                            Reads-bind _ (Reads-some_args conditions args r (touched h s t) fa l)
                              λ s t l. Reads-pure (Left r) (touched h s t) l _

  -- The instructions of a read of the whole table: the stack ends behind the columns.
  pub Reads-plain_instructions :
      (point host_id : ℕ) (columns : List ℕ) (h : Host P)
      → length columns < 2 ^ 63
      → Left (read_message point columns []) h.stack
      → Reads
          (read_instructions host_id)
          h
          (record {
            read_point_hash = P.md5 (point_bytes point host_id);
            read_data = columns;
            conditions = none;
            conditions_args = none;
          })
          Any
  unfolding read_instructions optional_conditions optional_args
  Reads-plain_instructions point host_id columns h fits e =
      Reads-bind _ (Reads-trace (Left _) h e _ _ _) λ s t l.
        Reads-bind _ (Reads-point_hash host_id point _ (touched h s t) l) λ s t l.
          Reads-bind _ (Reads-trace (Left _) (touched h s t) l _ _ _) λ s t l.
            Reads-bind _ (Reads-next_value (length columns) _ (touched h s t) l) λ s t l.
              Reads-bind _ (Reads-next_data s t l) λ s t l.
                Reads-bind _ (Reads-trace (Left _) (touched h s t) l _ _ _) λ s t l.
                  Reads-bind _ (Reads-attempt_end (touched h s t) l) λ s t l.
                    Reads-bind _ (Reads-pure Any (touched h s t) tt none) λ s t l.
                      Reads-bind _ (Reads-trace Any (touched h s t) tt _ _ _) λ s t l.
                        Reads-bind _ (Reads-pure Any (touched h s t) tt none)
                          λ s t l. Reads-pure Any (touched h s t) tt _
    where
      Reads-next_data :
          (s : StackImpl) (t : StackTrace P.Foreign)
          → Left (columns ++ []) s
          → Reads (next_values (signed_rounds (length columns))) (touched h s t) columns (Left [])
      Reads-next_data s t l = Reads-read_data columns [] (touched h s t) fits l
