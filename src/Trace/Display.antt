-- ===== src/Trace/Display.antt =====
-- The trace as it is shown: the two `Display` of rs-zephyr-env/src/trace.rs. What is shown is a list
-- of lines, each in the parts of its format string.
use zephyr_vm.Prelude.{
  ℕ, ◌+◌, ◌≡◌, ap, ◌∙◌, Bool, none, some, String, List, [], ◌∷◌, ◌++◌, length, length-append,
  if◌then◌else◌, arith,
}
use zephyr_vm.Trace.{
  TracePoint, soroban_environment, zephyr_environment, database_impl, ledger_impl, Piece, text,
  number, TraceImpl, StackTrace, maybe_add_trace,
}

-- A piece, the pieces of a message, and a number or a text that is padded to a width.
pub data Part (F : Type 0) : Type 0 where
  piece : Piece F → Part F
  pieces : List (Piece F) → Part F
  padded_number : ℕ → ℕ → Part F
  padded_text : ℕ → String → Part F

unfoldable pub point_name : TracePoint → String
point_name soroban_environment = "Soroban"
point_name zephyr_environment = "Zephyr"
point_name database_impl = "Database"
point_name ledger_impl = "Ledger"

module _ {F : Type 0} where
  -- `{:3}. [{}] {:7} | {:7} | {}`. The `Display` of a trace point writes its name by `write!`, which
  -- does not look at the width.
  unfoldable pub entry_line : ℕ → TraceImpl F → List (Part F)
  entry_line index trace =
      padded_number 3 index
      ∷ piece (text ". [")
      ∷ piece (number trace.time)
      ∷ piece (text "] ")
      ∷ padded_text 7 (if trace.is_error then "ERROR" else "INFO")
      ∷ piece (text " | ")
      ∷ piece (text (point_name trace.trace_point))
      ∷ piece (text " | ")
      ∷ pieces trace.message
      ∷ []

  -- `for (index, trace) in traces.iter().enumerate()`, with the number of the next entry.
  unfoldable pub entry_lines : ℕ → List (TraceImpl F) → List (List (Part F))
  entry_lines index [] = []
  entry_lines index (trace ∷ traces) = entry_line index trace ∷ entry_lines (index + 1) traces

  unfoldable pub display : StackTrace F → List (List (Part F))
  display none = (piece (text "Empty stack trace") ∷ []) ∷ []
  display (some traces) =
      (piece (text "Stack Trace (")
        ∷ piece (number (length traces))
        ∷ piece (text " entries):")
        ∷ [])
      ∷ entry_lines 1 traces

  entry_lines-append :
      (index : ℕ) (traces : List (TraceImpl F)) (trace : TraceImpl F)
      → entry_lines index (traces ++ (trace ∷ []))
        ≡ entry_lines index traces ++ (entry_line (length traces + index) trace ∷ [])
  unfolding entry_lines
  entry_lines-append index [] trace = ap (λ (n : ℕ). entry_line n trace ∷ []) (omega arith)
  entry_lines-append index (t ∷ traces) trace =
      ap (λ (ls : List (List (Part F))). entry_line index t ∷ ls)
        (entry_lines-append (index + 1) traces trace
          ∙ ap (λ (n : ℕ). entry_lines (index + 1) traces ++ (entry_line n trace ∷ []))
              (omega arith))

  -- An entry that is added to a trace is shown as one line more, numbered by its place, behind the
  -- lines of those before it, which are as they were; the header counts it.
  pub display-maybe_add_trace :
      (now : ℕ → ℕ) (point : TracePoint) (message : List (Piece F)) (is_error : Bool)
      (traces : List (TraceImpl F))
      → let entry : TraceImpl F = record {
        trace_point = point;
        time = now (length traces);
        message = message;
        is_error = is_error;
      } in
        display (maybe_add_trace now point message is_error (some traces))
        ≡ (piece (text "Stack Trace (")
            ∷ piece (number (length traces + 1))
            ∷ piece (text " entries):")
            ∷ [])
          ∷ (entry_lines 1 traces ++ (entry_line (length traces + 1) entry ∷ []))
  unfolding display maybe_add_trace
  display-maybe_add_trace now point message is_error traces =
      let entry : TraceImpl F = record {
        trace_point = point;
        time = now (length traces);
        message = message;
        is_error = is_error;
      } in
      λ i.
        (piece (text "Stack Trace (")
          ∷ piece (number (length-append traces (entry ∷ []) i))
          ∷ piece (text " entries):")
          ∷ [])
        ∷ entry_lines-append 1 traces entry i
