-- ===== src/Trace.antt =====
-- The execution trace: rs-zephyr-env/src/trace.rs. A message is kept as the pieces of its format
-- string, before they are rendered to text.
pub mod Display
use zephyr_vm.Prelude.{ℕ, Bool, Option, none, some, String, List, [], ◌∷◌, ◌++◌, length}
use zephyr_vm.Errors.{Error}

pub data TracePoint : Type 0 where
  soroban_environment zephyr_environment database_impl ledger_impl : TracePoint

pub data Piece (F : Type 0) : Type 0 where
  text : String → Piece F
  number : ℕ → Piece F
  numbers : List ℕ → Piece F
  problem : Error F → Piece F
  -- the debugging text of a value of a library
  library_value : Piece F

pub record TraceImpl (F : Type 0) : Type 0 where
  pub trace_point : TracePoint
  pub time : ℕ
  pub message : List (Piece F)
  pub is_error : Bool

-- `none` when tracing is off.
abbrev pub StackTrace : Type 0 → Type 0
StackTrace F = Option (List (TraceImpl F))

-- `now n` is what the clock, in milliseconds after the epoch, says at the entry number `n`.
unfoldable pub maybe_add_trace :
    {F : Type 0} → (ℕ → ℕ) → TracePoint → List (Piece F) → Bool → StackTrace F → StackTrace F
maybe_add_trace now point message is_error none = none
maybe_add_trace now point message is_error (some traces) = some (
    traces
    ++ (record {
      trace_point = point;
      time = now (length traces);
      message = message;
      is_error = is_error;
    }
        ∷ []))

pub enable : {F : Type 0} → StackTrace F → StackTrace F
enable t = some []

pub disable : {F : Type 0} → StackTrace F → StackTrace F
disable t = none
