-- ===== src/Stack.antt =====
-- The host's pseudo stack: rs-zephyr-env/src/stack.rs. The guest pushes instructions; the host
-- reads them in the order of the pushes, by a cursor. A number is the bit pattern of an `i64`.
pub mod Reads
use zephyr_vm.Prelude.{ℕ, ◌+◌, Option, none, some, List, [], ◌∷◌, ◌++◌, get_elem?}
use zephyr_vm.Errors.{Result, ok, err, HostError, no_val_on_stack}

pub record StackImpl : Type 0 where
  pub inner : List ℕ
  pub step : ℕ

-- `zephyr_standard` of the stack
abbrev pub empty : StackImpl
empty = record { inner = []; step = 0 }

unfoldable pub push : ℕ → StackImpl → StackImpl
push val s = record s { inner = s.inner ++ (val ∷ []) }

unfoldable pub clear : StackImpl → StackImpl
clear s = record s { inner = []; step = 0 }

pub load : StackImpl → List ℕ
load s = s.inner

-- The value at a place, or the error of `ok_or`.
abbrev or_no_val : {F : Type 0} → Option ℕ → Result ℕ (HostError F)
or_no_val none = err no_val_on_stack
or_no_val (some v) = ok v

-- The cursor moves whether or not a value is there.
unfoldable pub get_with_step : {F : Type 0} → StackImpl → Result ℕ (HostError F) × StackImpl
get_with_step s = (or_no_val (get_elem? s.inner s.step), record s { step = s.step + 1 })

pub get_current_step : StackImpl → ℕ
get_current_step s = s.step
