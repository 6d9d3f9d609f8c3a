-- ===== src/Vm.antt =====
-- The entry points of the virtual machine: `metered_call` and `metered_function_call` of
-- rs-zephyr-env/src/vm.rs. The instantiated module is a parameter.
pub mod Linker
pub mod New
use zephyr_vm.Prelude.{ℕ, ⊤, Option, none, some, String, List}
use zephyr_vm.Errors.{Result, Error, host, foreign, no_entry_point_export, extern_not_a_function}
use zephyr_vm.Exec.{gets, lift, ok_or, pure, map_err, ◌>>=◌, ◌>>◌}
use zephyr_vm.Platform.{Platform}
use zephyr_vm.Host.{Host, Handler, InvokedFunctionInfo, serverless_defaults}
use zephyr_vm.Host.State.{read_result}

-- An export of a WebAssembly instance, as far as the host tells them apart.
pub data Extern (F M : Type 0) : Type 0 where
  func : F → Extern F M
  memory : M → Extern F M
  other : Extern F M

module _ {F M : Type 0} where
  abbrev pub into_func : Extern F M → Option F
  into_func (func f) = some f
  into_func (memory m) = none
  into_func other = none

  abbrev pub into_memory : Extern F M → Option M
  into_memory (func f) = none
  into_memory (memory m) = some m
  into_memory other = none

-- wasmi's instance: its exports by name, and the run of a function at its parameters and the buffer
-- for its results. A run acts on the host, since the store holds it.
pub record Instance (P : Platform) : Type 1 where
  pub Func : Type 0
  pub get_export : String → Option (Extern Func P.Memory)
  pub call : Func → List ℕ → List ℕ → Host P → Result ⊤ P.Foreign × Host P

module _ {P : Platform} (instance_of : Instance P) where
  -- The run of the function, with the error of wasmi at the `?`.
  unfoldable pub run_func : instance_of.Func → List ℕ → List ℕ → Handler P ⊤
  run_func f params retrn h =
      let (r, h') = instance_of.call f params retrn h in (map_err foreign r, h')

  -- What both entry points do with the function that is named.
  unfoldable pub call_export : InvokedFunctionInfo → Handler P ⊤
  call_export info = do
    ext ← ok_or (instance_of.get_export info.fname) (host no_entry_point_export)
    f ← ok_or (into_func ext) (host extern_not_a_function)
    run_func f info.params info.retrn

  unfoldable pub metered_call : Handler P ⊤
  metered_call = do entry_point_info ← gets (λ h. h.entry_point_info); call_export entry_point_info

  -- Returns what the result slot of the host holds.
  unfoldable pub metered_function_call : String → Handler P (List ℕ)
  metered_function_call fname = do call_export (serverless_defaults fname); gets read_result
