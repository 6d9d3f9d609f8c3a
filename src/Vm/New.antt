-- ===== src/Vm/New.antt =====
-- The three ways to make a VM: `new_from_initialized_module`, `new_only_instance` and `new` of
-- rs-zephyr-env/src/vm.rs.
pub mod Foreign
use zephyr_vm.Prelude.{ℕ, ◌*◌, ⊤, Bool, true, Option, none, some, String, List}
use zephyr_vm.Errors.{
  Result, ok, err, panic, Error, host, foreign, internal_error, wasmi_config, no_memory_export,
}
use zephyr_vm.Exec.{Exec, pure, lift, gets, ok_or, map_err, ◌>>=◌, ◌>>◌}
use zephyr_vm.Budget.{infer_fuel}
use zephyr_vm.Platform.{Platform}
use zephyr_vm.Host.{Host, MemoryManager}
use zephyr_vm.Vm.{Extern, into_memory}
use zephyr_vm.Vm.Linker.{Closure, Linking, linked}

abbrev min_value_stack_height : ℕ
min_value_stack_height = 1024

abbrev max_value_stack_height : ℕ
max_value_stack_height = 2 * 1024 * min_value_stack_height

abbrev max_recursion_depth : ℕ
max_recursion_depth = 1024

pub data CompilationMode : Type 0 where
  eager lazy : CompilationMode

pub record Config (StackLimits : Type 0) : Type 0 where
  pub consume_fuel : Bool
  pub stack_limits : StackLimits
  pub compilation_mode : CompilationMode

-- wasmi: an engine of a configuration, a store that holds the host and the fuel, and the steps from
-- code to a started instance. Every new store has an identity of its own, a number, and an export of
-- an instance is asked for in a store, which is a panic in a store that is not the instance's.
pub record Wasmi (P : Platform) : Type 1 where
  pub StackLimits : Type 0
  pub Engine : Type 0
  pub Module : Type 0
  pub Store : Type 0
  pub Pre : Type 0
  pub Instance : Type 0
  pub Func : Type 0
  pub linking : Linking (Closure P)
  pub stack_limits : ℕ → ℕ → ℕ → Option StackLimits
  pub engine : Config StackLimits → Engine
  pub store : ℕ → Engine → Host P → Store
  pub set_fuel : ℕ → Exec Store P.Foreign ⊤
  pub module_unchecked : Engine → List ℕ → Result Module P.Foreign
  pub instantiate : linking.Linker → Module → Exec Store P.Foreign Pre
  pub start : Pre → Exec Store P.Foreign Instance
  pub get_export : Instance → String → Store → Result (Option (Extern Func P.Memory)) P.Foreign

module _ {P : Platform} (w : Wasmi P) where
  -- The VM, with its store.
  pub record Started : Type 0 where
    pub store : w.Store
    pub memory_manager : MemoryManager P
    pub instance_of : w.Instance

  -- The engine of a compilation mode.
  unfoldable pub engine_of : CompilationMode → Result w.Engine (Error P.Foreign)
  engine_of mode =
      elim (w.stack_limits min_value_stack_height max_value_stack_height max_recursion_depth) [
        | none ↦ err (host (internal_error wasmi_config))
        | some stack_limits ↦ ok (
            w.engine (record {
              consume_fuel = true;
              stack_limits = stack_limits;
              compilation_mode = mode;
            }))
      ]

  -- An operation on the store, with wasmi's error at the `?`.
  unfoldable pub on_store :
      {A : Type 0} → Exec w.Store P.Foreign A → Exec w.Store (Error P.Foreign) A
  on_store m store = let (r, store') = m store in (map_err foreign r, store')

  unfoldable pub fuelled : Host P → Exec w.Store (Error P.Foreign) ⊤
  fuelled h = on_store (infer_fuel h.budget w.set_fuel)

  unfoldable pub exported_memory : w.Instance → Exec w.Store (Error P.Foreign) P.Memory
  exported_memory instance_of = do
    ext ← on_store λ store. (w.get_export instance_of "memory" store, store)
    found ← ok_or ext (host no_memory_export)
    ok_or (into_memory found) (host no_memory_export)

  -- The memory that the instance exports, with nothing written to it yet.
  unfoldable pub managed : w.Instance → Exec w.Store (Error P.Foreign) Started
  unfolding exported_memory
  managed instance_of = do
    memory ← exported_memory instance_of
    store ← gets (λ s. s)
    pure (record {
      store = store;
      memory_manager = record { memory = memory; offset = 0 };
      instance_of = instance_of;
    })

  -- What follows an engine, on a new store of the host, under this identity.
  unfoldable pub in_store :
      {A : Type 0}
      → ℕ
      → Host P
      → Result w.Engine (Error P.Foreign)
      → (w.Engine → Exec w.Store (Error P.Foreign) A)
      → Result A (Error P.Foreign)
  in_store id h (ok engine) run = (run engine (w.store id engine h)).0
  in_store id h (err e) run = err e
  in_store id h panic run = panic

  -- The instance was made before, in a store of its own; no function of this linker is given to it.
  unfoldable pub new_from_initialized_module :
      ℕ → Host P → w.Instance → Result Started (Error P.Foreign)
  new_from_initialized_module id h instance_of =
      in_store id h (engine_of eager) λ engine. fuelled h >> managed instance_of

  -- The module is read, the fuel is set, the host's functions are linked, and the instance started.
  -- The store goes out of scope with the call.
  unfoldable pub new_only_instance : ℕ → Host P → List ℕ → Result w.Instance (Error P.Foreign)
  new_only_instance id h wasm_module_code_bytes = in_store id h (engine_of lazy) λ engine. do
    module_of ← lift (map_err foreign (w.module_unchecked engine wasm_module_code_bytes))
    fuelled h
    pre ← on_store (w.instantiate (linked w.linking) module_of)
    on_store (w.start pre)

  -- The same steps, in the store that the VM keeps, and the memory of the instance.
  unfoldable pub new : ℕ → Host P → List ℕ → Result Started (Error P.Foreign)
  new id h wasm_module_code_bytes = in_store id h (engine_of lazy) λ engine. do
    module_of ← lift (map_err foreign (w.module_unchecked engine wasm_module_code_bytes))
    fuelled h
    pre ← on_store (w.instantiate (linked w.linking) module_of)
    instance_of ← on_store (w.start pre)
    managed instance_of
