-- ===== src/Host/Functions/Views.antt =====
-- The functions that make Soroban objects of linear memory do not write to it.
use zephyr_vm.Prelude.{ℕ, Bool, false, ◌≡◌, refl, ◌∙◌, String, List, []}
use zephyr_vm.Errors.{Result}
use zephyr_vm.Exec.{Exec}
use zephyr_vm.Trace.{TracePoint, Piece}
use zephyr_vm.Soroban.{Access, done, read, contents, write, data_mut}
use zephyr_vm.Platform.{Platform}
use zephyr_vm.Host.{Host}
use zephyr_vm.Host.State.{trace}
use zephyr_vm.Host.Memory.{get_memory}
use zephyr_vm.Host.Context.{ctx_write, ctx_data_mut, run_context, on_soroban, settled, with_context}
use zephyr_vm.Host.Functions.Soroban
use zephyr_vm.Host.Functions.Soroban.{payload_or_zero}
use zephyr_vm.Host.Functions.Calls.{Call, dispatch}
use zephyr_vm.Host.Functions.Kept.{
  Order, Along, Along-bind, Along-handled, Along-lift, Along-gets, Along-pure, Along-unwrapped,
  Along-caught, Along-foreign_errors,
}

module _ {P : Platform} where
  -- The VM, with its memory.
  abbrev SameContext : Host P → Host P → Type 0
  SameContext h h' = h'.context ≡ h.context

  Views : Order SameContext
  Views = record { same = λ h. refl; then = λ h h' h'' p q. q ∙ p }

  Views-trace :
      (point : TracePoint) (message : List (Piece P.Foreign)) (e : Bool)
      → Along Views (trace point message e)
  unfolding trace
  Views-trace point message e = record { at = λ h. refl }

  Views-on_soroban :
      {A : Type 0} (m : Exec P.soroban.Soroban P.Foreign A) → Along Views (on_soroban {P = P} m)
  unfolding on_soroban
  Views-on_soroban m = record { at = λ h. refl }

  Views-get_memory : Along Views (get_memory {P = P})
  unfolding get_memory
  Views-get_memory = record { at = λ h. refl }

  -- A context that is not mutable.
  Views-run_context :
      {A : Type 0} (access : Access A) → Along Views (run_context {P = P} false access)
  unfolding run_context ctx_write ctx_data_mut
  Views-run_context (done a) = Along-pure Views a
  Views-run_context (read mem_pos buf next) =
      Along-bind Views _ _ (Along-unwrapped Views _ Views-get_memory)
        λ memory. Along-bind Views _ _ (Along-lift Views _) λ bytes. Views-run_context (next bytes)
  Views-run_context (contents next) =
      Along-bind Views _ _ (Along-unwrapped Views _ Views-get_memory)
        λ memory. Views-run_context (next _)
  Views-run_context (write pos slice next) =
      Along-bind Views _ _ (record { at = λ h. refl }) λ end. Views-run_context (next end)
  Views-run_context (data_mut rewrite next) =
      Along-bind Views _ _ (Along-pure Views []) λ slice. Views-run_context (next slice)

  Views-settled :
      {A : Type 0} (r : Result A P.Foreign × P.soroban.Soroban) → Along Views (settled {P = P} r)
  unfolding settled
  Views-settled r = record { at = λ h. refl }

  Views-with_context :
      {A : Type 0} (f : P.soroban.Soroban → Access (Result A P.Foreign × P.soroban.Soroban))
      → Along Views (with_context {P = P} false f)
  unfolding with_context
  Views-with_context f = record {
    at = λ h. (Along-bind Views _ _ (Views-run_context (f h.soroban)) λ r. Views-settled r).at h;
  }

ruleset view_rules = (
  Along-bind, Along-lift, Along-gets, Along-pure, Along-unwrapped, Along-caught,
  Along-foreign_errors, Views-trace, Views-on_soroban, Views-with_context,
)

module _ {P : Platform} where
  Views-payload_or_zero :
      (message : String) (effect : Exec (Host P) P.Foreign ℕ)
      → Along Views effect
      → Along Views (payload_or_zero message effect)
  unfolding payload_or_zero
  Views-payload_or_zero message effect q =
      Along-handled Views _ _ _ (Along-foreign_errors Views _ q) (λ val. Along-pure Views _)
        λ e. search view_rules

-- The calls that make an object, or look for a symbol.
pub data Viewing : Call → Type 0 where
  string_view : (pos len : ℕ) → Viewing (Call.string_from_linmem pos len)
  symbol_view : (pos len : ℕ) → Viewing (Call.symbol_from_linmem pos len)
  symbol_index_view : (sym pos len : ℕ) → Viewing (Call.symbol_index_from_linmem sym pos len)
  vec_view : (pos len : ℕ) → Viewing (Call.vec_new_from_linear_memory_mem pos len)
  map_view : (keys vals len : ℕ) → Viewing (Call.map_new_from_linear_memory_mem keys vals len)
  bytes_view : (pos len : ℕ) → Viewing (Call.bytes_new_from_linear_memory_mem pos len)

ruleset view_functions = (view_rules, Views-payload_or_zero)

module _ {P : Platform} where
  Views-dispatch : (c : Call) → Viewing c → Along Views (dispatch {P = P} c)
  unfolding dispatch Soroban.string_from_linmem Soroban.symbol_from_linmem
      Soroban.symbol_index_from_linmem Soroban.vec_new_from_linear_memory_mem
      Soroban.map_new_from_linear_memory_mem Soroban.bytes_new_from_linear_memory_mem
  Views-dispatch c (string_view pos len) = search view_functions depth 30
  Views-dispatch c (symbol_view pos len) = search view_functions depth 30
  Views-dispatch c (symbol_index_view sym pos len) = search view_functions depth 30
  Views-dispatch c (vec_view pos len) = search view_functions depth 30
  Views-dispatch c (map_view keys vals len) = search view_functions depth 30
  Views-dispatch c (bytes_view pos len) = search view_functions depth 30

  -- Whatever the Soroban environment does with the context that it is given, a call that makes a
  -- string, a symbol, a vector, a map or bytes of linear memory, or that looks for a symbol in it,
  -- leaves the VM's memory and the offset of its manager as they were, on every outcome.
  pub dispatch-views : (c : Call) (h : Host P) → Viewing c → (dispatch c h).1.context ≡ h.context
  dispatch-views c h v = (Views-dispatch c v).at h
