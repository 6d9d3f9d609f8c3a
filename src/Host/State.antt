-- ===== src/Host/State.antt =====
-- The operations of the host on its own fields: rs-zephyr-env/src/host.rs and vm_context.rs.
pub mod Once
use zephyr_vm.Prelude.{ℕ, ⊤, Bool, false, Option, none, some, List, [], ◌∷◌, if◌then◌else◌}
use zephyr_vm.Errors.{
  Result, ok, err, Error, host, context_already_exists, ledger_close_meta_overridden,
}
use zephyr_vm.Exec.{gets, raise, modify, lift, map_err, ◌>>=◌, ◌>>◌}
use zephyr_vm.Stack
use zephyr_vm.Stack.{get_with_step}
use zephyr_vm.Trace
use zephyr_vm.Trace.{TracePoint, Piece, text, maybe_add_trace, zephyr_environment}
use zephyr_vm.Platform.{Platform}
use zephyr_vm.Host.{Host, Handler, Vm, Weak, VmContext}

module _ {P : Platform} where
  -- `stack_trace.borrow_mut().maybe_add_trace(point, message, is_error)`
  unfoldable pub trace : TracePoint → List (Piece P.Foreign) → Bool → Handler P ⊤
  trace point message is_error h =
      (ok tt, record h { stack_trace = maybe_add_trace P.now point message is_error h.stack_trace })

  unfoldable pub set_stack_trace : Bool → Host P → Host P
  set_stack_trace active h = record h {
    stack_trace = if active then Trace.enable h.stack_trace else Trace.disable h.stack_trace;
  }

  unfoldable pub add_transmitter : P.Sender → Host P → Host P
  add_transmitter transmitter h = record h { transmitter = some transmitter }

  unfoldable pub get_host_id : Host P → ℕ
  get_host_id h = h.id

  -- The next instruction of the pseudo stack: `get_with_step()?`.
  unfoldable pub next_value : Handler P ℕ
  next_value h =
      let (r, s) = get_with_step {F = P.Foreign} h.stack in (map_err host r, record h { stack = s })

  unfoldable pub stack_push : ℕ → Handler P ⊤
  stack_push param h = (ok tt, record h { stack = Stack.push param h.stack })

  unfoldable pub stack_clear : Handler P ⊤
  stack_clear h = (ok tt, record h { stack = Stack.clear h.stack })

  overridden : Option (List ℕ) → List ℕ → Handler P ⊤
  overridden (some current) meta = raise (host ledger_close_meta_overridden)
  overridden none meta = modify λ h. record h { latest_close = some meta }

  pub add_ledger_close_meta : List ℕ → Handler P ⊤
  unfolding overridden trace
  add_ledger_close_meta ledger_close_meta = do
    trace zephyr_environment (text "Adding ledger close meta to ZVM." ∷ []) false
    current ← gets (λ h. h.latest_close)
    overridden current ledger_close_meta

  -- `VmContext::load_vm`
  load_vm : Weak (Vm P) → VmContext P → Result (VmContext P) (Error P.Foreign)
  load_vm vm c = elim c.vm [
    | some _ ↦ err (host context_already_exists)
    | none ↦ ok (record { vm = some vm })
  ]

  pub load_context : Weak (Vm P) → Handler P ⊤
  unfolding load_vm trace
  load_context vm = do
    trace zephyr_environment (text "Loading ZVM context to the host." ∷ []) false
    context ← gets (λ h. h.context)
    loaded ← lift (load_vm vm context)
    modify λ h. record h { context = loaded }

  pub read_result : Host P → List ℕ
  read_result h = h.result
