-- ===== src/Host/State/Once.antt =====
-- The fields of the host that are set once: rs-zephyr-env/src/host.rs and vm_context.rs.
use zephyr_vm.Prelude.{ℕ, ◌≡◌, refl, none, some, List}
use zephyr_vm.Errors.{ok, err, host, context_already_exists, ledger_close_meta_overridden}
use zephyr_vm.Exec.{◌>>=◌}
use zephyr_vm.Trace.{StackTrace}
use zephyr_vm.Platform.{Platform}
use zephyr_vm.Host.{Host, Vm, Weak}
use zephyr_vm.Host.State.{trace, overridden, add_ledger_close_meta, load_vm, load_context}

module _ {P : Platform} where
  -- On a host without a ledger close meta the first one is stored; a second one is refused, and the
  -- first stays.
  pub add_ledger_close_meta-once :
      (first second : List ℕ) (h : Host P)
      → h.latest_close ≡ none
      → let after = add_ledger_close_meta first h in
        let again = add_ledger_close_meta second after.1 in
        (after.0 ≡ ok tt)
        × (after.1.latest_close ≡ some first)
        × (again.0 ≡ err (host ledger_close_meta_overridden))
        × (again.1.latest_close ≡ some first)
  unfolding add_ledger_close_meta overridden trace ◌>>=◌
  add_ledger_close_meta-once first second h e = rw e (refl, refl, refl, refl)

  -- On a host without a VM the first one is loaded; a second one is refused, and the first stays.
  pub load_context-once :
      (first second : Weak (Vm P)) (h : Host P)
      → h.context.vm ≡ none
      → let after = load_context first h in
        let again = load_context second after.1 in
        (after.0 ≡ ok tt)
        × (after.1.context.vm ≡ some first)
        × (again.0 ≡ err (host context_already_exists))
        × (again.1.context.vm ≡ some first)
  unfolding load_context load_vm trace ◌>>=◌
  load_context-once first second h e = rw e (refl, refl, refl, refl)

  -- What the first of each leaves: its field, and a longer trace.
  pub load_context-fresh :
      (vm : Weak (Vm P)) (h : Host P)
      → h.context.vm ≡ none
      → (t : StackTrace P.Foreign) × (load_context vm h
          ≡ (ok tt, record h { stack_trace = t; context = record { vm = some vm } }))
  unfolding load_context load_vm trace ◌>>=◌
  load_context-fresh vm h e = ((load_context vm h).1.stack_trace, rw e refl)

  pub add_ledger_close_meta-fresh :
      (meta : List ℕ) (h : Host P)
      → h.latest_close ≡ none
      → (t : StackTrace P.Foreign) × (add_ledger_close_meta meta h
          ≡ (ok tt, record h { stack_trace = t; latest_close = some meta }))
  unfolding add_ledger_close_meta overridden trace ◌>>=◌
  add_ledger_close_meta-fresh meta h e = ((add_ledger_close_meta meta h).1.stack_trace, rw e refl)
