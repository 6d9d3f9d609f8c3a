-- ===== src/Harness/Runs.antt =====
-- What an invocation in a test runs: `invoke_vm` of rs-zephyr-env/src/testutils/mod.rs.
use zephyr_vm.Prelude.{ℕ, ◌≡◌, refl, ap, Option, none, some, String, List}
use zephyr_vm.Errors.{ok}
use zephyr_vm.Exec.{map_ok, caught, outcome, unwrapped, ◌>>=◌}
use zephyr_vm.Platform.{Platform}
use zephyr_vm.Host.{Host, alive}
use zephyr_vm.Trace.{StackTrace}
use zephyr_vm.Host.State.{add_transmitter}
use zephyr_vm.Host.State.Once.{load_context-fresh, add_ledger_close_meta-fresh}
use zephyr_vm.Vm.{metered_function_call}
use zephyr_vm.Vm.New.{Started}
use zephyr_vm.Harness.{
  Runtime, TestVm, relayed, made_vm, meta_added, invoked, messages_of, invoke_vm,
}

module _ {P : Platform} (runtime : Runtime P) where
  -- The host that the guest's function finds: it sends to the channel, knows its VM and has the
  -- meta of the test.
  abbrev pub ready_host : TestVm → Started runtime.wasmi → Host P → StackTrace P.Foreign → Host P
  ready_host vm started before t = record before {
    stack_trace = t;
    context = record { vm = some (alive (record { memory_manager = started.memory_manager })) };
    transmitter = some runtime.unbounded_channel;
    latest_close = vm.ledger_close_meta;
  }

  meta_added-fresh :
      (meta : Option (List ℕ)) (h : Host P)
      → h.latest_close ≡ none
      → (t : StackTrace P.Foreign) × (meta_added runtime meta h
          ≡ (ok tt, record h { stack_trace = t; latest_close = meta }))
  unfolding meta_added unwrapped
  meta_added-fresh none h e =
      (h.stack_trace, ap (λ (m : Option (List ℕ)). (ok tt, record h { latest_close = m })) e)
  meta_added-fresh (some meta) h e =
      let (t, e') = add_ledger_close_meta-fresh meta h e in (t, rw e' refl)

  invoked-runs :
      (vm : TestVm) (fname : String) (started : Started runtime.wasmi) (before : Host P)
      → before.context.vm ≡ none
      → before.latest_close ≡ none
      → (t : StackTrace P.Foreign) × (invoked runtime vm fname started before
          ≡ caught
              (metered_function_call (runtime.exports started) fname)
              (ready_host vm started before t))
  unfolding invoked unwrapped add_transmitter ◌>>=◌
  invoked-runs vm fname started before fresh no_meta =
      let (t, e) =
        load_context-fresh (alive (record { memory_manager = started.memory_manager })) before
          fresh in
      let (t', e') =
        meta_added-fresh vm.ledger_close_meta
          (record before {
            stack_trace = t;
            context = record {
              vm = some (alive (record { memory_manager = started.memory_manager }));
            };
            transmitter = some runtime.unbounded_channel;
          })
          no_meta in
      (t', rw (e, e') refl)

  -- Where a VM is made whose host has neither a VM nor a meta yet, an invocation runs the function
  -- of that name on a host that sends to the channel, knows that VM and has the test's meta. A panic
  -- is the error of joining; otherwise both outer results are `ok`, and what the function returned,
  -- an error included, stands inside them with the trace. The relay has what the guest sent, on
  -- every outcome.
  pub invoke_vm-runs :
      (vm : TestVm) (fname : String) (started : Started runtime.wasmi)
      → made_vm runtime vm ≡ ok started
      → (runtime.host_of started).context.vm ≡ none
      → (runtime.host_of started).latest_close ≡ none
      → (t : StackTrace P.Foreign) × (let (r, h) =
            metered_function_call
              (runtime.exports started)
              fname
              (ready_host vm started (runtime.host_of started) t) in
          invoke_vm runtime vm fname ≡ (
            map_ok (λ result. ok (result, h.stack_trace)) (outcome r),
            relayed runtime.client (runtime.outlives h) (messages_of runtime h),
          ))
  unfolding invoke_vm caught
  invoke_vm-runs vm fname started makes fresh no_meta =
      let (t, e) = invoked-runs vm fname started (runtime.host_of started) fresh no_meta in
      (t, rw (invoke_vm, makes, e) refl)
