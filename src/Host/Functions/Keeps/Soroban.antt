-- ===== src/Host/Functions/Keeps/Soroban.antt =====
-- The functions that use the embedded Soroban host keep it too: that host, the guest's memory and
-- the trace are all they change.
use zephyr_vm.Prelude.{ℕ, Bool, true, false, refl, String, List}
use zephyr_vm.Errors.{Result}
use zephyr_vm.Exec.{Exec, abort}
use zephyr_vm.Soroban.{Access, done, read, contents, write, data_mut}
use zephyr_vm.Platform.{Platform}
use zephyr_vm.Host.{Host}
use zephyr_vm.Host.Memory.{get_memory, write_to_memory_mut}
use zephyr_vm.Host.Quiet.{whole, Quiet-get_memory}
use zephyr_vm.Host.Context.{ctx_write, ctx_data_mut, run_context, on_soroban, settled, with_context}
use zephyr_vm.Host.Soroban.{
  scval_to_valid_host_val, scval_of, valid_host_val_to_scval, read_contract_entries_to_env,
  simulate_soroban_transaction,
}
use zephyr_vm.Host.Functions.Soroban.{payload_or_zero}
use zephyr_vm.Host.Functions.Kept.{
  Along-bind, Along-lift, Along-pure, Along-handled, Along-foreign_errors, Along-unwrapped,
  Kept-Order,
}
use zephyr_vm.Host.Functions.Keeps.{Keeps, Keeps-Quiet, kept_calls}

module _ {P : Platform} where
  Keeps-get_memory : Keeps (get_memory {P = P})
  Keeps-get_memory = Keeps-Quiet _ (Quiet-get_memory whole)

  Keeps-abort : {E A : Type 0} → Keeps {P = P} (abort {E = E} {A = A})
  Keeps-abort = record { at = λ h. (refl, λ _. refl) }

  Keeps-write_to_memory_mut :
      (pos : ℕ) (slice : List ℕ) → Keeps (write_to_memory_mut {P = P} pos slice)
  unfolding write_to_memory_mut
  Keeps-write_to_memory_mut pos slice = search (kept_calls, Keeps-get_memory) depth 20

  Keeps-ctx_write :
      (mutable : Bool) (pos : ℕ) (slice : List ℕ) → Keeps (ctx_write {P = P} mutable pos slice)
  unfolding ctx_write
  Keeps-ctx_write true pos slice = search (kept_calls, Keeps-write_to_memory_mut)
  Keeps-ctx_write false pos slice = Keeps-abort

  Keeps-ctx_data_mut :
      (mutable : Bool) (rewrite : List ℕ → List ℕ) → Keeps (ctx_data_mut {P = P} mutable rewrite)
  unfolding ctx_data_mut
  Keeps-ctx_data_mut true rewrite = search kept_calls depth 20
  Keeps-ctx_data_mut false rewrite = search kept_calls

  pub Keeps-run_context :
      {A : Type 0} (mutable : Bool) (access : Access A) → Keeps (run_context {P = P} mutable access)
  unfolding run_context
  Keeps-run_context mutable (done a) = search kept_calls
  Keeps-run_context mutable (read mem_pos buf next) =
      Along-bind Kept-Order _ _ (Along-unwrapped Kept-Order _ Keeps-get_memory) λ memory.
        Along-bind Kept-Order _ _ (Along-lift Kept-Order _)
          λ bytes. Keeps-run_context mutable (next bytes)
  Keeps-run_context mutable (contents next) =
      Along-bind Kept-Order _ _ (Along-unwrapped Kept-Order _ Keeps-get_memory)
        λ memory. Keeps-run_context mutable (next _)
  Keeps-run_context mutable (write pos slice next) =
      Along-bind Kept-Order _ _ (Keeps-ctx_write mutable pos slice)
        λ end. Keeps-run_context mutable (next end)
  Keeps-run_context mutable (data_mut rewrite next) =
      Along-bind Kept-Order _ _ (Keeps-ctx_data_mut mutable rewrite)
        λ slice. Keeps-run_context mutable (next slice)

  Keeps-settled :
      {A : Type 0} (r : Result A P.Foreign × P.soroban.Soroban) → Keeps (settled {P = P} r)
  unfolding settled
  Keeps-settled r = record { at = λ h. (refl, λ _. refl) }

  pub Keeps-on_soroban :
      {A : Type 0} (m : Exec P.soroban.Soroban P.Foreign A) → Keeps (on_soroban {P = P} m)
  unfolding on_soroban
  Keeps-on_soroban m = record { at = λ h. (refl, λ _. refl) }

  pub Keeps-with_context :
      {A : Type 0} (mutable : Bool)
      (f : P.soroban.Soroban → Access (Result A P.Foreign × P.soroban.Soroban))
      → Keeps (with_context {P = P} mutable f)
  unfolding with_context
  Keeps-with_context mutable f = record {
    at = λ h.
        (Along-bind Kept-Order _ _ (Keeps-run_context mutable (f h.soroban))
            λ r. Keeps-settled r).at
          h;
  }

pub ruleset kept_effects = (kept_calls, Keeps-on_soroban, Keeps-with_context)

module _ {P : Platform} where
  pub Keeps-payload_or_zero :
      (message : String) (effect : Exec (Host P) P.Foreign ℕ)
      → Keeps effect
      → Keeps (payload_or_zero message effect)
  unfolding payload_or_zero
  Keeps-payload_or_zero message effect q =
      Along-handled Kept-Order _ _ _ (Along-foreign_errors Kept-Order _ q)
        (λ val. Along-pure Kept-Order _) λ e. search kept_calls

  Keeps-scval_of : (val : ℕ) → Keeps (scval_of {P = P} val)
  unfolding scval_of on_soroban
  Keeps-scval_of val = record { at = λ h. (refl, λ _. refl) }

  pub Keeps-scval_to_valid_host_val :
      (scval : P.ledger.ScVal) → Keeps (scval_to_valid_host_val {P = P} scval)
  unfolding scval_to_valid_host_val
  Keeps-scval_to_valid_host_val scval = search kept_effects depth 20

  pub Keeps-valid_host_val_to_scval : (val : ℕ) → Keeps (valid_host_val_to_scval {P = P} val)
  unfolding valid_host_val_to_scval
  Keeps-valid_host_val_to_scval val = search (kept_effects, Keeps-scval_of) depth 20

  pub Keeps-read_contract_entries_to_env :
      (contract : List ℕ) → Keeps (read_contract_entries_to_env {P = P} contract)
  unfolding read_contract_entries_to_env
  Keeps-read_contract_entries_to_env contract = search kept_effects depth 20

  pub Keeps-simulate_soroban_transaction :
      (source : List ℕ) (offset size : ℕ)
      → Keeps (simulate_soroban_transaction {P = P} source offset size)
  unfolding simulate_soroban_transaction
  Keeps-simulate_soroban_transaction source offset size = search kept_effects depth 40

pub ruleset kept_soroban = (
  kept_effects, Keeps-payload_or_zero, Keeps-scval_to_valid_host_val, Keeps-valid_host_val_to_scval,
  Keeps-read_contract_entries_to_env, Keeps-simulate_soroban_transaction,
)
