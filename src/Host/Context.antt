-- ===== src/Host/Context.antt =====
-- The context through which the Soroban environment reaches the guest's linear memory:
-- `CustomVMCtx` of rs-zephyr-env/src/host/memory.rs. It is mutable when it was made by `new_mut`.
use zephyr_vm.Prelude.{ℕ, Bool, true, false, List, [], length}
use zephyr_vm.Errors.{Result, ok, err, panic, foreign}
use zephyr_vm.Exec.{Exec, pure, lift, abort, modify, unwrapped, map_err, ◌>>=◌, ◌>>◌}
use zephyr_vm.Soroban.{Access, done, read, contents, write, data_mut}
use zephyr_vm.Platform.{Platform}
use zephyr_vm.Host.{Host, Handler}
use zephyr_vm.Host.Memory.{get_memory, memory_manager, with_manager, write_to_memory_mut}

-- `let _ = memory.read(..)`: where the read fails the buffer is as it was.
abbrev pub filled : {F : Type 0} → List ℕ → Result (List ℕ) F → Result (List ℕ) F
filled buf (ok bytes) = ok bytes
filled buf (err e) = ok buf
filled buf panic = panic

module _ {P : Platform} where
  unfoldable pub ctx_write : Bool → ℕ → List ℕ → Exec (Host P) P.Foreign ℕ
  ctx_write true pos slice = unwrapped (write_to_memory_mut pos slice)
  ctx_write false pos slice = abort

  -- The slice that `data_mut` gives, after it was rewritten; an empty one where the context is not
  -- mutable.
  unfoldable pub ctx_data_mut : Bool → (List ℕ → List ℕ) → Exec (Host P) P.Foreign (List ℕ)
  ctx_data_mut true rewrite = do
    manager ← unwrapped memory_manager
    modify (
        with_manager
          (record manager { memory = P.replace manager.memory (rewrite (P.bytes manager.memory)) }))
    pure (P.bytes manager.memory)
  ctx_data_mut false rewrite = pure []

  -- What the environment asks, answered on the host.
  unfoldable pub run_context : {A : Type 0} → Bool → Access A → Exec (Host P) P.Foreign A
  unfolding ctx_write ctx_data_mut
  run_context mutable (done a) = pure a
  run_context mutable (read mem_pos buf next) = do
    memory ← unwrapped get_memory
    bytes ← lift (filled buf (P.read memory mem_pos (length buf)))
    run_context mutable (next bytes)
  run_context mutable (contents next) = do
    memory ← unwrapped get_memory
    run_context mutable (next (P.bytes memory))
  run_context mutable (write pos slice next) = do
    end ← ctx_write mutable pos slice
    run_context mutable (next end)
  run_context mutable (data_mut rewrite next) = do
    slice ← ctx_data_mut mutable rewrite
    run_context mutable (next slice)

  -- An operation of the Soroban host that is embedded in this one.
  unfoldable pub on_soroban :
      {A : Type 0} → Exec P.soroban.Soroban P.Foreign A → Exec (Host P) P.Foreign A
  on_soroban m h = let (r, soroban) = m h.soroban in (r, record h { soroban = soroban })

  unfoldable pub settled :
      {A : Type 0} → Result A P.Foreign × P.soroban.Soroban → Exec (Host P) P.Foreign A
  settled (r, soroban) h = (r, record h { soroban = soroban })

  -- An operation that uses the context.
  unfoldable pub with_context :
      {A : Type 0}
      → Bool
      → (P.soroban.Soroban → Access (Result A P.Foreign × P.soroban.Soroban))
      → Exec (Host P) P.Foreign A
  unfolding settled
  with_context mutable f h = (run_context mutable (f h.soroban) >>= settled) h

  -- The errors of the environment, at a `?`.
  unfoldable pub foreign_errors : {A : Type 0} → Exec (Host P) P.Foreign A → Handler P A
  foreign_errors m h = let (r, h') = m h in (map_err foreign r, h')
