-- ===== src/Host/Stale.antt =====
-- What a database call that fails early leaves on the pseudo stack.
use zephyr_vm.Prelude.{◌≡◌, ap, ◌∙◌}
use zephyr_vm.Errors.{Result, ok, err, panic, Error}
use zephyr_vm.Exec.{continue, pure, ◌>>=◌, ◌>>◌}
use zephyr_vm.Platform.{Platform}
use zephyr_vm.Host.{Host, Handler}
use zephyr_vm.Host.State.{stack_clear}
use zephyr_vm.Host.Quiet.{Quiet, cursor, quiet_rules}
use zephyr_vm.Host.Guards.{Fails}
use zephyr_vm.Host.Update.{update_instructions}
use zephyr_vm.Host.Write.{write_instructions}

module _ {P : Platform} where
  -- A failure of `m` leaves the values of the stack.
  pub record Leaves {A : Type 0} (m : Handler P A) : Type 0 where
    pub at : (h : Host P) → Fails (m h).0 → (m h).1.stack.inner ≡ h.stack.inner

  continue-Leaves :
      {A B : Type 0} (r : Result A (Error P.Foreign)) (f : A → Handler P B) (h h' : Host P)
      → ((a : A) → Leaves (f a))
      → h'.stack.inner ≡ h.stack.inner
      → Fails (continue r f h').0
      → (continue r f h').1.stack.inner ≡ h.stack.inner
  continue-Leaves (ok a) f h h' q e fails = (q a).at h' fails ∙ e
  continue-Leaves (err _) f h h' q e fails = e
  continue-Leaves panic f h h' q e fails = e

  Leaves-bind :
      {A B : Type 0} (m : Handler P A) (f : A → Handler P B)
      → Quiet cursor m
      → ((a : A) → Leaves (f a))
      → Leaves (m >>= f)
  unfolding ◌>>=◌
  Leaves-bind m f qm qf = record {
    at = λ h fails.
        let (s, t, touched, kept) = qm.at h in
        continue-Leaves (m h).0 f h (m h).1 qf (ap (λ (k : Host P). k.stack.inner) touched ∙ kept)
          fails;
  }

  -- Clearing the stack cannot fail.
  Leaves-clear : {A : Type 0} (a : A) → Leaves (stack_clear >> pure a)
  unfolding ◌>>=◌ stack_clear
  Leaves-clear a = record { at = λ h fails. absurd fails }

ruleset leaves_rules = (Leaves-bind, Leaves-clear, quiet_rules)

module _ {P : Platform} where
  Leaves-write_instructions : Leaves (write_instructions {P = P})
  unfolding write_instructions
  Leaves-write_instructions = search leaves_rules depth 30

  -- When the instructions of a write cannot be read in full, every value the guest has pushed is
  -- still on the stack.
  pub write_instructions-leaves :
      (h : Host P)
      → Fails (write_instructions h).0
      → (write_instructions h).1.stack.inner ≡ h.stack.inner
  write_instructions-leaves h fails = Leaves-write_instructions.at h fails

module _ {P : Platform} where
  Leaves-update_instructions : Leaves (update_instructions {P = P})
  unfolding update_instructions
  Leaves-update_instructions = search leaves_rules depth 40

  -- When the instructions of an update cannot be read in full, every value the guest has pushed is
  -- still on the stack.
  pub update_instructions-leaves :
      (h : Host P)
      → Fails (update_instructions h).0
      → (update_instructions h).1.stack.inner ≡ h.stack.inner
  update_instructions-leaves h fails = Leaves-update_instructions.at h fails
