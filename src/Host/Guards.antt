-- ===== src/Host/Guards.antt =====
-- What the permissions of the database rule out.
use zephyr_vm.Prelude.{ℕ, ⊤, ◌≡◌, refl, ap, ◌∙◌, Option, none, some, List}
use zephyr_vm.Errors.{Result, ok, err, panic, Error}
use zephyr_vm.Exec.{gets, lift, continue, ◌>>=◌}
use zephyr_vm.Database.{DatabaseImpl, WhereCond, DatabasePermissions, read_only}
use zephyr_vm.Platform.{Platform}
use zephyr_vm.Host.{Host, Handler}
use zephyr_vm.Host.Quiet.{whole, Touches, Quiet, Quiet-trans, quiet_rules, Quiet-trace, Quiet-lift}
use zephyr_vm.Host.Database.{check_writable}
use zephyr_vm.Host.Write.{write_instructions, write_database_raw}
use zephyr_vm.Host.Update.{update_instructions, update_database_raw}
use zephyr_vm.Host.Read.{
  optional_conditions, optional_args, aggregated, read_instructions, read_database_raw,
}

abbrev pub Fails : {A E : Type 0} → Result A E → Type 0
Fails (ok a) = ⊥
Fails (err e) = ⊤
Fails panic = ⊤

module _ {P : Platform} where
  -- Under the permission `p`, `m` fails and has changed the stack and the trace alone.
  pub record Barred {A : Type 0} (p : DatabasePermissions) (m : Handler P A) : Type 0 where
    pub at : (h : Host P) → h.database.permissions ≡ p → Touches whole h (m h).1 × Fails (m h).0

  continue-Barred :
      {A B : Type 0} (p : DatabasePermissions) (f : A → Handler P B)
      (r : Result A (Error P.Foreign)) (h h' : Host P)
      → ((a : A) → Barred p (f a))
      → h.database.permissions ≡ p
      → Touches whole h h'
      → Touches whole h (continue r f h').1 × Fails (continue r f h').0
  continue-Barred p f (ok a) h h' q e v =
      let kept : h'.database.permissions ≡ p =
        ap (λ (g : Host P). g.database.permissions) v.2 ∙ e in
      let (w, fails) = (q a).at h' kept in (Quiet-trans whole h h' _ v w, fails)
  continue-Barred p f (err e) h h' q k v = (v, tt)
  continue-Barred p f panic h h' q k v = (v, tt)

  pub Barred-bind :
      {A B : Type 0} (p : DatabasePermissions) (m : Handler P A) (f : A → Handler P B)
      → Quiet whole m
      → ((a : A) → Barred p (f a))
      → Barred p (m >>= f)
  unfolding ◌>>=◌
  Barred-bind p m f qm qf = record {
    at = λ h e. continue-Barred p f (m h).0 h (m h).1 qf e (qm.at h);
  }

  Barred-check :
      {A : Type 0} (d : DatabasePermissions) (k : ⊤ → Handler P A) (h : Host P)
      → d ≡ read_only
      → Touches whole h ((lift (check_writable d) >>= k) h).1
        × Fails ((lift (check_writable d) >>= k) h).0
  unfolding ◌>>=◌ check_writable
  Barred-check d k h e = rw e ((h.stack, h.stack_trace, refl, tt), tt)

  -- The guard of a write and of an update.
  Barred-writable :
      {A : Type 0} (k : DatabaseImpl P.database.Db → ⊤ → Handler P A)
      → Barred read_only
          (gets (λ h. h.database) >>= λ d. lift (check_writable d.permissions) >>= k d)
  unfolding ◌>>=◌
  Barred-writable k = record { at = λ h e. Barred-check h.database.permissions (k h.database) h e }

  pub Quiet-write_instructions : Quiet whole (write_instructions {P = P})
  unfolding write_instructions
  Quiet-write_instructions = search quiet_rules depth 30

  pub Quiet-update_instructions : Quiet whole (update_instructions {P = P})
  unfolding update_instructions
  Quiet-update_instructions = search quiet_rules depth 40

  Quiet-optional_conditions : (o : Option ℕ) → Quiet whole (optional_conditions {P = P} o)
  unfolding optional_conditions
  Quiet-optional_conditions none = search quiet_rules depth 9
  Quiet-optional_conditions (some n) = search quiet_rules depth 9

  Quiet-optional_args : (o : Option (List WhereCond)) → Quiet whole (optional_args {P = P} o)
  unfolding optional_args
  Quiet-optional_args none = search quiet_rules depth 9
  Quiet-optional_args (some ws) = search quiet_rules depth 9

  Quiet-aggregated : (o : Option (List (ℕ × ℕ))) → Quiet whole (aggregated {P = P} o)
  unfolding aggregated
  Quiet-aggregated none = search quiet_rules depth 9
  Quiet-aggregated (some ps) = search quiet_rules depth 9

  Quiet-read_instructions : (id : ℕ) → Quiet whole (read_instructions {P = P} id)
  unfolding read_instructions
  Quiet-read_instructions id =
      search (quiet_rules, Quiet-optional_conditions, Quiet-optional_args) depth 30

  pub read_database_raw-Quiet : (id : ℕ) → Quiet whole (read_database_raw {P = P} id)
  unfolding read_database_raw
  read_database_raw-Quiet id =
      search (quiet_rules, Quiet-read_instructions, Quiet-aggregated) depth 30

  pub write_database_raw-Barred : Barred read_only (write_database_raw {P = P})
  unfolding write_database_raw
  write_database_raw-Barred = Barred-bind read_only _ _ Quiet-write_instructions λ i.
      Barred-bind read_only _ _ (Quiet-trace whole _ _ _)
        λ _. Barred-bind read_only _ _ (Quiet-lift whole _) λ written. Barred-writable _

  pub update_database_raw-Barred : Barred read_only (update_database_raw {P = P})
  unfolding update_database_raw
  update_database_raw-Barred = Barred-bind read_only _ _ Quiet-update_instructions λ i.
      Barred-bind read_only _ _ (Quiet-trace whole _ _ _) λ _.
        Barred-bind read_only _ _ (Quiet-lift whole _) λ written.
          Barred-bind read_only _ _ (Quiet-trace whole _ _ _)
            λ _. Barred-bind read_only _ _ (Quiet-lift whole _) λ args. Barred-writable _

module _ {P : Platform} where
  -- A read of the database changes nothing but the stack and the trace, however it ends.
  pub read_database_raw-Touches : (id : ℕ) (h : Host P) → Touches whole h (read_database_raw id h).1
  read_database_raw-Touches id h = (read_database_raw-Quiet id).at h

  -- With a read-only database a write fails, whatever is on the stack and in memory, and the
  -- stack and the trace are all that it has changed.
  pub write_database_raw-read_only :
      (h : Host P)
      → h.database.permissions ≡ read_only
      → Touches whole h (write_database_raw h).1 × Fails (write_database_raw h).0
  write_database_raw-read_only h e = write_database_raw-Barred.at h e

  -- With a read-only database an update fails, whatever is on the stack and in memory, and the
  -- stack and the trace are all that it has changed.
  pub update_database_raw-read_only :
      (h : Host P)
      → h.database.permissions ≡ read_only
      → Touches whole h (update_database_raw h).1 × Fails (update_database_raw h).0
  update_database_raw-read_only h e = update_database_raw-Barred.at h e
