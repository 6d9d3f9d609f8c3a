-- ===== src/Host/Functions/Kept.antt =====
-- What no sequence of guest calls changes.
use zephyr_vm.Prelude.{ℕ, ◌≡◌, refl, ap, ◌∙◌, Option, none, some, List}
use zephyr_vm.Errors.{Result, ok, err, panic, Error}
use zephyr_vm.Exec.{Exec, continue, lift, gets, pure, raise, ok_or, unwrapped, caught, ◌>>=◌}
use zephyr_vm.Database.{DatabasePermissions, read_only}
use zephyr_vm.Platform.{Platform}
use zephyr_vm.Host.{Host, Handler}
use zephyr_vm.Host.Context.{foreign_errors}
use zephyr_vm.Host.Functions.{handled, answered_by}

-- A relation between a host and the host that comes of it.
pub record Order {P : Platform} (R : Host P → Host P → Type 0) : Type 0 where
  pub same : (h : Host P) → R h h
  pub then : (h h' h'' : Host P) → R h h' → R h' h'' → R h h''

module _ {P : Platform} {R : Host P → Host P → Type 0} where
  pub record Along (order : Order R) {E A : Type 0} (m : Exec (Host P) E A) : Type 0 where
    pub at : (h : Host P) → R h (m h).1

  module _ (order : Order R) where
    continue-Along :
        {E A B : Type 0} (r : Result A E) (f : A → Exec (Host P) E B) (h h' : Host P)
        → ((a : A) → Along order (f a))
        → R h h'
        → R h (continue r f h').1
    continue-Along (ok a) f h h' q v = order.then h h' _ v ((q a).at h')
    continue-Along (err e) f h h' q v = v
    continue-Along panic f h h' q v = v

    pub Along-bind :
        {E A B : Type 0} (m : Exec (Host P) E A) (f : A → Exec (Host P) E B)
        → Along order m
        → ((a : A) → Along order (f a))
        → Along order (m >>= f)
    unfolding ◌>>=◌
    Along-bind m f qm qf = record { at = λ h. continue-Along (m h).0 f h (m h).1 qf (qm.at h) }

    answered_by-Along :
        {A B : Type 0} (r : Result A (Error P.Foreign)) (good : A → Handler P B)
        (bad : Error P.Foreign → Handler P B) (h h' : Host P)
        → ((a : A) → Along order (good a))
        → ((e : Error P.Foreign) → Along order (bad e))
        → R h h'
        → R h (answered_by r good bad h').1
    answered_by-Along (ok a) good bad h h' qg qb v = order.then h h' _ v ((qg a).at h')
    answered_by-Along (err e) good bad h h' qg qb v = order.then h h' _ v ((qb e).at h')
    answered_by-Along panic good bad h h' qg qb v = v

    pub Along-handled :
        {A B : Type 0} (m : Handler P A) (good : A → Handler P B)
        (bad : Error P.Foreign → Handler P B)
        → Along order m
        → ((a : A) → Along order (good a))
        → ((e : Error P.Foreign) → Along order (bad e))
        → Along order (handled m good bad)
    unfolding handled
    Along-handled m good bad qm qg qb = record {
      at = λ h. answered_by-Along (m h).0 good bad h (m h).1 qg qb (qm.at h);
    }

    -- A handler that leaves the host as it is.
    pub Along-lift : {E A : Type 0} (r : Result A E) → Along order (lift r)
    Along-lift r = record { at = λ h. order.same h }

    pub Along-gets : {E A : Type 0} (f : Host P → A) → Along order (gets {E = E} f)
    Along-gets f = record { at = λ h. order.same h }

    pub Along-pure : {E A : Type 0} (a : A) → Along order (pure {E = E} {A = A} a)
    Along-pure a = record { at = λ h. order.same h }

    pub Along-raise : {A : Type 0} (e : Error P.Foreign) → Along order (raise {A = A} e)
    Along-raise e = record { at = λ h. order.same h }

    pub Along-ok_or : {A : Type 0} (o : Option A) (e : Error P.Foreign) → Along order (ok_or o e)
    Along-ok_or none e = record { at = λ h. order.same h }
    Along-ok_or (some a) e = record { at = λ h. order.same h }

    -- The same steps, with their outcome turned into another.
    pub Along-unwrapped :
        {D E A : Type 0} (m : Exec (Host P) D A) → Along order m → Along order (unwrapped {E = E} m)
    unfolding unwrapped
    Along-unwrapped m q = record { at = q.at }

    pub Along-caught :
        {E A : Type 0} (m : Exec (Host P) E A) → Along order m → Along order (caught m)
    unfolding caught
    Along-caught m q = record { at = q.at }

    pub Along-foreign_errors :
        {A : Type 0} (m : Exec (Host P) P.Foreign A)
        → Along order m
        → Along order (foreign_errors m)
    unfolding foreign_errors
    Along-foreign_errors m q = record { at = q.at }

module _ {P : Platform} where
  -- The identity of the host, the permissions of its database, its view of the ledger and the
  -- ledger's latest close.
  abbrev fixed : Host P → ℕ × (List ℕ × (DatabasePermissions × (P.ledger.Ledger × Option (List ℕ))))
  fixed h = (h.id, (h.network_id, (h.database.permissions, (h.ledger, h.latest_close))))

  abbrev pub Same : Host P → Host P → Type 0
  Same h h' = fixed h' ≡ fixed h

  pub Same-Order : Order Same
  Same-Order = record { same = λ h. refl; then = λ h h' h'' p q. q ∙ p }

  -- Beside these, what a read-only database holds.
  abbrev pub Kept : Host P → Host P → Type 0
  Kept h h' = Same h h' × (h.database.permissions ≡ read_only → h'.database.db ≡ h.database.db)

  pub Kept-Order : Order Kept
  Kept-Order = record {
    same = λ h. (refl, λ e. refl);
    then = λ h h' h'' (p, spared) (q, spared').
        (q ∙ p, λ e. spared' (ap (λ f. f.1.1.0) p ∙ e) ∙ spared e);
  }
