-- ===== src/Vm/New/Foreign.antt =====
-- An instance that `new_only_instance` made, in `new_from_initialized_module`:
-- rs-zephyr-env/src/vm.rs.
use zephyr_vm.Prelude.{ℕ, ◌≡◌, ◌≢◌, refl, sym, ◌∙◌, String, List}
use zephyr_vm.Errors.{Result, ok, err, panic, Error, foreign}
use zephyr_vm.Exec.{Exec, continue, map_err, ◌>>=◌}
use zephyr_vm.Budget.{infer_fuel}
use zephyr_vm.Platform.{Platform}
use zephyr_vm.Host.{Host}
use zephyr_vm.Vm.Linker.{linked}
use zephyr_vm.Vm.New.{
  Wasmi, Started, eager, lazy, engine_of, on_store, fuelled, exported_memory, managed, in_store,
  new_from_initialized_module, new_only_instance,
}

-- What wasmi documents of stores: an instance belongs to the store in which it was started, the
-- operations on a store leave its identity, and to ask for an export of an instance in a store that
-- is not its own is a panic.
pub record StoreLaws {P : Platform} (w : Wasmi P) : Type 0 where
  pub id_of : w.Store → ℕ
  pub home : w.Instance → ℕ
  pub fresh : (id : ℕ) (e : w.Engine) (h : Host P) → id_of (w.store id e h) ≡ id
  pub fuel_keeps : (fuel : ℕ) (s : w.Store) → id_of (w.set_fuel fuel s).1 ≡ id_of s
  pub instantiate_keeps :
      (m : w.Module) (s : w.Store) → id_of (w.instantiate (linked w.linking) m s).1 ≡ id_of s
  pub started_home :
      (pre : w.Pre) (i : w.Instance) (s : w.Store) → (w.start pre s).0 ≡ ok i → home i ≡ id_of s
  pub foreign_export :
      (i : w.Instance) (name : String) (s : w.Store)
      → home i ≢ id_of s
      → w.get_export i name s ≡ panic

continue-value :
    {S E A B : Type 0} (r : Result A E) (f : A → Exec S E B) (s : S) (b : B)
    → (continue r f s).0 ≡ ok b
    → (a : A) × (r ≡ ok a) × ((f a s).0 ≡ ok b)
continue-value (ok a) f s b e = (a, refl, e)
continue-value (err x) f s b e = absurd (cc e)
continue-value panic f s b e = absurd (cc e)

map_err-value :
    {A D E : Type 0} (c : D → E) (r : Result A D) (a : A) → map_err c r ≡ ok a → r ≡ ok a
map_err-value c (ok b) a e = cc e
map_err-value c (err x) a e = absurd (cc e)
map_err-value c panic a e = absurd (cc e)

module _ {P : Platform} (w : Wasmi P) (laws : StoreLaws w) where
  fuelled-keeps : (h : Host P) (s : w.Store) → laws.id_of (fuelled w h s).1 ≡ laws.id_of s
  unfolding fuelled on_store infer_fuel
  fuelled-keeps h s = laws.fuel_keeps _ s

  made-home :
      (id : ℕ) (h : Host P) (code : List ℕ) (i : w.Instance) (r : Result w.Engine (Error P.Foreign))
      → engine_of w lazy ≡ r
      → new_only_instance w id h code ≡ ok i
      → laws.home i ≡ id
  unfolding new_only_instance in_store on_store ◌>>=◌
  made-home id h code i (err x) engine made = absurd (let e = rw engine at made in cc e)
  made-home id h code i panic engine made = absurd (let e = rw engine at made in cc e)
  made-home id h code i (ok engine) e made =
      let made' = rw e at made in
      let store = w.store id engine h in
      let (m, reads, e1) =
        continue-value (map_err foreign (w.module_unchecked engine code)) _ store i made' in
      let (u, fuels, e2) = continue-value (fuelled w h store).0 _ (fuelled w h store).1 i e1 in
      let s' = (fuelled w h store).1 in
      let run = w.instantiate (linked w.linking) m s' in
      let (pre, instantiates, e3) = continue-value (map_err foreign run.0) _ run.1 i e2 in
      laws.started_home pre i run.1 (map_err-value foreign _ i e3)
      ∙ (laws.instantiate_keeps m s' ∙ (fuelled-keeps h store ∙ laws.fresh id engine h))

  from_foreign :
      (id : ℕ) (h : Host P) (i : w.Instance) (v : Started w) (r : Result w.Engine (Error P.Foreign))
      → engine_of w eager ≡ r
      → laws.home i ≢ id
      → new_from_initialized_module w id h i ≢ ok v
  unfolding new_from_initialized_module in_store managed exported_memory on_store ◌>>=◌
  from_foreign id h i v (err x) engine other made = let e = rw engine at made in absurd (cc e)
  from_foreign id h i v panic engine other made = let e = rw engine at made in absurd (cc e)
  from_foreign id h i v (ok engine) e other made =
      let made' = rw e at made in
      let store = w.store id engine h in
      let s' = (fuelled w h store).1 in
      let (u, fuels, e1) = continue-value (fuelled w h store).0 _ s' v made' in
      let away : laws.home i ≢ laws.id_of s' =
        λ same. other (same ∙ (fuelled-keeps h store ∙ laws.fresh id engine h)) in
      let e2 = rw (laws.foreign_export i "memory" s' away) at e1 in absurd (cc e2)

  -- An instance that `new_only_instance` made is in the store that it made, so
  -- `new_from_initialized_module`, which makes another store, makes no VM of it, whatever the hosts
  -- are. It takes what wasmi documents of stores.
  pub new_from_initialized_module-never :
      (id id' : ℕ) (h h' : Host P) (code : List ℕ) (i : w.Instance) (v : Started w)
      → new_only_instance w id h code ≡ ok i
      → id ≢ id'
      → new_from_initialized_module w id' h' i ≢ ok v
  new_from_initialized_module-never id id' h h' code i v made other =
      from_foreign id' h' i v (engine_of w eager) refl
        λ e. other (sym (made-home id h code i (engine_of w lazy) refl made) ∙ e)
