-- ===== src/Tests/Environment.antt =====
-- The Soroban functions, the linker and wasmi at concrete inputs.
use zephyr_vm.Prelude.{
  ℕ, ⊤, arith, ◌≢◌, ap, sym, ◌≡◌, refl, Bool, true, false, Option, none, some, String, List, [],
  ◌∷◌, ◌++◌, ◌∙◌, if◌then◌else◌, ◌==◌,
}
use zephyr_vm.Errors.{ok, panic}
use zephyr_vm.Exec.{pure, ◌>>=◌}
use zephyr_vm.Database.{read_only}
use zephyr_vm.Host.{Host}
use zephyr_vm.Host.Functions.Calls.{Call, dispatch}
use zephyr_vm.Host.Functions.Views.{dispatch-views, string_view}
use zephyr_vm.Vm.Linker.{
  Closure, Linking, LinkingLaws, same_name, linked, generate_host_fn_infos, zephyr_functions,
  soroban_adjusted,
}
use zephyr_vm.Vm.Linker.Resolves.{last_under, linked-last}
use zephyr_vm.Vm.Linker.Imports.{linked-dispatch}
use zephyr_vm.Vm.{Extern}
use zephyr_vm.Vm.New.{
  Wasmi, new_only_instance, new_from_initialized_module, in_store, engine_of, on_store, fuelled,
}
use zephyr_vm.Vm.New.Foreign.{StoreLaws, new_from_initialized_module-never}
use zephyr_vm.Budget.{infer_fuel}
use zephyr_vm.Tests.Sample.{sample, host_with}

abbrev viewer : Host sample
viewer = host_with read_only []

dispatch-views_example : (dispatch (Call.string_from_linmem 0 2) viewer).1.context ≡ viewer.context
dispatch-views_example = dispatch-views (Call.string_from_linmem 0 2) viewer (string_view 0 2)

-- A linker that is the list of what it was given, in which the first of a name counts.
abbrev Definitions : Type 0
Definitions = List (String × (String × Closure sample))

unfoldable pub found : Definitions → String → String → Option (Closure sample)
found [] m f = none
found ((m', (f', c)) ∷ l) m f =
    let rest = found l m f in if same_name m f m' f' then some c else rest

abbrev or_last : Option (Closure sample) → Option (Closure sample) → Option (Closure sample)
or_last none last = last
or_last (some d) last = some d

found_step :
    (b : Bool) (c : Closure sample) (r r' last : Option (Closure sample))
    → r' ≡ or_last r last
    → (if b then some c else r') ≡ or_last (if b then some c else r) last
found_step true c r r' last e = refl
found_step false c r r' last e = e

found-append :
    (l : Definitions) (m f m' f' : String) (c : Closure sample)
    → found (l ++ ((m', (f', c)) ∷ [])) m f
      ≡ or_last (found l m f) (if same_name m f m' f' then some c else none)
unfolding found
found-append [] m f m' f' c = refl
found-append ((n, (g, d)) ∷ l) m f m' f' c =
    found_step (same_name m f n g) d _ _ _ (found-append l m f m' f' c)

or_last-none : (o : Option (Closure sample)) → or_last o none ≡ o
or_last-none none = refl
or_last-none (some d) = refl

pub is_none : Option (Closure sample) → Bool
is_none none = true
is_none (some d) = false

abbrev listing : Linking (Closure sample)
listing = record {
  Linker = Definitions;
  new = [];
  define = λ m f c l. (is_none (found l m f), l ++ ((m, (f, c)) ∷ []));
  resolve = found;
}

listing-Laws : LinkingLaws listing
unfolding found
listing-Laws = record {
  resolve-new = λ m f. refl;
  define-fresh = λ m f m' f' c l same e. rw (found-append l m f m' f' c, e, same) refl;
  define-kept = λ m f m' f' c d l e. rw (found-append l m f m' f' c, e) refl;
  define-other =
      λ m f m' f' c l other. found-append l m f m' f' c ∙ rw other (or_last-none (found l m f));
}

-- The names of a function that `soroban_adjusted` overrides.
linked-last_example :
    found (linked listing) "b" "i"
    ≡ last_under "b" "i" ((generate_host_fn_infos sample ++ zephyr_functions) ++ soroban_adjusted)
linked-last_example = linked-last listing listing-Laws "b" "i"

linked-dispatch_example :
    (w : Closure sample) × (found (linked listing) "b" "i" ≡ some w)
    × (w (0 ∷ 2 ∷ []) ≡ dispatch (Call.string_from_linmem 0 2))
linked-dispatch_example =
    linked-dispatch listing listing-Laws (Call.string_from_linmem 0 2) "b" "i" refl tt

-- A store is its identity and its fuel; every module has one memory, its code, and an instance is
-- the identity of its store and its memory.
abbrev pub machine : Wasmi sample
machine = record {
  StackLimits = ⊤;
  Engine = ⊤;
  Module = List ℕ;
  Store = ℕ × ℕ;
  Pre = List ℕ;
  Instance = ℕ × List ℕ;
  Func = ⊤;
  linking = listing;
  stack_limits = λ low high depth. some tt;
  engine = λ config. tt;
  store = λ id engine h. (id, 0);
  set_fuel = λ fuel store. (ok tt, (store.0, fuel));
  module_unchecked = λ engine code. ok code;
  instantiate = λ l m. pure m;
  start = λ pre store. (ok (store.0, pre), store);
  get_export = λ i name store. if i.0 == store.0 then ok (some (Extern.memory i.1)) else panic;
}

away_from : (a b : ℕ) → a ≢ b → (a == b) ≡ false
away_from a b other = ground arith

machine-StoreLaws : StoreLaws machine
machine-StoreLaws = record {
  id_of = λ store. store.0;
  home = λ i. i.0;
  fresh = λ id e h. refl;
  fuel_keeps = λ fuel s. refl;
  instantiate_keeps = λ m s. refl;
  started_home = λ pre i s e. let same : (s.0, pre) ≡ i = cc e in ap (λ j. j.0) (sym same);
  foreign_export = λ i name s other. rw (away_from i.0 s.0 other) refl;
}

-- An instance of the first store, and a VM that the second could have had of it.
new_from_initialized_module-never_example :
    new_from_initialized_module machine 2 viewer (1, 4 ∷ [])
    ≢ ok (record {
      store = (2, 1000);
      memory_manager = record { memory = 4 ∷ []; offset = 0 };
      instance_of = (1, 4 ∷ []);
    })
unfolding new_only_instance in_store engine_of on_store fuelled infer_fuel ◌>>=◌
new_from_initialized_module-never_example =
    new_from_initialized_module-never machine machine-StoreLaws 1 2 viewer viewer (4 ∷ [])
      (1, 4 ∷ [])
      (record {
        store = (2, 1000);
        memory_manager = record { memory = 4 ∷ []; offset = 0 };
        instance_of = (1, 4 ∷ []);
      })
      refl (cc)
