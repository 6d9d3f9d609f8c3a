-- ===== src/Vm/Linker/Resolves.antt =====
-- Which function an import of the guest is linked to.
use mathlib.Core.List.{reverse}
use zephyr_vm.Prelude.{
  ◌≡◌, ◌∙◌, inl, inr, Bool-cases, String, List, [], ◌∷◌, ◌++◌, Option, none, some, if◌then◌else◌,
}
use zephyr_vm.Platform.{Platform}
use zephyr_vm.Vm.Linker.{
  Closure, FunctionInfo, Linking, LinkingLaws, same_name, define_all, linked, host_functions,
  generate_host_fn_infos, zephyr_functions, soroban_adjusted,
}

module _ {P : Platform} where
  -- The function of the first entry under a name.
  unfoldable pub first_under : String → String → List (FunctionInfo P) → Option (Closure P)
  first_under m f [] = none
  first_under m f (e ∷ es) =
      let rest = first_under m f es in
      if same_name m f e.in_module e.func then some e.wrapped else rest

  -- The function of the last one.
  abbrev pub last_under : String → String → List (FunctionInfo P) → Option (Closure P)
  last_under m f es = first_under m f (reverse es)

module _ {P : Platform} (L : Linking (Closure P)) (laws : LinkingLaws L) where
  -- A name that is defined keeps its function.
  define_all-kept :
      (m f : String) (es : List (FunctionInfo P)) (l : L.Linker) (d : Closure P)
      → L.resolve l m f ≡ some d
      → L.resolve (define_all L es l) m f ≡ some d
  unfolding define_all
  define_all-kept m f [] l d e = e
  define_all-kept m f (x ∷ es) l d e =
      define_all-kept m f es _ d (laws.define-kept m f x.in_module x.func x.wrapped d l e)

  define_all-first :
      (m f : String) (es : List (FunctionInfo P)) (l : L.Linker)
      → L.resolve l m f ≡ none
      → L.resolve (define_all L es l) m f ≡ first_under m f es
  unfolding define_all first_under
  define_all-first m f [] l e = e
  define_all-first m f (x ∷ es) l e = elim (Bool-cases (same_name m f x.in_module x.func)) [
    | inl same ↦ rw same (
        define_all-kept m f es _ x.wrapped
          (laws.define-fresh m f x.in_module x.func x.wrapped l same e))
    | inr other ↦
        rw other (
          define_all-first m f es _
            (laws.define-other m f x.in_module x.func x.wrapped l other ∙ e))
  ]

  -- With a linker that refuses a second definition of a name, an import is linked to the last entry
  -- under its name of the list that `host_functions` reverses, and to nothing where there is none.
  pub linked-last :
      (m f : String)
      → L.resolve (linked L) m f
        ≡ last_under m f ((generate_host_fn_infos P ++ zephyr_functions) ++ soroban_adjusted)
  unfolding linked host_functions
  linked-last m f = define_all-first m f (host_functions P) L.new (laws.resolve-new m f)
