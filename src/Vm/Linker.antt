-- ===== src/Vm/Linker.antt =====
-- What the linker is given: `host_functions` of rs-zephyr-env/src/host.rs,
-- `generate_host_fn_infos` of soroban_host_gen.rs, and the loop over `linker.define` in vm.rs.
pub mod Resolves
pub mod Imports
use mathlib.Core.List.{reverse}
use text.Mathlib.Text.{◌==◌}
use zephyr_vm.Prelude.{
  ℕ, ◌≡◌, Bool, true, false, ◌&&◌, String, List, [], ◌∷◌, ◌++◌, map, Option, none, some,
}
use zephyr_vm.Exec.{abort, pure}
use zephyr_vm.Soroban.{EnvFunction}
use zephyr_vm.Platform.{Platform}
use zephyr_vm.Host.{Handler}
use zephyr_vm.Host.Functions.{
  db_write_fn, db_update_fn, db_read_fn, db_read_as_id_fn, conclude_fn, send_message_fn,
  stack_push_fn, read_ledger_meta_fn,
}
use zephyr_vm.Host.Functions.Ledger.{
  read_contract_data_entry_by_contract_id_and_key_fn, read_contract_instance_fn,
  read_contract_entries_fn, read_account_from_ledger_fn,
}
use zephyr_vm.Host.Functions.Soroban

-- A closure, at the numbers that the guest passes.
abbrev pub Closure : Platform → Type 0
Closure P = List ℕ → Handler P (List ℕ)

pub record FunctionInfo (P : Platform) : Type 0 where
  pub in_module : String
  pub func : String
  pub wrapped : Closure P

-- `Func::wrap` of a closure with so many parameters. wasmi checks the type at the link, so no other
-- number of arguments comes.
module _ {P : Platform} where
  abbrev takes0 : Handler P (List ℕ) → Closure P
  takes0 c [] = c
  takes0 c (x ∷ xs) = abort

  abbrev takes1 : (ℕ → Handler P (List ℕ)) → Closure P
  takes1 c [] = abort
  takes1 c (x ∷ xs) = takes0 (c x) xs

  abbrev takes2 : (ℕ → ℕ → Handler P (List ℕ)) → Closure P
  takes2 c [] = abort
  takes2 c (x ∷ xs) = takes1 (c x) xs

  abbrev takes3 : (ℕ → ℕ → ℕ → Handler P (List ℕ)) → Closure P
  takes3 c [] = abort
  takes3 c (x ∷ xs) = takes2 (c x) xs

  abbrev takes4 : (ℕ → ℕ → ℕ → ℕ → Handler P (List ℕ)) → Closure P
  takes4 c [] = abort
  takes4 c (x ∷ xs) = takes3 (c x) xs

  abbrev takes5 : (ℕ → ℕ → ℕ → ℕ → ℕ → Handler P (List ℕ)) → Closure P
  takes5 c [] = abort
  takes5 c (x ∷ xs) = takes4 (c x) xs

  -- The four parts of a contract or an account, and what follows them.
  abbrev takes_parts : (List ℕ → Handler P (List ℕ)) → Closure P
  takes_parts c = takes4 λ a b d e. c (a ∷ b ∷ d ∷ e ∷ [])

  abbrev takes_parts_segment : (List ℕ → ℕ → ℕ → Handler P (List ℕ)) → Closure P
  takes_parts_segment c [] = abort
  takes_parts_segment c (a ∷ xs) =
      takes5 (λ b d e offset size. c (a ∷ b ∷ d ∷ e ∷ []) offset size) xs

  env : String → Closure P → FunctionInfo P
  env name closure = record { in_module = "env"; func = name; wrapped = closure }

  -- `arr` of `host_functions`, in its order
  unfoldable pub zephyr_functions : List (FunctionInfo P)
  unfolding env
  zephyr_functions =
      env "write_raw" (takes0 db_write_fn)
      ∷ env "read_raw" (takes0 db_read_fn)
      ∷ env "update_raw" (takes0 db_update_fn)
      ∷ env "zephyr_logger" (takes1 λ param. pure [])
      ∷ env "zephyr_stack_push" (takes1 stack_push_fn)
      ∷ env "read_ledger_meta" (takes0 read_ledger_meta_fn)
      ∷ env "read_contract_data_entry_by_contract_id_and_key"
          (takes_parts_segment read_contract_data_entry_by_contract_id_and_key_fn)
      ∷ env "read_contract_instance" (takes_parts read_contract_instance_fn)
      ∷ env "read_contract_entries_by_contract" (takes_parts read_contract_entries_fn)
      ∷ env "read_contract_entries_by_contract_to_env"
          (takes_parts Soroban.read_contract_entries_to_env_fn)
      ∷ env "conclude" (takes2 conclude_fn)
      ∷ env "tx_send_message" (takes2 send_message_fn)
      ∷ env "read_as_id" (takes1 db_read_as_id_fn)
      ∷ env "read_account_from_ledger" (takes_parts read_account_from_ledger_fn)
      ∷ []

  -- The functions that stand in for generated ones, and three of the module `env`.
  unfoldable pub soroban_adjusted : List (FunctionInfo P)
  unfolding env
  soroban_adjusted =
      env "scval_to_valid_host_val" (takes2 Soroban.scval_to_valid_host_val_fn)
      ∷ env "valid_host_val_to_scval" (takes1 Soroban.valid_host_val_to_scval_fn)
      ∷ record { in_module = "b"; func = "i"; wrapped = takes2 Soroban.string_from_linmem }
      ∷ record { in_module = "b"; func = "m"; wrapped = takes3 Soroban.symbol_index_from_linmem }
      ∷ record {
        in_module = "v";
        func = "g";
        wrapped = takes2 Soroban.vec_new_from_linear_memory_mem;
      }
      ∷ record {
        in_module = "b";
        func = "3";
        wrapped = takes2 Soroban.bytes_new_from_linear_memory_mem;
      }
      ∷ record { in_module = "b"; func = "j"; wrapped = takes2 Soroban.symbol_from_linmem }
      ∷ record {
        in_module = "m";
        func = "a";
        wrapped = takes4 Soroban.map_unpack_to_linear_memory_fn_mem;
      }
      ∷ record {
        in_module = "v";
        func = "h";
        wrapped = takes3 Soroban.vec_unpack_to_linear_memory_fn_mem;
      }
      ∷ env "soroban_simulate_tx" (takes_parts_segment Soroban.soroban_simulate_tx_fn)
      ∷ record {
        in_module = "b";
        func = "1";
        wrapped = takes4 Soroban.bytes_copy_to_linear_memory_mem;
      }
      ∷ record {
        in_module = "m";
        func = "9";
        wrapped = takes3 Soroban.map_new_from_linear_memory_mem;
      }
      ∷ record { in_module = "i"; func = "8"; wrapped = takes1 Soroban.i128_from_pieces }
      ∷ []

-- A function of env.json, as `generate_host_fn_infos` lists it.
info_of : (P : Platform) → EnvFunction P.Foreign P.soroban.Soroban → FunctionInfo P
info_of P f = record { in_module = f.in_module; func = f.func; wrapped = Soroban.generated_fn P f }

unfoldable pub generate_host_fn_infos : (P : Platform) → List (FunctionInfo P)
unfolding info_of
generate_host_fn_infos P = map (info_of P) P.soroban.functions

unfoldable pub host_functions : (P : Platform) → List (FunctionInfo P)
host_functions P = reverse ((generate_host_fn_infos P ++ zephyr_functions) ++ soroban_adjusted)

-- wasmi's linker: a name is defined once, and a second definition is an error that leaves the first.
pub record Linking (F : Type 0) : Type 1 where
  pub Linker : Type 0
  pub new : Linker
  pub define : String → String → F → Linker → Bool × Linker
  pub resolve : Linker → String → String → Option F

-- Whether two names are the same one.
abbrev pub same_name : String → String → String → String → Bool
same_name m f m' f' = (m == m') && (f == f')

pub record LinkingLaws {F : Type 0} (L : Linking F) : Type 0 where
  pub resolve-new : (m f : String) → L.resolve L.new m f ≡ none
  pub define-fresh :
      (m f m' f' : String) (c : F) (l : L.Linker)
      → same_name m f m' f' ≡ true
      → L.resolve l m f ≡ none
      → L.resolve (L.define m' f' c l).1 m f ≡ some c
  pub define-kept :
      (m f m' f' : String) (c d : F) (l : L.Linker)
      → L.resolve l m f ≡ some d
      → L.resolve (L.define m' f' c l).1 m f ≡ some d
  pub define-other :
      (m f m' f' : String) (c : F) (l : L.Linker)
      → same_name m f m' f' ≡ false
      → L.resolve (L.define m' f' c l).1 m f ≡ L.resolve l m f

module _ {P : Platform} (L : Linking (Closure P)) where
  -- `for func_info in .. { let _ = linker.define(..); }`
  unfoldable pub define_all : List (FunctionInfo P) → L.Linker → L.Linker
  define_all [] l = l
  define_all (e ∷ es) l = define_all es (L.define e.in_module e.func e.wrapped l).1

  -- The linker of a new VM.
  unfoldable pub linked : L.Linker
  linked = define_all (host_functions P) L.new
