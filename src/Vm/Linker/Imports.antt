-- ===== src/Vm/Linker/Imports.antt =====
-- The calls of a guest reach the functions that the model runs for them.
use mathlib.Core.List.{reverse, reverse-append}
use zephyr_vm.Prelude.{
  ◌≡◌, refl, sym, ap, subst, ◌∙◌, ⊤, ℕ, String, List, [], ◌∷◌, ◌++◌, length, arith, Option, none,
  some,
}
use zephyr_vm.Platform.{Platform}
use zephyr_vm.Host.Functions.Calls.{
  Call, write_raw, read_raw, update_raw, zephyr_logger, zephyr_stack_push, read_as_id, conclude,
  tx_send_message, dispatch,
}
use zephyr_vm.Vm.Linker.{
  Closure, FunctionInfo, Linking, LinkingLaws, linked, generate_host_fn_infos, zephyr_functions,
  soroban_adjusted,
}
use zephyr_vm.Vm.Linker.Resolves.{first_under, linked-last}

-- The names under which a guest imports the functions of `Call`; a generated function has those of
-- env.json.
abbrev pub import_of : Call → Option (String × String)
import_of write_raw = some ("env", "write_raw")
import_of read_raw = some ("env", "read_raw")
import_of update_raw = some ("env", "update_raw")
import_of Call.read_ledger_meta = some ("env", "read_ledger_meta")
import_of (zephyr_logger param) = some ("env", "zephyr_logger")
import_of (zephyr_stack_push param) = some ("env", "zephyr_stack_push")
import_of (read_as_id id) = some ("env", "read_as_id")
import_of (conclude offset size) = some ("env", "conclude")
import_of (tx_send_message offset size) = some ("env", "tx_send_message")
import_of (Call.read_contract_data_entry_by_contract_id_and_key parts offset size) =
    some ("env", "read_contract_data_entry_by_contract_id_and_key")
import_of (Call.read_contract_instance parts) = some ("env", "read_contract_instance")
import_of (Call.read_contract_entries_by_contract parts) =
    some ("env", "read_contract_entries_by_contract")
import_of (Call.read_account_from_ledger parts) = some ("env", "read_account_from_ledger")
import_of (Call.read_contract_entries_by_contract_to_env parts) =
    some ("env", "read_contract_entries_by_contract_to_env")
import_of (Call.valid_host_val_to_scval val) = some ("env", "valid_host_val_to_scval")
import_of (Call.i128_from_pieces obj) = some ("i", "8")
import_of (Call.scval_to_valid_host_val offset size) = some ("env", "scval_to_valid_host_val")
import_of (Call.string_from_linmem pos len) = some ("b", "i")
import_of (Call.symbol_from_linmem pos len) = some ("b", "j")
import_of (Call.vec_new_from_linear_memory_mem pos len) = some ("v", "g")
import_of (Call.bytes_new_from_linear_memory_mem pos len) = some ("b", "3")
import_of (Call.symbol_index_from_linmem sym pos len) = some ("b", "m")
import_of (Call.map_new_from_linear_memory_mem keys vals len) = some ("m", "9")
import_of (Call.vec_unpack_to_linear_memory_fn_mem vec vals len) = some ("v", "h")
import_of (Call.bytes_copy_to_linear_memory_mem b b_pos pos len) = some ("b", "1")
import_of (Call.map_unpack_to_linear_memory_fn_mem map keys vals len) = some ("m", "a")
import_of (Call.soroban_simulate_tx parts offset size) = some ("env", "soroban_simulate_tx")
import_of (Call.generated i args) = none

-- The numbers that the guest passes.
abbrev pub arguments : Call → List ℕ
arguments write_raw = []
arguments read_raw = []
arguments update_raw = []
arguments Call.read_ledger_meta = []
arguments (zephyr_logger param) = param ∷ []
arguments (zephyr_stack_push param) = param ∷ []
arguments (read_as_id id) = id ∷ []
arguments (conclude offset size) = offset ∷ size ∷ []
arguments (tx_send_message offset size) = offset ∷ size ∷ []
arguments (Call.read_contract_data_entry_by_contract_id_and_key parts offset size) =
    parts ++ (offset ∷ size ∷ [])
arguments (Call.read_contract_instance parts) = parts
arguments (Call.read_contract_entries_by_contract parts) = parts
arguments (Call.read_account_from_ledger parts) = parts
arguments (Call.read_contract_entries_by_contract_to_env parts) = parts
arguments (Call.valid_host_val_to_scval val) = val ∷ []
arguments (Call.i128_from_pieces obj) = obj ∷ []
arguments (Call.scval_to_valid_host_val offset size) = offset ∷ size ∷ []
arguments (Call.string_from_linmem pos len) = pos ∷ len ∷ []
arguments (Call.symbol_from_linmem pos len) = pos ∷ len ∷ []
arguments (Call.vec_new_from_linear_memory_mem pos len) = pos ∷ len ∷ []
arguments (Call.bytes_new_from_linear_memory_mem pos len) = pos ∷ len ∷ []
arguments (Call.symbol_index_from_linmem sym pos len) = sym ∷ pos ∷ len ∷ []
arguments (Call.map_new_from_linear_memory_mem keys vals len) = keys ∷ vals ∷ len ∷ []
arguments (Call.vec_unpack_to_linear_memory_fn_mem vec vals len) = vec ∷ vals ∷ len ∷ []
arguments (Call.bytes_copy_to_linear_memory_mem b b_pos pos len) = b ∷ b_pos ∷ pos ∷ len ∷ []
arguments (Call.map_unpack_to_linear_memory_fn_mem map keys vals len) = map ∷ keys ∷ vals ∷ len ∷ []
arguments (Call.soroban_simulate_tx parts offset size) = parts ++ (offset ∷ size ∷ [])
arguments (Call.generated i args) = args

-- The parts of a contract or an account, where a call has them.
abbrev pub parts_of : Call → Option (List ℕ)
parts_of (Call.read_contract_data_entry_by_contract_id_and_key parts offset size) = some parts
parts_of (Call.read_contract_instance parts) = some parts
parts_of (Call.read_contract_entries_by_contract parts) = some parts
parts_of (Call.read_account_from_ledger parts) = some parts
parts_of (Call.read_contract_entries_by_contract_to_env parts) = some parts
parts_of (Call.soroban_simulate_tx parts offset size) = some parts
parts_of c = none

-- There are four of them.
abbrev pub FourParts : Option (List ℕ) → Type 0
FourParts none = ⊤
FourParts (some parts) = length parts ≡ 4

four_parts :
    (Q : List ℕ → Type 0) (parts : List ℕ)
    → length parts ≡ 4
    → ((a b d e : ℕ) → Q (a ∷ b ∷ d ∷ e ∷ []))
    → Q parts
four_parts Q [] four q = absurd (omega arith)
four_parts Q (a ∷ []) four q = absurd (omega arith)
four_parts Q (a ∷ b ∷ []) four q = absurd (omega arith)
four_parts Q (a ∷ b ∷ d ∷ []) four q = absurd (omega arith)
four_parts Q (a ∷ b ∷ d ∷ e ∷ []) four q = q a b d e
four_parts Q (a ∷ b ∷ d ∷ e ∷ x ∷ xs) four q = absurd (omega arith)

module _ {P : Platform} (L : Linking (Closure P)) (laws : LinkingLaws L) where
  own_first :
      reverse ((generate_host_fn_infos P ++ zephyr_functions) ++ soroban_adjusted)
      ≡ reverse soroban_adjusted ++ (reverse zephyr_functions ++ reverse (generate_host_fn_infos P))
  own_first =
      reverse-append (generate_host_fn_infos P ++ zephyr_functions) soroban_adjusted
      ∙ ap (λ (l : List (FunctionInfo P)). reverse soroban_adjusted ++ l)
          (reverse-append (generate_host_fn_infos P) zephyr_functions)

  -- What the host itself defines is looked through first.
  linked-own :
      (m f : String)
      → L.resolve (linked L) m f
        ≡ first_under m f (
            reverse soroban_adjusted
            ++ (reverse zephyr_functions ++ reverse (generate_host_fn_infos P)))
  linked-own m f = linked-last L laws m f ∙ ap (first_under m f) own_first

  abbrev ReachesAs : Call → Option (String × String) → Type 0
  ReachesAs c none = ⊤
  ReachesAs c (some (m, f)) =
      (w : Closure P) × (L.resolve (linked L) m f ≡ some w) × (w (arguments c) ≡ dispatch c)

  linked-reaches : (c : Call) → FourParts (parts_of c) → ReachesAs c (import_of c)
  unfolding first_under zephyr_functions soroban_adjusted dispatch
  linked-reaches (Call.read_contract_data_entry_by_contract_id_and_key parts offset size) four =
      four_parts
        (λ parts.
          ReachesAs (Call.read_contract_data_entry_by_contract_id_and_key parts offset size)
            (import_of (Call.read_contract_data_entry_by_contract_id_and_key parts offset size)))
        parts four λ a b d e. (_, linked-own _ _, refl)
  linked-reaches (Call.read_contract_instance parts) four =
      four_parts
        (λ parts.
          ReachesAs (Call.read_contract_instance parts)
            (import_of (Call.read_contract_instance parts)))
        parts four λ a b d e. (_, linked-own _ _, refl)
  linked-reaches (Call.read_contract_entries_by_contract parts) four =
      four_parts
        (λ parts.
          ReachesAs (Call.read_contract_entries_by_contract parts)
            (import_of (Call.read_contract_entries_by_contract parts)))
        parts four λ a b d e. (_, linked-own _ _, refl)
  linked-reaches (Call.read_account_from_ledger parts) four =
      four_parts
        (λ parts.
          ReachesAs (Call.read_account_from_ledger parts)
            (import_of (Call.read_account_from_ledger parts)))
        parts four λ a b d e. (_, linked-own _ _, refl)
  linked-reaches (Call.read_contract_entries_by_contract_to_env parts) four =
      four_parts
        (λ parts.
          ReachesAs (Call.read_contract_entries_by_contract_to_env parts)
            (import_of (Call.read_contract_entries_by_contract_to_env parts)))
        parts four λ a b d e. (_, linked-own _ _, refl)
  linked-reaches (Call.soroban_simulate_tx parts offset size) four =
      four_parts
        (λ parts.
          ReachesAs (Call.soroban_simulate_tx parts offset size)
            (import_of (Call.soroban_simulate_tx parts offset size)))
        parts four λ a b d e. (_, linked-own _ _, refl)
  linked-reaches (Call.generated i args) four = tt
  linked-reaches c four = (_, linked-own _ _, refl)

  -- Every import of a guest but a generated function is linked to a function that, at the arguments
  -- of a call with four parts where it has parts, is what the model runs for the call: the
  -- functions that `soroban_adjusted` lists stand in for the generated ones of their names, whatever
  -- env.json holds.
  pub linked-dispatch :
      (c : Call) (m f : String)
      → import_of c ≡ some (m, f)
      → FourParts (parts_of c)
      → (w : Closure P) × (L.resolve (linked L) m f ≡ some w) × (w (arguments c) ≡ dispatch c)
  linked-dispatch c m f e four = subst (ReachesAs c) e (linked-reaches c four)
