-- ===== src/Ledger.antt =====
-- The interface to the ledger state: rs-zephyr-env/src/db/ledger.rs.
use zephyr_vm.Prelude.{ℕ, Option, List}

-- A contract is named by its 32 bytes, an account by its text.
pub record LedgerStateRead : Type 1 where
  pub Ledger : Type 0
  pub ScVal : Type 0
  pub ContractDataEntry : Type 0
  pub Account : Type 0
  pub read_contract_data_entry_by_contract_id_and_key :
      Ledger → List ℕ → ScVal → Option ContractDataEntry
  pub read_contract_data_entries_by_contract_id : Ledger → List ℕ → List ContractDataEntry
  pub read_account : Ledger → List ℕ → Option Account
