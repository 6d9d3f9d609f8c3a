-- ===== src/Platform.antt =====
-- What the host environment is built on and does not implement: wasmi's linear memory, md5, the
-- clock, bincode, the channel of the relayer, the status codes of rs_zephyr_common, the Soroban
-- environment and its simulation, SQLite, and the two implementor's traits of rs-zephyr-env/src/db.
use zephyr_vm.Prelude.{ℕ, ⊤, Option, List}
use zephyr_vm.Errors.{Result, Error}
use zephyr_vm.Database.{ZephyrDatabase}
use zephyr_vm.Ledger.{LedgerStateRead}
use zephyr_vm.Soroban.{SorobanEnv, LedgerInfo}
use zephyr_vm.Snapshot.{Store, LedgerKey, LedgerEntry}

-- soroban_simulation, with the file of the bucket size. `simulate` is given the snapshot's two
-- readers, the configuration, the ledger, the function and the source account.
pub record Simulation (F : Type 0) (store : Store F) : Type 1 where
  pub HostFunction : Type 0
  pub NetworkConfig : Type 0
  pub Response : Type 0
  pub host_function_from_xdr : List ℕ → Result HostFunction F
  pub default_ledger_info : LedgerInfo
  pub read_bucket_size : Result (List ℕ) F
  pub parse_bucket_size : List ℕ → Result ℕ F
  pub load_from_snapshot :
      (LedgerKey store.OtherKey → Result (Option (LedgerEntry store.OtherEntry × Option ℕ)) F)
      → ℕ
      → Result NetworkConfig F
  pub fill_config_fields : NetworkConfig → LedgerInfo → LedgerInfo
  pub simulate :
      (LedgerKey store.OtherKey → Result (Option (LedgerEntry store.OtherEntry × Option ℕ)) F)
      → (LedgerKey store.OtherKey → Result (Option (LedgerEntry store.OtherEntry × Option ℕ)) F)
      → NetworkConfig
      → LedgerInfo
      → HostFunction
      → List ℕ
      → Result Response F
  pub serialize : Response → List ℕ

pub record Platform : Type 1 where
  -- the errors of the libraries
  pub Foreign : Type 0
  -- the clock at an entry of the trace
  pub now : ℕ → ℕ
  -- `wasmi::Memory`: its data, a read of so many bytes at an offset, a write, and growth by pages
  pub Memory : Type 0
  pub bytes : Memory → List ℕ
  pub read : Memory → ℕ → ℕ → Result (List ℕ) Foreign
  pub write : Memory → ℕ → List ℕ → Result Memory Foreign
  pub grow : Memory → ℕ → Memory
  -- the memory after its slice was rewritten through `data_mut`
  pub replace : Memory → List ℕ → Memory
  -- `md5::compute`
  pub md5 : List ℕ → List ℕ
  -- the sender of the relayer's channel
  pub Sender : Type 0
  pub send : Sender → List ℕ → Result ⊤ Foreign × Sender
  -- `bincode::deserialize` at `String`; a text is the list of its bytes
  pub deserialize_string : List ℕ → Result (List ℕ) Foreign
  -- `ZephyrStatus`, as an i64
  pub success : ℕ
  pub status : Error Foreign → ℕ
  -- the implementor's database and ledger
  pub database : ZephyrDatabase
  pub ledger : LedgerStateRead
  -- `bincode::serialize` of what the ledger returns, the parser of a value, an account's address
  pub serialize_entry : Option ledger.ContractDataEntry → List ℕ
  pub serialize_entries : List ledger.ContractDataEntry → List ℕ
  pub serialize_account : Option ledger.Account → List ℕ
  pub scval_from_xdr : List ℕ → Result ledger.ScVal Foreign
  pub ledger_key_contract_instance : ledger.ScVal
  pub public_key_to_string : List ℕ → List ℕ
  -- `WrappedMaxBytes::array_from_max_parts::<32>` of rs_zephyr_common
  pub array_from_max_parts : List ℕ → List ℕ
  -- the Soroban environment, the node's database and the simulation
  pub soroban : SorobanEnv Foreign ledger.ScVal ledger.ContractDataEntry
  pub store : Store Foreign
  pub simulation : Simulation Foreign store
