-- ===== src/Tests/Sample.antt =====
-- A platform and a host to run the definitions on: memory is a list of bytes that does not grow,
-- the database a log of the writes it was given.
use zephyr_vm.Prelude.{
  ℕ, ◌+◌, ⊤, none, some, List, [], ◌∷◌, ◌++◌, length, take, drop, leb, if◌then◌else◌,
}
use zephyr_vm.Errors.{Result, ok, err}
use zephyr_vm.Database.{ZephyrDatabase, DatabasePermissions}
use zephyr_vm.Ledger.{LedgerStateRead}
use zephyr_vm.Platform.{Platform}
use zephyr_vm.Tests.Embedded.{sample_soroban, sample_store, sample_simulation}
use zephyr_vm.Host.{Host, alive}

-- A user, a table hash, the columns and the values.
pub record Row : Type 0 where
  pub user : ℕ
  pub table : List ℕ
  pub columns : List ℕ
  pub values : List (List ℕ)

abbrev log_database : ZephyrDatabase
log_database = record {
  Db = List Row;
  read_raw = λ db user table columns conditions args. ok (length db ∷ columns);
  write_raw = λ db user table columns written.
      (ok tt, record { user = user; table = table; columns = columns; values = written } ∷ db);
  update_raw = λ db user table columns written conditions args.
      (ok tt, record { user = user; table = table; columns = columns; values = written } ∷ []);
}

abbrev no_ledger : LedgerStateRead
no_ledger = record {
  Ledger = ⊤;
  ScVal = ⊤;
  ContractDataEntry = ⊤;
  Account = ⊤;
  read_contract_data_entry_by_contract_id_and_key = λ l contract key. none;
  read_contract_data_entries_by_contract_id = λ l contract. [];
  read_account = λ l account. none;
}

abbrev pub read_bytes : List ℕ → ℕ → ℕ → Result (List ℕ) ⊤
read_bytes memory offset size =
    if leb (offset + size) (length memory) then ok (take size (drop offset memory)) else err tt

abbrev pub write_bytes : List ℕ → ℕ → List ℕ → Result (List ℕ) ⊤
write_bytes memory offset contents =
    if leb (offset + length contents) (length memory)
    then ok (take offset memory ++ (contents ++ drop (offset + length contents) memory))
    else err tt

-- The hash is its input, and the one error status is 1.
abbrev pub sample : Platform
sample = record {
  Foreign = ⊤;
  now = λ n. n;
  Memory = List ℕ;
  bytes = λ memory. memory;
  read = read_bytes;
  write = write_bytes;
  grow = λ memory pages. memory;
  replace = λ memory contents. contents;
  md5 = λ input. input;
  Sender = List (List ℕ);
  send = λ sent message. (ok tt, message ∷ sent);
  deserialize_string = λ bytes. ok bytes;
  success = 0;
  status = λ e. 1;
  database = log_database;
  ledger = no_ledger;
  serialize_entry = λ e. [];
  serialize_entries = λ es. [];
  serialize_account = λ a. [];
  scval_from_xdr = λ bytes. ok tt;
  ledger_key_contract_instance = tt;
  public_key_to_string = λ key. key;
  array_from_max_parts = λ parts. parts;
  soroban = sample_soroban;
  store = sample_store;
  simulation = sample_simulation;
}

-- Ten bytes of linear memory.
abbrev pub memory : List ℕ
memory = 10 ∷ 11 ∷ 12 ∷ 13 ∷ 14 ∷ 15 ∷ 0 ∷ 0 ∷ 0 ∷ 0 ∷ []

-- A host of the user 7, with its VM alive and these values pushed.
abbrev pub host_with : DatabasePermissions → List ℕ → Host sample
host_with permissions values = record {
  id = 7;
  network_id = [];
  transmitter = none;
  result = [];
  latest_close = none;
  database = record { permissions = permissions; db = [] };
  ledger = tt;
  budget = record { limits = record { fuel = 1; write_max = 1 } };
  entry_point_info = record { fname = "on_close"; params = []; retrn = [] };
  context = record {
    vm = some (alive (record { memory_manager = record { memory = memory; offset = 0 } }));
  };
  stack = record { inner = values; step = 0 };
  soroban = 0;
  stack_trace = none;
}
