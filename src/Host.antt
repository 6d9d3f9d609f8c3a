-- ===== src/Host.antt =====
-- The state of the host environment and the operations on it: rs-zephyr-env/src/host.rs,
-- vm_context.rs and the `MemoryManager` of vm.rs.
pub mod State
pub mod Memory
pub mod Instructions
pub mod Database
pub mod Runs
pub mod Quiet
pub mod Messages
pub mod Write
pub mod Update
pub mod Read
pub mod Guards
pub mod Context
pub mod Soroban
pub mod Functions
pub mod Stale
use zephyr_vm.Prelude.{ℕ, zero, suc, ⊤, Option, none, some, String, List, [], ◌∷◌}
use zephyr_vm.Errors.{Result, ok, err, panic, Error, foreign}
use zephyr_vm.Exec.{Exec, pure, attempt, lift, unwrapped, ◌>>=◌, ◌>>◌}
use zephyr_vm.Stack
use zephyr_vm.Stack.{StackImpl, get_with_step}
use zephyr_vm.Trace
use zephyr_vm.Trace.{StackTrace, TracePoint, Piece, text, maybe_add_trace, zephyr_environment}
use zephyr_vm.Budget
use zephyr_vm.Budget.{BudgetImpl}
use zephyr_vm.Database.{DatabaseImpl, zephyr_standard as standard_database}
use zephyr_vm.Snapshot.{get_current_ledger_sequence}
use zephyr_vm.Platform.{Platform}

pub record InvokedFunctionInfo : Type 0 where
  pub fname : String
  pub params : List ℕ
  pub retrn : List ℕ

abbrev pub serverless_defaults : String → InvokedFunctionInfo
serverless_defaults name = record { fname = name; params = []; retrn = [] }

-- The standard entry point.
abbrev pub on_close : InvokedFunctionInfo
on_close = record { fname = "on_close"; params = []; retrn = [] }

-- The linear memory of the VM and the sum of the sizes that were written to it.
pub record MemoryManager (P : Platform) : Type 0 where
  pub memory : P.Memory
  pub offset : ℕ

pub record Vm (P : Platform) : Type 0 where
  pub memory_manager : MemoryManager P

-- A `Weak<Vm>`: whether `upgrade` still finds the VM.
pub data Weak (A : Type 0) : Type 0 where
  alive : A → Weak A
  dropped : Weak A

pub record VmContext (P : Platform) : Type 0 where
  pub vm : Option (Weak (Vm P))

pub record Host (P : Platform) : Type 0 where
  pub id : ℕ
  pub network_id : List ℕ
  pub transmitter : Option P.Sender
  pub result : List ℕ
  pub latest_close : Option (List ℕ)
  pub database : DatabaseImpl (P.database.Db)
  pub ledger : P.ledger.Ledger
  pub budget : BudgetImpl
  pub entry_point_info : InvokedFunctionInfo
  pub context : VmContext P
  pub stack : StackImpl
  pub soroban : P.soroban.Soroban
  pub stack_trace : StackTrace P.Foreign

-- A handler of the host.
abbrev pub Handler : Platform → Type 0 → Type 0
Handler P A = Exec (Host P) (Error P.Foreign) A

-- The Soroban host of a new host: its ledger is the node's, and a sample contract stands under the
-- address of zeros.
soroban_from_id : (P : Platform) → List ℕ → Exec P.soroban.Soroban P.Foreign ⊤
soroban_from_id P network_id = do
  unwrapped P.soroban.reset_unlimited
  (sequence, timestamp) ← lift (get_current_ledger_sequence P.store)
  P.soroban.with_mut_ledger_info λ li. record li {
    sequence_number = sequence;
    timestamp = timestamp;
    network_id = network_id;
    protocol_version = 21;
  }
  P.soroban.enable_debug
  contract_id ← P.soroban.add_contract_address
  P.soroban.register_test_contract contract_id

-- That of a mocked host: the version of the protocol is all that its ledger is given, and an error
-- of the registration is dropped.
mocked_soroban : (P : Platform) → Exec P.soroban.Soroban P.Foreign ⊤
mocked_soroban P = do
  unwrapped P.soroban.reset_unlimited
  P.soroban.with_mut_ledger_info λ li. record li { protocol_version = 21 }
  contract_id ← P.soroban.add_contract_address
  _ ← attempt (P.soroban.register_test_contract contract_id)
  pure tt

abbrev zeros : ℕ → List ℕ
zeros zero = []
zeros (suc n) = 0 ∷ zeros n

module _ {P : Platform} where
  -- The fields of a new host.
  unfoldable pub new_host :
      P.database.Db → P.ledger.Ledger → ℕ → List ℕ → P.soroban.Soroban → Host P
  new_host db ledger id network_id soroban = record {
    id = id;
    network_id = network_id;
    transmitter = none;
    result = [];
    latest_close = none;
    database = standard_database db;
    ledger = ledger;
    budget = Budget.zephyr_standard;
    entry_point_info = on_close;
    context = record { vm = none };
    stack = Stack.empty;
    soroban = soroban;
    stack_trace = none;
  }

  hosted :
      Result ⊤ P.Foreign × P.soroban.Soroban
      → (P.soroban.Soroban → Host P)
      → Result (Host P) (Error P.Foreign)
  hosted (ok done, soroban) host_of = ok (host_of soroban)
  hosted (err e, soroban) host_of = err (foreign e)
  hosted (panic, soroban) host_of = panic

  -- `from_id`, with the implementor's standard database and ledger
  unfoldable pub from_id :
      P.database.Db → P.ledger.Ledger → ℕ → List ℕ → Result (Host P) (Error P.Foreign)
  unfolding soroban_from_id hosted
  from_id db ledger id network_id =
      hosted (soroban_from_id P network_id P.soroban.test_host) (new_host db ledger id network_id)

  -- `mocked`, with the implementor's mocked database and ledger
  unfoldable pub mocked : P.database.Db → P.ledger.Ledger → Result (Host P) (Error P.Foreign)
  unfolding mocked_soroban hosted
  mocked db ledger = hosted (mocked_soroban P P.soroban.test_host) (new_host db ledger 0 (zeros 32))
