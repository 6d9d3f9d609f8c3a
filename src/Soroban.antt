-- ===== src/Soroban.antt =====
-- The Soroban environment that the host embeds (soroban_env_host, a fork), as an interface: its host
-- is a state, and what the repository calls of it are operations on that state.
pub mod Marshal
use zephyr_vm.Prelude.{ℕ, ⊤, Bool, Option, String, List}
use zephyr_vm.Errors.{Result}
use zephyr_vm.Exec.{Exec}

-- What the environment asks of a context: its calls of the trait `CustomContextVM`, in the order in
-- which it makes them, each with what follows its answer. A read brings the buffer it fills; a use of
-- `data_mut` rewrites the slice that it is given.
pub data Access (A : Type 0) : Type 0 where
  done : A → Access A
  read : ℕ → List ℕ → (List ℕ → Access A) → Access A
  contents : (List ℕ → Access A) → Access A
  write : ℕ → List ℕ → (ℕ → Access A) → Access A
  data_mut : (List ℕ → List ℕ) → (List ℕ → Access A) → Access A

-- `Val::from(T)` and `T::try_from(Val)`; a `Val` is its payload.
pub record Conversion (F Carrier : Type 0) : Type 0 where
  pub into : Carrier → ℕ
  pub try_from : ℕ → Result Carrier F

-- A type of an argument or a result: `WasmiMarshal` and `CheckedEnvArg`. `marshal_from_self` gives
-- the number of a `Value::I64`, and `none` for another value. A type that cannot carry an object has
-- no conversion.
pub record ArgType (F Soroban : Type 0) : Type 1 where
  pub Carrier : Type 0
  pub try_marshal_from_value : ℕ → Option Carrier
  pub marshal_from_self : Carrier → Option ℕ
  pub check_env_arg : Carrier → Exec Soroban F Carrier
  pub conversion : Option (Conversion F Carrier)

-- A function of the environment as env.json declares it: its arguments one by one, then its call.
pub data Chain (F Soroban : Type 0) (G : ArgType F Soroban) : Type 1 where
  run : Exec Soroban F G.Carrier → Chain F Soroban G
  arg : (T : ArgType F Soroban) → (T.Carrier → Chain F Soroban G) → Chain F Soroban G

pub record EnvFunction (F Soroban : Type 0) : Type 1 where
  pub in_module : String
  pub func : String
  pub ident : String
  pub Return : ArgType F Soroban
  pub chain : Chain F Soroban Return

-- What the simulation of a transaction is told of the ledger.
pub record LedgerInfo : Type 0 where
  pub protocol_version : ℕ
  pub sequence_number : ℕ
  pub timestamp : ℕ
  pub network_id : List ℕ
  pub max_entry_ttl : ℕ

-- `F` are the errors of the libraries.
pub record SorobanEnv (F ScVal ContractDataEntry : Type 0) : Type 1 where
  pub Soroban : Type 0
  pub test_host : Soroban
  pub reset_unlimited : Exec Soroban F ⊤
  pub enable_debug : Exec Soroban F ⊤
  pub with_mut_ledger_info : (LedgerInfo → LedgerInfo) → Exec Soroban F ⊤
  -- the sample contract, under the address of zeros
  pub add_contract_address : Exec Soroban F ℕ
  pub register_test_contract : ℕ → Exec Soroban F ⊤
  pub with_test_contract_frame : Exec Soroban F ℕ → Exec Soroban F ℕ
  pub absolute_to_relative : ℕ → Exec Soroban F ℕ
  pub relative_to_absolute : ℕ → Exec Soroban F ℕ
  -- the error that the host makes of the error of a function, with its diagnostics
  pub error : F → String → Exec Soroban F ⊤
  pub to_valid_host_val : ScVal → Exec Soroban F ℕ
  pub scval_from_val : ℕ → Exec Soroban F ScVal
  pub map_new : Exec Soroban F ℕ
  pub map_put : ℕ → ℕ → ℕ → Exec Soroban F ℕ
  -- `Error::from_scerror(WasmVm(InvalidInput))` and `Error::from_contract_error(0)`
  pub invalid_input : F
  pub contract_error : F
  -- `to_xdr`, the key and the value of an entry of contract data, and the test for the instance's key
  pub scval_to_xdr : ScVal → Result (List ℕ) F
  pub contract_data : ContractDataEntry → Option (ScVal × ScVal)
  pub is_contract_instance : ScVal → Bool
  -- the types of the functions on linear memory
  pub u32val : ArgType F Soroban
  pub symbol : ArgType F Soroban
  pub string_object : ArgType F Soroban
  pub symbol_object : ArgType F Soroban
  pub vec_object : ArgType F Soroban
  pub map_object : ArgType F Soroban
  pub bytes_object : ArgType F Soroban
  pub void : ArgType F Soroban
  -- the functions on linear memory that the fork adds
  pub string_new_from_linear_memory_mem :
      u32val.Carrier → u32val.Carrier → Soroban → Access (Result string_object.Carrier F × Soroban)
  pub symbol_new_from_linear_memory_mem :
      u32val.Carrier → u32val.Carrier → Soroban → Access (Result symbol_object.Carrier F × Soroban)
  pub symbol_index_in_linear_memory_mem :
      symbol.Carrier
      → u32val.Carrier
      → u32val.Carrier
      → Soroban
      → Access (Result u32val.Carrier F × Soroban)
  pub vec_new_from_linear_memory_mem :
      u32val.Carrier → u32val.Carrier → Soroban → Access (Result vec_object.Carrier F × Soroban)
  pub map_new_from_linear_memory_mem :
      u32val.Carrier
      → u32val.Carrier
      → u32val.Carrier
      → Soroban
      → Access (Result map_object.Carrier F × Soroban)
  pub bytes_new_from_linear_memory_mem :
      u32val.Carrier → u32val.Carrier → Soroban → Access (Result bytes_object.Carrier F × Soroban)
  pub bytes_copy_to_linear_memory_mem :
      bytes_object.Carrier
      → u32val.Carrier
      → u32val.Carrier
      → u32val.Carrier
      → Soroban
      → Access (Result void.Carrier F × Soroban)
  pub map_unpack_to_linear_memory_fn_mem :
      map_object.Carrier
      → u32val.Carrier
      → u32val.Carrier
      → u32val.Carrier
      → Soroban
      → Access (Result void.Carrier F × Soroban)
  pub vec_unpack_to_linear_memory_mem :
      vec_object.Carrier
      → u32val.Carrier
      → u32val.Carrier
      → Soroban
      → Access (Result void.Carrier F × Soroban)
  -- the functions of env.json
  pub functions : List (EnvFunction F Soroban)
