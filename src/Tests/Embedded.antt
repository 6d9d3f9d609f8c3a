-- ===== src/Tests/Embedded.antt =====
-- The Soroban environment, the node's database and the simulation of the sample platform. The
-- Soroban host counts the calls of it; a value is its payload.
use zephyr_vm.Prelude.{ℕ, ◌+◌, ⊤, false, none, some, List, [], ◌∷◌, length}
use zephyr_vm.Errors.{Result, ok}
use zephyr_vm.Exec.{Exec, pure}
use zephyr_vm.Soroban.{Access, done, read, write, ArgType, SorobanEnv}
use zephyr_vm.Snapshot.{Store, other_key, other_entry}
use zephyr_vm.Platform.{Simulation}

-- A number that is its own value.
abbrev pub number_type : ArgType ⊤ ℕ
number_type = record {
  Carrier = ℕ;
  try_marshal_from_value = λ v. some v;
  marshal_from_self = λ v. some v;
  check_env_arg = λ v. pure v;
  conversion = none;
}

abbrev counted : ℕ → Exec ℕ ⊤ ℕ
counted v calls = (ok v, calls + 1)

abbrev done_with : ℕ → ℕ → Access (Result ℕ ⊤ × ℕ)
done_with v calls = done (ok v, calls + 1)

abbrev pub sample_soroban : SorobanEnv ⊤ ⊤ ⊤
sample_soroban = record {
  Soroban = ℕ;
  test_host = 0;
  reset_unlimited = pure tt;
  enable_debug = pure tt;
  with_mut_ledger_info = λ f. pure tt;
  add_contract_address = counted 0;
  register_test_contract = λ id. pure tt;
  with_test_contract_frame = λ m. m;
  absolute_to_relative = counted;
  relative_to_absolute = counted;
  error = λ e name. pure tt;
  to_valid_host_val = λ v. counted 9;
  scval_from_val = λ v. pure tt;
  map_new = counted 0;
  map_put = λ map key val. counted map;
  invalid_input = tt;
  contract_error = tt;
  scval_to_xdr = λ v. ok (1 ∷ 2 ∷ []);
  contract_data = λ e. none;
  is_contract_instance = λ v. false;
  u32val = number_type;
  symbol = number_type;
  string_object = number_type;
  symbol_object = number_type;
  vec_object = number_type;
  map_object = number_type;
  bytes_object = number_type;
  void = number_type;
  string_new_from_linear_memory_mem =
      λ pos len calls. read pos (0 ∷ 0 ∷ []) λ bytes. done_with (length bytes) calls;
  symbol_new_from_linear_memory_mem = λ pos len. done_with 1;
  symbol_index_in_linear_memory_mem = λ sym pos len. done_with 2;
  vec_new_from_linear_memory_mem = λ pos len. done_with 3;
  map_new_from_linear_memory_mem = λ keys vals len. done_with 4;
  bytes_new_from_linear_memory_mem = λ pos len. done_with 5;
  bytes_copy_to_linear_memory_mem =
      λ b b_pos lm_pos len calls. write lm_pos (b ∷ []) λ end. done_with end calls;
  map_unpack_to_linear_memory_fn_mem = λ map keys vals len. done_with 0;
  vec_unpack_to_linear_memory_mem = λ vec vals len. done_with 0;
  functions = [];
}

-- One row for every query, and no bytes but the empty ones.
abbrev pub sample_store : Store ⊤
sample_store = record {
  OtherEntry = ⊤;
  OtherKey = ⊤;
  Column = ℕ;
  first_row = λ query params. ok (some (4 ∷ 5 ∷ []));
  get_integer = λ columns i. ok 4;
  get_text = λ columns i. ok [];
  text_of_integer = λ n. n ∷ [];
  to_xdr_base64 = λ bytes. bytes;
  entry_from_xdr_base64 = λ text. ok (other_entry tt);
  entry_from_xdr = λ bytes. ok (other_entry tt);
  entry_to_xdr = λ e. ok [];
  key_from_xdr = λ bytes. ok (other_key tt);
  key_to_xdr = λ key. [];
  sha256 = λ bytes. bytes;
  public_key_to_string = λ key. key;
  contract_error = tt;
  invalid = tt;
}

abbrev pub sample_simulation : Simulation ⊤ sample_store
sample_simulation = record {
  HostFunction = List ℕ;
  NetworkConfig = ⊤;
  Response = List ℕ;
  host_function_from_xdr = λ bytes. ok bytes;
  default_ledger_info = record {
    protocol_version = 0;
    sequence_number = 0;
    timestamp = 0;
    network_id = [];
    max_entry_ttl = 0;
  };
  read_bucket_size = ok [];
  parse_bucket_size = λ text. ok 1;
  load_from_snapshot = λ get size. ok tt;
  fill_config_fields = λ config info. info;
  simulate = λ get archived config info f source. ok f;
  serialize = λ response. response;
}
