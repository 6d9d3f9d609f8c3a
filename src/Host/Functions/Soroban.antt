-- ===== src/Host/Functions/Soroban.antt =====
-- The functions that reach into the embedded Soroban host: `soroban_adjusted`, the closure of
-- `read_contract_entries_to_env` and the generated functions, of rs-zephyr-env/src/host.rs and
-- soroban_host_gen.rs.
use zephyr_vm.Prelude.{ℕ, true, false, String, List, [], ◌∷◌}
use zephyr_vm.Errors.{Result}
use zephyr_vm.Exec.{Exec, pure, lift, caught, unwrap, unwrapped, ◌>>=◌, ◌>>◌}
use zephyr_vm.Trace.{
  text, number, numbers, problem, library_value, soroban_environment, ledger_impl,
}
use zephyr_vm.Soroban.{ArgType, EnvFunction}
use zephyr_vm.Soroban.Marshal.{
  try_marshal_from_relative_value, build_u32val, with_frame, dispatch_function,
}
use zephyr_vm.Platform.{Platform}
use zephyr_vm.Host.{Host, Handler}
use zephyr_vm.Host.State.{trace}
use zephyr_vm.Host.Memory.{memory_manager, read_segment_from_memory}
use zephyr_vm.Host.Context.{on_soroban, with_context, foreign_errors}
use zephyr_vm.Host.Soroban.{
  scval_to_valid_host_val, valid_host_val_to_scval, read_contract_entries_to_env,
  simulate_soroban_transaction,
}
use zephyr_vm.Host.Functions.{handled, placed, failed_with_place}

abbrev Effect : Platform → Type 0 → Type 0
Effect P A = Exec (Host P) P.Foreign A

module _ (P : Platform) where
  -- The number that stands for a value at a function, unwrapped.
  abbrev marshalled : (T : ArgType P.Foreign P.soroban.Soroban) → ℕ → Effect P T.Carrier
  marshalled T v =
      on_soroban (unwrapped (try_marshal_from_relative_value P.soroban T P.soroban.invalid_input v))

  abbrev checked : (T : ArgType P.Foreign P.soroban.Soroban) → T.Carrier → Effect P T.Carrier
  checked T x = on_soroban (T.check_env_arg x)

  abbrev u32_arg : ℕ → Effect P P.soroban.u32val.Carrier
  u32_arg int = on_soroban (build_u32val P.soroban int)

  abbrev framed :
      (G : ArgType P.Foreign P.soroban.Soroban) → Result G.Carrier P.Foreign → Effect P ℕ
  framed G result = on_soroban (with_frame P.soroban G result)

module _ {P : Platform} where
  -- A value is answered by its payload; an error goes on the trace and is answered by 0.
  unfoldable pub payload_or_zero : String → Effect P ℕ → Handler P (List ℕ)
  payload_or_zero message effect =
      handled (foreign_errors effect) (λ val. pure (val ∷ []))
        λ e.
          (trace soroban_environment (text "Hit error " ∷ problem e ∷ text message ∷ []) true
            >> pure (0 ∷ []))

  unfoldable pub scval_to_valid_host_val_fn : ℕ → ℕ → Handler P (List ℕ)
  scval_to_valid_host_val_fn offset size = do
    manager ← unwrapped memory_manager
    bytes ← lift (unwrap (read_segment_from_memory P manager.memory (offset, size)))
    trace soroban_environment (text "Building ScVal from bytes " ∷ numbers bytes ∷ text "." ∷ [])
        false
    scval ← lift (unwrap (P.scval_from_xdr bytes))
    trace soroban_environment
        (text "Converting ScVal " ∷ library_value ∷ text " to a valid host value." ∷ []) false
    handled (scval_to_valid_host_val {P = P} scval) (λ res. pure (P.success ∷ res ∷ []))
        λ e.
          (trace soroban_environment
              (text "Hit error "
                ∷ problem e
                ∷ text " while converting ScVal "
                ∷ library_value
                ∷ text " to a valid host value."
                ∷ [])
              true
            >> pure (P.status e ∷ 0 ∷ []))

  unfoldable pub valid_host_val_to_scval_fn : ℕ → Handler P (List ℕ)
  valid_host_val_to_scval_fn val = do
    trace soroban_environment (text "Converting host val " ∷ number val ∷ text " to ScVal." ∷ [])
        false
    handled (valid_host_val_to_scval val) placed λ e.
        (trace soroban_environment
            (text "Hit error "
              ∷ problem e
              ∷ text " while converting host val "
              ∷ number val
              ∷ text " to ScVal."
              ∷ [])
            true
          >> failed_with_place e)

  unfoldable pub string_from_linmem : ℕ → ℕ → Handler P (List ℕ)
  string_from_linmem lm_pos len = do
    trace soroban_environment (text "Creating soroban string from ZVM linear memory." ∷ []) false
    payload_or_zero " while reating soroban string from ZVM linear memory." do
      pos ← u32_arg P lm_pos
      size ← u32_arg P len
      result ← caught (with_context false (P.soroban.string_new_from_linear_memory_mem pos size))
      framed P P.soroban.string_object result

  unfoldable pub symbol_from_linmem : ℕ → ℕ → Handler P (List ℕ)
  symbol_from_linmem lm_pos len = do
    trace soroban_environment (text "Creating soroban symbol from ZVM linear memory." ∷ []) false
    payload_or_zero " while creating soroban string from ZVM linear memory." do
      pos ← u32_arg P lm_pos
      size ← u32_arg P len
      result ← caught (with_context false (P.soroban.symbol_new_from_linear_memory_mem pos size))
      framed P P.soroban.symbol_object result

  unfoldable pub symbol_index_from_linmem : ℕ → ℕ → ℕ → Handler P (List ℕ)
  symbol_index_from_linmem sym lm_pos len = do
    trace soroban_environment (text "Finding soroban symbol in ZVM linear memory slices." ∷ [])
        false
    payload_or_zero " while finding soroban symbol in ZVM linear memory slices." do
      symbol ← marshalled P P.soroban.symbol sym
      checked_symbol ← unwrapped (checked P P.soroban.symbol symbol)
      pos ← u32_arg P lm_pos
      size ← u32_arg P len
      res ←
          caught (
            with_context false
              (P.soroban.symbol_index_in_linear_memory_mem checked_symbol pos size))
      framed P P.soroban.u32val res

  unfoldable pub vec_new_from_linear_memory_mem : ℕ → ℕ → Handler P (List ℕ)
  vec_new_from_linear_memory_mem lm_pos len = do
    trace soroban_environment (text "Creating soroban vector from ZVM linear memory." ∷ []) false
    payload_or_zero " while creating soroban vector from ZVM linear memory." do
      pos ← u32_arg P lm_pos
      size ← u32_arg P len
      res ← caught (with_context false (P.soroban.vec_new_from_linear_memory_mem pos size))
      framed P P.soroban.vec_object res

  unfoldable pub map_new_from_linear_memory_mem : ℕ → ℕ → ℕ → Handler P (List ℕ)
  map_new_from_linear_memory_mem key_pos val_pos len = do
    trace soroban_environment (text "Creating soroban map from ZVM linear memory." ∷ []) false
    payload_or_zero " while creating soroban map from ZVM linear memory." do
      keys ← u32_arg P key_pos
      vals ← u32_arg P val_pos
      size ← u32_arg P len
      res ← caught (with_context false (P.soroban.map_new_from_linear_memory_mem keys vals size))
      framed P P.soroban.map_object res

  unfoldable pub bytes_new_from_linear_memory_mem : ℕ → ℕ → Handler P (List ℕ)
  bytes_new_from_linear_memory_mem lm_pos len = do
    trace soroban_environment (text "Creating soroban bytes from ZVM linear memory." ∷ []) false
    payload_or_zero " while creating soroban bytes from ZVM linear memory." do
      pos ← u32_arg P lm_pos
      size ← u32_arg P len
      res ← caught (with_context false (P.soroban.bytes_new_from_linear_memory_mem pos size))
      framed P P.soroban.bytes_object res

  -- In the functions that write to linear memory the errors of the arguments go through the frame.
  unfoldable pub bytes_copy_to_linear_memory_mem : ℕ → ℕ → ℕ → ℕ → Handler P (List ℕ)
  bytes_copy_to_linear_memory_mem b b_pos lm_pos len = do
    trace soroban_environment (text "Copying soroban bytes to ZVM linear memory." ∷ []) false
    payload_or_zero " while creating soroban bytes from ZVM linear memory." do
      res ← caught do
        bytes ← marshalled P P.soroban.bytes_object b
        bytes_obj ← checked P P.soroban.bytes_object bytes
        b_pos_val ← u32_arg P b_pos
        lm_pos_val ← u32_arg P lm_pos
        len_val ← u32_arg P len
        with_context true
            (P.soroban.bytes_copy_to_linear_memory_mem bytes_obj b_pos_val lm_pos_val len_val)
      framed P P.soroban.void res

  unfoldable pub map_unpack_to_linear_memory_fn_mem : ℕ → ℕ → ℕ → ℕ → Handler P (List ℕ)
  map_unpack_to_linear_memory_fn_mem map keys_pos vals_pos len = do
    trace soroban_environment (text "Unpacking soroban map to ZVM linear memory." ∷ []) false
    payload_or_zero " while unpacking soroban map to ZVM linear memory." do
      res ← caught do
        object ← marshalled P P.soroban.map_object map
        map_obj ← unwrapped (checked P P.soroban.map_object object)
        keys ← u32_arg P keys_pos
        vals ← u32_arg P vals_pos
        size ← u32_arg P len
        with_context true (P.soroban.map_unpack_to_linear_memory_fn_mem map_obj keys vals size)
      framed P P.soroban.void res

  unfoldable pub vec_unpack_to_linear_memory_fn_mem : ℕ → ℕ → ℕ → Handler P (List ℕ)
  vec_unpack_to_linear_memory_fn_mem vec vals_pos len = do
    trace soroban_environment (text "Unpacking soroban vector to ZVM linear memory." ∷ []) false
    payload_or_zero " while creating soroban bytes from ZVM linear memory." do
      res ← caught do
        object ← marshalled P P.soroban.vec_object vec
        vec_obj ← unwrapped (checked P P.soroban.vec_object object)
        vals ← u32_arg P vals_pos
        size ← u32_arg P len
        with_context true (P.soroban.vec_unpack_to_linear_memory_mem vec_obj vals size)
      framed P P.soroban.void res

  -- It answers 0 whatever it is given.
  unfoldable pub i128_from_pieces : ℕ → Handler P (List ℕ)
  i128_from_pieces obj = do
    trace soroban_environment (text "I128 from pieces." ∷ []) false
    pure (0 ∷ [])

  unfoldable pub soroban_simulate_tx_fn : List ℕ → ℕ → ℕ → Handler P (List ℕ)
  soroban_simulate_tx_fn parts offset size =
      handled (simulate_soroban_transaction (P.array_from_max_parts parts) offset size) placed
        failed_with_place

  unfoldable pub read_contract_entries_to_env_fn : List ℕ → Handler P (List ℕ)
  read_contract_entries_to_env_fn parts = do
    let contract = P.array_from_max_parts parts
    trace ledger_impl
        (text "Reading to soroban value all contract entries for contract "
          ∷ numbers contract
          ∷ text "."
          ∷ [])
        false
    handled (read_contract_entries_to_env contract) (λ res. pure (P.success ∷ res ∷ []))
        λ e. pure (P.status e ∷ 0 ∷ [])

-- A function of env.json.
unfoldable pub generated_fn :
    (P : Platform) → EnvFunction P.Foreign P.soroban.Soroban → List ℕ → Handler P (List ℕ)
generated_fn P f args = do
  val ←
      foreign_errors {P = P} (on_soroban {P = P} (dispatch_function P.soroban f.ident f.chain args))
  pure (val ∷ [])
