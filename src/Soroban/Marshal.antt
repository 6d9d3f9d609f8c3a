-- ===== src/Soroban/Marshal.antt =====
-- Marshalling between the numbers of the guest and the values of the environment, and the frame in
-- which its functions run: rs-zephyr-env/src/soroban_host_gen.rs.
use zephyr_vm.Prelude.{ℕ, Option, none, some, String, List, [], ◌∷◌}
use zephyr_vm.Errors.{Result, ok, err, panic}
use zephyr_vm.Exec.{Exec, pure, lift, abort, ok_or, attempt, ◌>>=◌, ◌>>◌}
use zephyr_vm.Soroban.{ArgType, Conversion, Chain, run, arg, SorobanEnv}

-- `unwrap_or`
abbrev pub or_else : {A : Type 0} → Option A → A → A
or_else none backup = backup
or_else (some a) backup = a

module _ {F ScVal ContractDataEntry : Type 0} (env : SorobanEnv F ScVal ContractDataEntry) where
  open env use {Soroban}

  -- A conversion by the host, for a type that can carry an object; nothing for another.
  converted :
      {Carrier : Type 0}
      → Option (Conversion F Carrier)
      → (ℕ → Exec Soroban F ℕ)
      → Carrier
      → Exec Soroban F Carrier
  converted none convert x = pure x
  converted (some c) convert x = do v ← convert (c.into x); lift (c.try_from v)

  unfoldable pub absolute_to_relative :
      (T : ArgType F Soroban) → T.Carrier → Exec Soroban F T.Carrier
  unfolding converted
  absolute_to_relative T = converted T.conversion env.absolute_to_relative

  unfoldable pub relative_to_absolute :
      (T : ArgType F Soroban) → T.Carrier → Exec Soroban F T.Carrier
  unfolding converted
  relative_to_absolute T = converted T.conversion env.relative_to_absolute

  -- The trap that is made where the number is no value of the type; every caller maps it or
  -- unwraps it.
  unfoldable pub try_marshal_from_relative_value :
      (T : ArgType F Soroban) → F → ℕ → Exec Soroban F T.Carrier
  try_marshal_from_relative_value T trap v = do
    val ← ok_or (T.try_marshal_from_value v) trap
    absolute ← attempt (relative_to_absolute T val)
    pure (or_else absolute val)

  -- The number of the relative value, if it is a `Value::I64`.
  unfoldable pub marshal_relative_from_self :
      (T : ArgType F Soroban) → T.Carrier → Exec Soroban F (Option ℕ)
  marshal_relative_from_self T x = do
    relative ← attempt (absolute_to_relative T x)
    pure (T.marshal_from_self (or_else relative x))

  unfoldable pub build_u32val : ℕ → Exec Soroban F env.u32val.Carrier
  build_u32val int = do
    val ← try_marshal_from_relative_value env.u32val env.invalid_input int
    env.u32val.check_env_arg val

  -- What the frame of `with_frame` runs.
  unfoldable pub framed_result : (G : ArgType F Soroban) → Result G.Carrier F → Exec Soroban F ℕ
  framed_result G result = do
    res ← lift result
    checked ← G.check_env_arg res
    val ← marshal_relative_from_self G checked
    ok_or val env.contract_error

  unfoldable pub with_frame : (G : ArgType F Soroban) → Result G.Carrier F → Exec Soroban F ℕ
  with_frame G result = env.with_test_contract_frame (framed_result G result)

  -- The arguments are marshalled and checked from left to right, then the function is called. wasmi
  -- calls it with as many numbers as its type has.
  unfoldable pub effects :
      {G : ArgType F Soroban} → Chain F Soroban G → List ℕ → Exec Soroban F G.Carrier
  effects (run call) args = call
  effects (arg T next) [] = abort
  effects (arg T next) (a ∷ args) = do
    val ← try_marshal_from_relative_value T env.contract_error a
    checked ← T.check_env_arg val
    effects (next checked) args

  -- A result is marshalled, or 0 where that is no I64; an error is escalated and gives 0.
  escalated : (G : ArgType F Soroban) → String → Result G.Carrier F → Exec Soroban F ℕ
  escalated G name (ok res) = do
    checked ← G.check_env_arg res
    val ← marshal_relative_from_self G checked
    pure (or_else val 0)
  escalated G name (err e) = env.error e name >> pure 0
  escalated G name panic = abort

  unfoldable pub in_frame :
      {G : ArgType F Soroban} → String → Chain F Soroban G → List ℕ → Exec Soroban F ℕ
  unfolding escalated
  in_frame {G} name chain args s = let (res, s') = effects chain args s in escalated G name res s'

  -- The function that `generate_dispatch_functions` makes of an entry of env.json.
  unfoldable pub dispatch_function :
      {G : ArgType F Soroban} → String → Chain F Soroban G → List ℕ → Exec Soroban F ℕ
  dispatch_function name chain args = do
    _ ← attempt env.enable_debug
    val ← attempt (env.with_test_contract_frame (in_frame name chain args))
    pure (or_else val 0)
