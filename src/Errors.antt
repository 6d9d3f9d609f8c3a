-- ===== src/Errors.antt =====
-- Error values: rs-zephyr-env/src/error.rs, and the outcome of a Rust computation.
-- `F` stands for the errors of the libraries that the code calls (wasmi, bincode, the Soroban
-- host, the channel).
use zephyr_vm.Prelude.{⊤, ◌≡◌, refl, ◌⊎◌, inl, inr}

-- A `Result`, with the outcome that unwinds or aborts the process beside it.
pub data Result (A E : Type 0) : Type 0 where
  ok : A → Result A E
  err : E → Result A E
  panic : Result A E

-- What a computation returns, if it does, has the property.
abbrev pub Returns : {A E : Type 0} → (A → Type 0) → Result A E → Type 0
Returns Q (ok a) = Q a
Returns Q (err e) = ⊤
Returns Q panic = ⊤

pub data InternalError : Type 0 where
  wasmi_config arith_error cannot_upgrade_rc : InternalError

pub data HostError (F : Type 0) : Type 0 where
  no_entry_point_export extern_not_a_function context_already_exists no_context : HostError F
  no_memory_export no_val_on_stack ledger_close_meta_overridden no_ledger_close_meta : HostError F
  no_ledger_entry invalid_function_result no_transmitter : HostError F
  internal_error : InternalError → HostError F
  soroban_host : HostError F
  soroban_host_with_context : F → HostError F

-- The database errors of rs_zephyr_common, as far as the repository names them.
pub data DatabaseError : Type 0 where
  operator_error write_on_read_only read_on_write_only write_error : DatabaseError
  zephyr_query_error zephyr_query_malformed : DatabaseError

-- `anyhow::Error`: whichever of them a `?` or an `into()` has wrapped.
pub data Error (F : Type 0) : Type 0 where
  host : HostError F → Error F
  database : DatabaseError → Error F
  foreign : F → Error F

-- Values, or the panic that ends the process, and no error.
abbrev pub Answered : {A E : Type 0} → (A → Type 0) → Result A E → Type 0
Answered Q (ok a) = Q a
Answered Q (err e) = ⊥
Answered Q panic = ⊤

pub Result-cases :
    {A E : Type 0} (r : Result A E)
    → ((a : A) × (r ≡ ok a)) ⊎ (((e : E) × (r ≡ err e)) ⊎ (r ≡ panic))
Result-cases (ok a) = inl (a, refl)
Result-cases (err e) = inr (inl (e, refl))
Result-cases panic = inr (inr refl)
