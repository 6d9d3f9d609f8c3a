-- ===== src/Factory.antt =====
-- The ledger close metas that are made for tests: ledger-meta-factory/src/lib.rs.
pub mod Reads
pub mod Appends
pub mod Grows
pub mod Events
pub mod Steps
use zephyr_vm.Prelude.{
  ℕ, zero, suc, ◌-◌, ◌^◌, ◌%◌, ⊤, Option, none, some, String, List, [], ◌∷◌, ◌++◌, length,
  get_elem?, leb, if◌then◌else◌,
}
use zephyr_vm.Errors.{Result, ok, err, panic}
use zephyr_vm.CloseMeta.{
  LedgerHeader, ContractEvent, InvokeContractArgs, SorobanTransactionMeta, TransactionMetaV3,
  TransactionMeta, TransactionResultResult, TransactionResultMeta, OperationBody, Operation,
  Transaction, TransactionEnvelope, TxSetComponent, TransactionPhase, LedgerCloseMetaV0,
  LedgerCloseMetaV1, LedgerCloseMeta, v3_meta, other_meta, tx_success, other_result,
  invoke_contract, other_operation, tx_envelope, other_envelope, v0_phase, other_phase, meta_v0,
  meta_v1,
}
use zephyr_vm.Exec.{
  unwrap_some, Exec, pure, gets, lift, modify, unwrap, map_ok, and_then, ◌>>=◌, ◌>>◌,
}

module _ (ScVal Other : Type 0) where
  pub record Transition : Type 0 where
    pub meta : LedgerCloseMeta ScVal Other

  pub record TransitionPretty : Type 0 where
    pub inner : Transition

-- stellar_xdr and stellar_strkey.
pub record Xdr (F : Type 0) : Type 1 where
  pub ScVal : Type 0
  pub Other : Type 0
  pub void : ScVal
  pub sample_ledger : List ℕ
  pub meta_from_xdr_base64 : List ℕ → Result (LedgerCloseMeta ScVal Other) F
  pub meta_to_xdr : LedgerCloseMeta ScVal Other → Result (List ℕ) F
  pub meta_to_xdr_base64 : LedgerCloseMeta ScVal Other → Result (List ℕ) F
  -- `Contract::from_string`, whose address is the hash
  pub contract_from_string : List ℕ → Result (List ℕ) F

-- `try_into().unwrap()` of a list that grew: a `VecM` holds as many elements as a u32 counts.
unfoldable pub bounded : {A E : Type 0} → List A → Result (List A) E
bounded xs = if leb (length xs) (2 ^ 32 - 1) then ok xs else panic

-- `xs[i] = x`, and `xs[i]` and `last().unwrap()`
unfoldable pub set_index : {A E : Type 0} → List A → ℕ → A → Result (List A) E
set_index [] i x = panic
set_index (y ∷ ys) zero x = ok (x ∷ ys)
set_index (y ∷ ys) (suc i) x = let rest = set_index ys i x in map_ok (λ zs. y ∷ zs) rest

unfoldable pub last : {A : Type 0} → List A → Option A
last [] = none
last (x ∷ []) = some x
last (x ∷ y ∷ ys) = last (y ∷ ys)

abbrev zero_hash : List ℕ
zero_hash =
    0 ∷ 0 ∷ 0 ∷ 0 ∷ 0 ∷ 0 ∷ 0 ∷ 0 ∷ 0 ∷ 0 ∷ 0 ∷ 0 ∷ 0 ∷ 0 ∷ 0 ∷ 0 ∷ 0 ∷ 0 ∷ 0 ∷ 0 ∷ 0 ∷ 0 ∷ 0 ∷ 0
    ∷ 0 ∷ 0 ∷ 0 ∷ 0 ∷ 0 ∷ 0 ∷ 0 ∷ 0 ∷ []

module _ {F : Type 0} (xdr : Xdr F) where
  open xdr use {ScVal, Other}

  unfoldable pub new : Result (Transition ScVal Other) F
  new = map_ok (λ m. record { meta = m }) (unwrap (xdr.meta_from_xdr_base64 xdr.sample_ledger))

  unfoldable pub to_bytes : Transition ScVal Other → Result (List ℕ) F
  to_bytes t = unwrap (xdr.meta_to_xdr t.meta)

  unfoldable pub to_base64 : Transition ScVal Other → Result (List ℕ) F
  to_base64 t = unwrap (xdr.meta_to_xdr_base64 t.meta)

-- A method that changes the transition; without an error of its own, but for the panics.
abbrev pub Mutator : Type 0 → Type 0 → Type 0 → Type 0
Mutator ScVal Other E = Exec (Transition ScVal Other) E ⊤

module _ {ScVal Other : Type 0} where
  in_header :
      (LedgerHeader Other → LedgerHeader Other)
      → LedgerCloseMeta ScVal Other
      → LedgerCloseMeta ScVal Other
  in_header f (meta_v1 v1) = meta_v1 (record v1 { ledger_header = f v1.ledger_header })
  in_header f (meta_v0 v0) = meta_v0 (record v0 { ledger_header = f v0.ledger_header })

  -- A call of the contract's function `metafactory`.
  unfoldable pub sample_envelope : List ℕ → TransactionEnvelope ScVal Other
  sample_envelope contract_id =
      tx_envelope
        (record {
          source_account = zero_hash;
          fee = 10000;
          seq_num = 1;
          cond = none;
          memo = none;
          operations =
              record {
                source_account = none;
                body = invoke_contract [] (record {
                  contract_address = contract_id;
                  function_name = "metafactory";
                  args = [];
                });
              }
              ∷ [];
        })
        []

  -- The successful result of a transaction that emitted the event.
  unfoldable pub sample_result : ScVal → ContractEvent ScVal → TransactionResultMeta ScVal Other
  sample_result void event = record {
    transaction_hash = zero_hash;
    fee_charged = 0;
    result = tx_success [];
    fee_processing = [];
    tx_apply_processing = v3_meta (record {
      tx_changes_before = [];
      tx_changes_after = [];
      operations = [] ∷ [];
      soroban_meta =
          some (record { return_value = void; diagnostic_events = []; events = event ∷ [] });
    });
  }

module _ {ScVal Other E : Type 0} where
  -- The number is cast to a u32.
  unfoldable pub set_sequence : ℕ → Mutator ScVal Other E
  unfolding in_header
  set_sequence new_sequence = modify λ t. record t {
    meta = in_header (λ header. record header { ledger_seq = new_sequence % 2 ^ 32 }) t.meta;
  }

  -- An i64 and its u64 have the same pattern.
  unfoldable pub set_close_time : ℕ → Mutator ScVal Other E
  unfolding in_header
  set_close_time new_close_time = modify λ t. record t {
    meta = in_header (λ header. record header { close_time = new_close_time % 2 ^ 64 }) t.meta;
  }

  -- The transaction behind those of the last component.
  with_tx :
      List (TxSetComponent ScVal Other)
      → TransactionEnvelope ScVal Other
      → Result (List (TxSetComponent ScVal Other)) E
  with_tx v0phase tx = and_then (unwrap_some (last v0phase)) λ component.
      and_then (bounded (component.txs ++ (tx ∷ []))) λ txs.
        set_index v0phase (length v0phase - 1) (record { base_fee = component.base_fee; txs = txs })

  -- What `let TransactionPhase::V0(v0phase) = .. else { todo!() }` takes.
  v0_components : TransactionPhase ScVal Other → Result (List (TxSetComponent ScVal Other)) E
  v0_components (v0_phase v0phase) = ok v0phase
  v0_components (other_phase phase) = panic

  -- The first phase is read, and the last one is set.
  pub phases_with :
      List (TransactionPhase ScVal Other)
      → TransactionEnvelope ScVal Other
      → Result (List (TransactionPhase ScVal Other)) E
  unfolding with_tx v0_components
  phases_with phases tx = and_then (unwrap_some (get_elem? phases 0)) λ phase.
      and_then (v0_components phase) λ v0phase. and_then (with_tx v0phase tx) λ grown.
        and_then (bounded grown) λ components.
          and_then (set_index phases (length phases - 1) (v0_phase components)) bounded

  appended :
      LedgerCloseMeta ScVal Other
      → TransactionEnvelope ScVal Other
      → Result (LedgerCloseMeta ScVal Other) E
  unfolding phases_with
  appended (meta_v1 v1) tx =
      map_ok (λ phases. meta_v1 (record v1 { phases = phases })) (phases_with v1.phases tx)
  appended (meta_v0 v0) tx =
      map_ok (λ txs. meta_v0 (record v0 { txs = txs })) (bounded (v0.txs ++ (tx ∷ [])))

  unfoldable pub set_append : TransactionEnvelope ScVal Other → Mutator ScVal Other E
  unfolding appended
  set_append tx = do
    current ← gets (λ t. t.meta)
    grown ← lift (appended current tx)
    modify λ t. record t { meta = grown }

  processed :
      LedgerCloseMeta ScVal Other
      → TransactionResultMeta ScVal Other
      → Result (LedgerCloseMeta ScVal Other) E
  processed (meta_v1 v1) result =
      map_ok (λ results. meta_v1 (record v1 { tx_processing = results }))
        (bounded (v1.tx_processing ++ (result ∷ [])))
  processed (meta_v0 v0) result =
      map_ok (λ results. meta_v0 (record v0 { tx_processing = results }))
        (bounded (v0.tx_processing ++ (result ∷ [])))

  unfoldable pub processing_append : TransactionResultMeta ScVal Other → Mutator ScVal Other E
  unfolding processed
  processing_append result = do
    current ← gets (λ t. t.meta)
    grown ← lift (processed current result)
    modify λ t. record t { meta = grown }

  unfoldable pub add_sample_soroban_envelope : List ℕ → Mutator ScVal Other E
  add_sample_soroban_envelope contract_id = set_append (sample_envelope contract_id)

  unfoldable pub add_soroban_event : ScVal → ContractEvent ScVal → Mutator ScVal Other E
  add_soroban_event void event = do
    contract_id ← lift (unwrap_some event.contract_id)
    add_sample_soroban_envelope contract_id
    processing_append (sample_result void event)

module _ {F : Type 0} (xdr : Xdr F) where
  open xdr use {ScVal, Other}

  -- An event of the contract of that address. The error is the address's, and the topics have to fit
  -- a `VecM`.
  unfoldable pub contract_event :
      List ℕ → List ScVal → ScVal → Exec (TransitionPretty ScVal Other) F (ContractEvent ScVal)
  contract_event contract topics event_data t =
      let (r, inner) =
        (do
          hash ← lift (xdr.contract_from_string contract)
          topics' ← lift (bounded topics)
          let event : ContractEvent ScVal = record {
            contract_id = some hash;
            type_ = "Contract";
            topics = topics';
            event_data = event_data;
          }
          add_soroban_event xdr.void event
          pure event)
          t.inner in
      (r, record { inner = inner })
