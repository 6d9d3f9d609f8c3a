-- ===== src/CloseMeta.antt =====
-- The structures of stellar_xdr that ledger-meta-factory/src/lib.rs reads, sets or puts together.
-- Each has the fields that the code names, and the rest as one value.
use zephyr_vm.Prelude.{ℕ, Option, String, List}

-- `scp_value.close_time` is a field of its own here.
pub record LedgerHeader (Other : Type 0) : Type 0 where
  pub ledger_seq : ℕ
  pub close_time : ℕ
  pub header_rest : Other

module _ (ScVal : Type 0) where
  pub record ContractEvent : Type 0 where
    pub contract_id : Option (List ℕ)
    pub type_ : String
    pub topics : List ScVal
    pub event_data : ScVal

  pub record InvokeContractArgs : Type 0 where
    pub contract_address : List ℕ
    pub function_name : String
    pub args : List ScVal

module _ (ScVal Other : Type 0) where
  pub record SorobanTransactionMeta : Type 0 where
    pub return_value : ScVal
    pub diagnostic_events : List Other
    pub events : List (ContractEvent ScVal)

  pub record TransactionMetaV3 : Type 0 where
    pub tx_changes_before : List Other
    pub tx_changes_after : List Other
    -- the changes of each operation
    pub operations : List (List Other)
    pub soroban_meta : Option SorobanTransactionMeta

  pub data TransactionMeta : Type 0 where
    v3_meta : TransactionMetaV3 → TransactionMeta
    other_meta : Other → TransactionMeta

  pub data TransactionResultResult : Type 0 where
    tx_success : List Other → TransactionResultResult
    other_result : Other → TransactionResultResult

  pub record TransactionResultMeta : Type 0 where
    pub transaction_hash : List ℕ
    pub fee_charged : ℕ
    pub result : TransactionResultResult
    pub fee_processing : List Other
    pub tx_apply_processing : TransactionMeta

  -- An operation that calls a contract, with its authorizations, and the others.
  pub data OperationBody : Type 0 where
    invoke_contract : List Other → InvokeContractArgs ScVal → OperationBody
    other_operation : Other → OperationBody

  pub record Operation : Type 0 where
    pub source_account : Option Other
    pub body : OperationBody

  -- The source account by its key; no preconditions and no memo is `none`.
  pub record Transaction : Type 0 where
    pub source_account : List ℕ
    pub fee : ℕ
    pub seq_num : ℕ
    pub cond : Option Other
    pub memo : Option Other
    pub operations : List Operation

  pub data TransactionEnvelope : Type 0 where
    tx_envelope : Transaction → List Other → TransactionEnvelope
    other_envelope : Other → TransactionEnvelope

  -- `TxsetCompTxsMaybeDiscountedFee`, the one constructor of its type.
  pub record TxSetComponent : Type 0 where
    pub base_fee : Option ℕ
    pub txs : List TransactionEnvelope

  pub data TransactionPhase : Type 0 where
    v0_phase : List TxSetComponent → TransactionPhase
    other_phase : Other → TransactionPhase

  pub record LedgerCloseMetaV0 : Type 0 where
    pub ledger_header : LedgerHeader Other
    -- `tx_set.txs`, and what else is in the set
    pub txs : List TransactionEnvelope
    pub tx_set_rest : Other
    pub tx_processing : List TransactionResultMeta
    pub v0_rest : Other

  pub record LedgerCloseMetaV1 : Type 0 where
    pub ledger_header : LedgerHeader Other
    -- `tx_set`, whose one version has phases
    pub phases : List TransactionPhase
    pub tx_set_rest : Other
    pub tx_processing : List TransactionResultMeta
    pub v1_rest : Other

  pub data LedgerCloseMeta : Type 0 where
    meta_v0 : LedgerCloseMetaV0 → LedgerCloseMeta
    meta_v1 : LedgerCloseMetaV1 → LedgerCloseMeta
