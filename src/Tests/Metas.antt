-- ===== src/Tests/Metas.antt =====
-- A ledger close meta that events are added to, at concrete inputs.
use zephyr_vm.Prelude.{ℕ, ◌≡◌, refl, ⊤, none, List, [], ◌∷◌, ◌++◌, arith}
use zephyr_vm.Errors.{ok}
use zephyr_vm.CloseMeta.{
  LedgerHeader, ContractEvent, TransactionEnvelope, other_envelope, TransactionPhase, v0_phase,
  TxSetComponent, LedgerCloseMetaV1, meta_v1,
}
use zephyr_vm.Factory.{
  Xdr, TransitionPretty, set_append, sample_envelope, sample_result, contract_event,
}
use zephyr_vm.Factory.Reads.{soroban_events}
use zephyr_vm.Factory.Appends.{set_append-last_phase}
use zephyr_vm.Factory.Events.{event_of, contract_event-appends}

abbrev header : LedgerHeader ⊤
header = record { ledger_seq = 5; close_time = 60; header_rest = tt }

-- One component without a base fee, with these many transactions of a kind.
abbrev component : List (TransactionEnvelope ℕ ⊤) → TxSetComponent ℕ ⊤
component txs = record { base_fee = none; txs = txs }

abbrev meta_of : List (TransactionPhase ℕ ⊤) → LedgerCloseMetaV1 ℕ ⊤
meta_of phases = record {
  ledger_header = header;
  phases = phases;
  tx_set_rest = tt;
  tx_processing = [];
  v1_rest = tt;
}

-- A value is a number, the void one 0, and an address is its hash.
abbrev pub plain_xdr : Xdr ⊤
plain_xdr = record {
  ScVal = ℕ;
  Other = ⊤;
  void = 0;
  sample_ledger = [];
  meta_from_xdr_base64 = λ text. ok (meta_v1 (meta_of []));
  meta_to_xdr = λ meta. ok (5 ∷ []);
  meta_to_xdr_base64 = λ meta. ok [];
  contract_from_string = λ address. ok address;
}

abbrev tx : TransactionEnvelope ℕ ⊤
tx = other_envelope tt

-- Two phases, as in the sample ledger, and a transaction in the second.
abbrev two_phases : LedgerCloseMetaV1 ℕ ⊤
two_phases = meta_of (v0_phase (component [] ∷ []) ∷ v0_phase (component (tx ∷ []) ∷ []) ∷ [])

abbrev pub quiet : TransitionPretty ℕ ⊤
quiet = record { inner = record { meta = meta_v1 two_phases } }

-- The contract 7 emits the value 2 under the topic 1.
abbrev emitted : ContractEvent ℕ
emitted = event_of (7 ∷ []) (1 ∷ []) 2

abbrev grown_meta : LedgerCloseMetaV1 ℕ ⊤
grown_meta = record two_phases {
  phases =
      v0_phase (component [] ∷ []) ∷ v0_phase (component (sample_envelope (7 ∷ []) ∷ []) ∷ []) ∷ [];
  tx_processing = sample_result 0 emitted ∷ [];
}

contract_event-appends_example :
    (contract_event plain_xdr (7 ∷ []) (1 ∷ []) 2 quiet
      ≡ (ok emitted, record { inner = record { meta = meta_v1 grown_meta } }))
    × (soroban_events (meta_v1 grown_meta) ≡ soroban_events (meta_v1 two_phases) ++ (emitted ∷ []))
contract_event-appends_example =
    contract_event-appends plain_xdr (7 ∷ []) (7 ∷ []) (1 ∷ []) 2 two_phases
      (v0_phase (component [] ∷ []) ∷ []) (v0_phase (component (tx ∷ []) ∷ [])) [] (component [])
      refl (omega arith) refl refl (omega arith) (omega arith) (omega arith) (omega arith)

abbrev after : TransitionPretty ℕ ⊤
after = (contract_event plain_xdr (7 ∷ []) (1 ∷ []) 2 quiet).1

-- The second phase, with its transaction, is lost.
set_append-last_phase_example :
    set_append {E = ⊤} (sample_envelope (7 ∷ [])) (record {
      meta =
          meta_v1
            (meta_of (v0_phase (component [] ∷ []) ∷ v0_phase (component (tx ∷ []) ∷ []) ∷ []));
    })
    ≡ (
      ok tt,
      record {
        meta = meta_v1 (
            meta_of (
              v0_phase (component [] ∷ [])
              ∷ v0_phase (component (sample_envelope (7 ∷ []) ∷ []) ∷ [])
              ∷ []));
      },
    )
set_append-last_phase_example =
    set_append-last_phase (sample_envelope (7 ∷ []))
      (meta_of (v0_phase (component [] ∷ []) ∷ v0_phase (component (tx ∷ []) ∷ []) ∷ []))
      (v0_phase (component [] ∷ []) ∷ []) (v0_phase (component (tx ∷ []) ∷ [])) [] (component [])
      refl refl (omega arith) (omega arith) (omega arith)
