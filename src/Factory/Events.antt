-- ===== src/Factory/Events.antt =====
-- The events that are added to a transition, one by one: `contract_event` and the setters of
-- ledger-meta-factory/src/lib.rs.
use zephyr_vm.Prelude.{
  ℕ, ◌≡◌, ◌≤◌, ◌+◌, get_elem?, refl, ap, ◌∙◌, some, List, [], ◌∷◌, ◌++◌, length,
}
use zephyr_vm.Errors.{ok}
use zephyr_vm.Exec.{◌>>=◌}
use zephyr_vm.CloseMeta.{
  ContractEvent, v0_phase, TransactionPhase, LedgerCloseMeta, LedgerCloseMetaV1, TxSetComponent,
  meta_v1,
}
use zephyr_vm.Factory.{
  Xdr, Transition, TransitionPretty, processed, processing_append, add_sample_soroban_envelope,
  add_soroban_event, sample_envelope, sample_result, contract_event,
}
use zephyr_vm.Factory.Reads.{
  Adds, results, meta_events, result_events, soroban_events, result_events-append, bounded-ok,
}
use zephyr_vm.Factory.Appends.{u32_max, bounded-append, set_append-last_phase}

module _ {ScVal Other : Type 0} where
  pub Adds-events :
      (void : ScVal) (event : ContractEvent ScVal) (m m' : LedgerCloseMeta ScVal Other)
      → Adds (sample_result void event ∷ []) m m'
      → soroban_events m' ≡ soroban_events m ++ (event ∷ [])
  unfolding soroban_events meta_events sample_result
  Adds-events void event m m' adds =
      ap result_events adds.adds_results
      ∙ result_events-append (results m) (sample_result void event)

-- The event that `contract_event` makes.
abbrev pub event_of : {ScVal : Type 0} → List ℕ → List ScVal → ScVal → ContractEvent ScVal
event_of hash topics event_data = record {
  contract_id = some hash;
  type_ = "Contract";
  topics = topics;
  event_data = event_data;
}

module _ {F : Type 0} (xdr : Xdr F) where
  open xdr use {ScVal, Other}

  -- Once the address is read and the topics fit, what happens is what happens to the transition.
  contract_event-runs :
      (contract hash : List ℕ) (topics : List ScVal) (event_data : ScVal)
      (t : TransitionPretty ScVal Other) (t' : Transition ScVal Other)
      → xdr.contract_from_string contract ≡ ok hash
      → length topics ≤ u32_max
      → add_soroban_event {E = F} xdr.void (event_of hash topics event_data) t.inner ≡ (ok tt, t')
      → contract_event xdr contract topics event_data t
        ≡ (ok (event_of hash topics event_data), record { inner = t' })
  unfolding contract_event ◌>>=◌
  contract_event-runs contract hash topics event_data t t' parses few e =
      rw (parses, bounded-ok {E = F} topics few, e) refl

  -- A contract event, of an address that is read and with topics that fit, that is added to a meta of
  -- version 1 with room for it, of one phase or more of which the first has components: the event is
  -- answered, a reader of the meta finds it behind the events that were there, its result is the last
  -- of the processing, a call of that contract stands behind the transactions of the first phase in
  -- what replaces the last phase, and nothing else changes.
  pub contract_event-appends :
      (contract hash : List ℕ) (topics : List ScVal) (event_data : ScVal)
      (v1 : LedgerCloseMetaV1 ScVal Other) (phases : List (TransactionPhase ScVal Other))
      (last_phase : TransactionPhase ScVal Other) (components : List (TxSetComponent ScVal Other))
      (component : TxSetComponent ScVal Other)
      → xdr.contract_from_string contract ≡ ok hash
      → length topics ≤ u32_max
      → v1.phases ≡ phases ++ (last_phase ∷ [])
      → get_elem? v1.phases 0 ≡ some (v0_phase (components ++ (component ∷ [])))
      → length phases + 1 ≤ u32_max
      → length components + 1 ≤ u32_max
      → length component.txs + 1 ≤ u32_max
      → length v1.tx_processing + 1 ≤ u32_max
      → let event = event_of hash topics event_data in
        let grown = record component { txs = component.txs ++ (sample_envelope hash ∷ []) } in
        let v1' : LedgerCloseMetaV1 ScVal Other = record v1 {
          phases = phases ++ (v0_phase (components ++ (grown ∷ [])) ∷ []);
          tx_processing = v1.tx_processing ++ (sample_result xdr.void event ∷ []);
        } in
        (contract_event xdr contract topics event_data
            (record { inner = record { meta = meta_v1 v1 } })
          ≡ (ok event, record { inner = record { meta = meta_v1 v1' } }))
        × (soroban_events (meta_v1 v1') ≡ soroban_events (meta_v1 v1) ++ (event ∷ []))
  unfolding add_soroban_event add_sample_soroban_envelope processing_append processed soroban_events
      results meta_events sample_result ◌>>=◌
  contract_event-appends contract hash topics event_data v1 phases last_phase components component
        parses few split first fit fit' fit'' room =
      (
        contract_event-runs contract hash topics event_data _ _ parses few (
            rw
              (
                set_append-last_phase {E = F} (sample_envelope hash) v1 phases last_phase components
                    component split first fit fit' fit'',
                bounded-append {E = F} v1.tx_processing
                    (sample_result xdr.void (event_of hash topics event_data)) room,
              )
              refl),
        result_events-append v1.tx_processing
            (sample_result xdr.void (event_of hash topics event_data)),
      )
