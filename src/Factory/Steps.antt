-- ===== src/Factory/Steps.antt =====
-- Every way to go from one transition to another with the methods of
-- ledger-meta-factory/src/lib.rs.
use zephyr_vm.Prelude.{ℕ, ◌≡◌, List, [], ◌∷◌, ◌++◌, length, ◌+◌}
use zephyr_vm.Errors.{ok, err}
use zephyr_vm.CloseMeta.{ContractEvent, LedgerCloseMeta}
use zephyr_vm.Factory.{Xdr, TransitionPretty, contract_event, set_sequence, set_close_time}
use zephyr_vm.Factory.Reads.{results, phase_count, soroban_events}

module _ {ScVal Other : Type 0} where
  -- A meta that holds these events more, behind the others, with one result more for each and the
  -- same number of phases.
  abbrev pub Records :
      List (ContractEvent ScVal)
      → LedgerCloseMeta ScVal Other
      → LedgerCloseMeta ScVal Other
      → Type 0
  Records events m m' =
      (soroban_events m' ≡ soroban_events m ++ events)
      × (length (results m') ≡ length (results m) + length events)
      × (phase_count m' ≡ phase_count m)

module _ {F : Type 0} (xdr : Xdr F) where
  open xdr use {ScVal, Other}

  -- What calls that do not panic make of a transition, with the events that they answered.
  pub data Reach (t : TransitionPretty ScVal Other)
      : List (ContractEvent ScVal) → TransitionPretty ScVal Other → Type 0 where
    start : Reach t [] t
    sequenced :
        (n : ℕ) (events : List (ContractEvent ScVal)) (u : TransitionPretty ScVal Other)
        → Reach t events u
        → Reach t events (record { inner = (set_sequence {E = F} n u.inner).1 })
    timed :
        (n : ℕ) (events : List (ContractEvent ScVal)) (u : TransitionPretty ScVal Other)
        → Reach t events u
        → Reach t events (record { inner = (set_close_time {E = F} n u.inner).1 })
    added :
        (contract : List ℕ) (topics : List ScVal) (event_data : ScVal) (event : ContractEvent ScVal)
        (events : List (ContractEvent ScVal)) (u : TransitionPretty ScVal Other)
        → Reach t events u
        → (contract_event xdr contract topics event_data u).0 ≡ ok event
        → Reach t (events ++ (event ∷ [])) (contract_event xdr contract topics event_data u).1
    refused :
        (contract : List ℕ) (topics : List ScVal) (event_data : ScVal) (error : F)
        (events : List (ContractEvent ScVal)) (u : TransitionPretty ScVal Other)
        → Reach t events u
        → (contract_event xdr contract topics event_data u).0 ≡ err error
        → Reach t events (contract_event xdr contract topics event_data u).1
