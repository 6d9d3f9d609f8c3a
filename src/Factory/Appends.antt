-- ===== src/Factory/Appends.antt =====
-- What the methods of a transition add to its ledger close meta:
-- ledger-meta-factory/src/lib.rs.
use zephyr_vm.Prelude.{
  ℕ, ◌≡◌, ◌≤◌, ◌-◌, ◌^◌, ◌+◌, refl, subst, some, List, [], ◌∷◌, ◌++◌, length, length-append,
  get_elem?, arith,
}
use zephyr_vm.Errors.{ok}
use zephyr_vm.Exec.{◌>>=◌}
use zephyr_vm.CloseMeta.{
  TransactionEnvelope, TxSetComponent, TransactionPhase, v0_phase, LedgerCloseMetaV1, meta_v1,
}
use zephyr_vm.Factory.{bounded, with_tx, v0_components, phases_with, appended, set_append}
use zephyr_vm.Factory.Reads.{last-append, set_index-append, bounded-ok}

-- How many elements a `VecM` holds at most.
abbrev pub u32_max : ℕ
u32_max = 2 ^ 32 - 1

module _ {A E : Type 0} where
  pub bounded-append :
      (xs : List A) (x : A)
      → length xs + 1 ≤ u32_max
      → bounded {E = E} (xs ++ (x ∷ [])) ≡ ok (xs ++ (x ∷ []))
  bounded-append xs x room = bounded-ok (xs ++ (x ∷ [])) (omega (length-append xs (x ∷ []), arith))

module _ {ScVal Other E : Type 0} where
  with_tx-last :
      (components : List (TxSetComponent ScVal Other)) (component : TxSetComponent ScVal Other)
      (tx : TransactionEnvelope ScVal Other)
      → length component.txs + 1 ≤ u32_max
      → with_tx {E = E} (components ++ (component ∷ [])) tx
        ≡ ok (components ++ (record component { txs = component.txs ++ (tx ∷ []) } ∷ []))
  unfolding with_tx
  with_tx-last components component tx room =
      rw (last-append components component, bounded-append {E = E} component.txs tx room)
        (set_index-append components component _)

  pub phases_with-last :
      (tx : TransactionEnvelope ScVal Other) (phases : List (TransactionPhase ScVal Other))
      (last_phase : TransactionPhase ScVal Other) (components : List (TxSetComponent ScVal Other))
      (component : TxSetComponent ScVal Other)
      → get_elem? (phases ++ (last_phase ∷ [])) 0 ≡ some (v0_phase (components ++ (component ∷ [])))
      → length phases + 1 ≤ u32_max
      → length components + 1 ≤ u32_max
      → length component.txs + 1 ≤ u32_max
      → let grown = record component { txs = component.txs ++ (tx ∷ []) } in
        phases_with {E = E} (phases ++ (last_phase ∷ [])) tx
        ≡ ok (phases ++ (v0_phase (components ++ (grown ∷ [])) ∷ []))
  unfolding phases_with v0_components
  phases_with-last tx phases last_phase components component first fit fit' fit'' =
      rw
        (
          first,
          with_tx-last components component tx fit'',
          bounded-append {E = E} components (record component { txs = component.txs ++ (tx ∷ []) })
              fit',
          set_index-append {E = E} phases last_phase (
              v0_phase
                (components ++ (record component { txs = component.txs ++ (tx ∷ []) } ∷ []))),
        )
        (bounded-append phases _ fit)

  -- In a set whose first phase has components of transactions, with room for one more in each list, a
  -- transaction goes behind those of the first phase's last component, and the phase that results
  -- replaces the last phase: with two phases, the second is lost and the first stands twice, once
  -- without and once with the transaction.
  pub set_append-last_phase :
      (tx : TransactionEnvelope ScVal Other) (v1 : LedgerCloseMetaV1 ScVal Other)
      (phases : List (TransactionPhase ScVal Other)) (last_phase : TransactionPhase ScVal Other)
      (components : List (TxSetComponent ScVal Other)) (component : TxSetComponent ScVal Other)
      → v1.phases ≡ phases ++ (last_phase ∷ [])
      → get_elem? v1.phases 0 ≡ some (v0_phase (components ++ (component ∷ [])))
      → length phases + 1 ≤ u32_max
      → length components + 1 ≤ u32_max
      → length component.txs + 1 ≤ u32_max
      → let grown = record component { txs = component.txs ++ (tx ∷ []) } in
        set_append {E = E} tx (record { meta = meta_v1 v1 }) ≡ (
          ok tt,
          record {
            meta =
                meta_v1
                  (record v1 { phases = phases ++ (v0_phase (components ++ (grown ∷ [])) ∷ []) });
          },
        )
  unfolding set_append appended ◌>>=◌
  set_append-last_phase tx v1 phases last_phase components component split first fit fit' fit'' =
      rw
        (
          split,
          phases_with-last tx phases last_phase components component
              (subst (λ ps. get_elem? ps 0 ≡ some (v0_phase (components ++ (component ∷ [])))) split
                first)
              fit fit' fit'',
        )
        refl
