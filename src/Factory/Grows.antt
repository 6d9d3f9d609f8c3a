-- ===== src/Factory/Grows.antt =====
-- What an event adds to any ledger close meta, where nothing panics: ledger-meta-factory/src/lib.rs.
use zephyr_vm.Prelude.{
  ℕ, zero, suc, ◌≡◌, refl, sym, ap, ◌∙◌, ⊤, ◌⊎◌, inl, inr, Option, none, some, List, [], ◌∷◌, ◌++◌,
  ◌-◌, get_elem?, length, append-nil,
}
use zephyr_vm.Errors.{Result, ok, err, panic, Answered}
use zephyr_vm.Exec.{bind_panic, and_then, map_ok, unwrap_some, ◌>>=◌}
use zephyr_vm.CloseMeta.{
  ContractEvent, TransactionResultMeta, TransactionEnvelope, TxSetComponent, TransactionPhase,
  v0_phase, other_phase, LedgerCloseMeta, meta_v0, meta_v1,
}
use zephyr_vm.Factory.{
  Transition, last, bounded, with_tx, v0_components, phases_with, appended, set_append, set_index,
  processed, processing_append, add_sample_soroban_envelope, add_soroban_event, sample_envelope,
  sample_result,
}
use zephyr_vm.Factory.Reads.{Adds, results, phase_count, bounded-cases}

-- An outcome without an error: a value of which this holds, or a panic.
record Fine {A E : Type 0} (Q : A → Type 0) (r : Result A E) : Type 0 where
  pub at : Answered Q r

module _ {E : Type 0} where
  Fine-and_then :
      {A B : Type 0} {Q : A → Type 0} {R : B → Type 0} (r : Result A E) (f : A → Result B E)
      → Fine Q r
      → ((a : A) → Q a → Fine R (f a))
      → Fine R (and_then r f)
  Fine-and_then (ok a) f q next = next a q.at
  Fine-and_then (err e) f q next = absurd q.at
  Fine-and_then panic f q next = record { at = tt }

  Fine-map_ok :
      {A B : Type 0} {Q : A → Type 0} {R : B → Type 0} (f : A → B) (r : Result A E)
      → Fine Q r
      → ((a : A) → Q a → R (f a))
      → Fine R (map_ok f r)
  Fine-map_ok f (ok a) q next = record { at = next a q.at }
  Fine-map_ok f (err e) q next = absurd q.at
  Fine-map_ok f panic q next = record { at = tt }

  Fine-weaken :
      {A : Type 0} {Q R : A → Type 0} (r : Result A E) → Fine Q r → ((a : A) → Q a → R a) → Fine R r
  Fine-weaken (ok a) q next = record { at = next a q.at }
  Fine-weaken (err e) q next = absurd q.at
  Fine-weaken panic q next = record { at = tt }

  Fine-unwrap_some : {A : Type 0} (o : Option A) → Fine {E = E} (λ _. ⊤) (unwrap_some o)
  Fine-unwrap_some none = record { at = tt }
  Fine-unwrap_some (some a) = record { at = tt }

  Fine-bounded : {A : Type 0} (xs : List A) → Fine {E = E} (λ ys. ys ≡ xs) (bounded xs)
  Fine-bounded xs = elim (bounded-cases {E = E} xs) [
    | inl e ↦ record { at = rw e refl }
    | inr e ↦ record { at = rw e tt }
  ]

  Fine-set_index :
      {A : Type 0} (xs : List A) (i : ℕ) (x : A)
      → Fine {E = E} (λ ys. length ys ≡ length xs) (set_index xs i x)
  unfolding set_index
  Fine-set_index [] i x = record { at = tt }
  Fine-set_index (y ∷ ys) zero x = record { at = refl }
  Fine-set_index (y ∷ ys) (suc i) x =
      Fine-map_ok (λ zs. y ∷ zs) (set_index ys i x) (Fine-set_index ys i x) λ zs same. ap suc same

  Fine-cases :
      {A : Type 0} {Q : A → Type 0} (r : Result A E)
      → Fine Q r
      → ((a : A) × (r ≡ ok a) × Q a) ⊎ (r ≡ panic)
  Fine-cases (ok a) q = inl (a, refl, q.at)
  Fine-cases (err e) q = absurd q.at
  Fine-cases panic q = inr refl

module _ {ScVal Other E : Type 0} where
  with_tx-Fine :
      (components : List (TxSetComponent ScVal Other)) (tx : TransactionEnvelope ScVal Other)
      → Fine {E = E} (λ _. ⊤) (with_tx components tx)
  unfolding with_tx
  with_tx-Fine components tx =
      Fine-and_then (unwrap_some (last components)) _ (Fine-unwrap_some (last components))
        λ component _.
          Fine-and_then (bounded (component.txs ++ (tx ∷ []))) _ (Fine-bounded _)
            λ txs _. Fine-weaken _ (Fine-set_index components _ _) λ ys _. tt

  v0_components-Fine :
      (phase : TransactionPhase ScVal Other) → Fine {E = E} (λ _. ⊤) (v0_components phase)
  unfolding v0_components
  v0_components-Fine (v0_phase components) = record { at = tt }
  v0_components-Fine (other_phase phase) = record { at = tt }

  -- A phase is replaced, and none is added.
  phases_with-Fine :
      (phases : List (TransactionPhase ScVal Other)) (tx : TransactionEnvelope ScVal Other)
      → Fine {E = E} (λ grown. length grown ≡ length phases) (phases_with phases tx)
  unfolding phases_with
  phases_with-Fine phases tx =
      Fine-and_then (unwrap_some (get_elem? phases 0)) _ (Fine-unwrap_some (get_elem? phases 0))
        λ phase _. Fine-and_then (v0_components phase) _ (v0_components-Fine phase) λ components _.
          Fine-and_then (with_tx components tx) _ (with_tx-Fine components tx) λ grown _.
            Fine-and_then (bounded grown) _ (Fine-bounded grown) λ fitting _.
              Fine-and_then (set_index phases (length phases - 1) (v0_phase fitting)) _
                (Fine-set_index phases _ (v0_phase fitting))
                λ set same. Fine-weaken _ (Fine-bounded set) λ ps fits. ap length fits ∙ same

  appended-Fine :
      (m : LedgerCloseMeta ScVal Other) (tx : TransactionEnvelope ScVal Other)
      → Fine {E = E} (Adds [] m) (appended m tx)
  unfolding appended results phase_count
  appended-Fine (meta_v1 v1) tx =
      Fine-map_ok _ (phases_with v1.phases tx) (phases_with-Fine v1.phases tx) λ phases same.
        record {
          adds_results = sym (append-nil v1.tx_processing);
          same_phases = same;
          same_header = refl;
        }
  appended-Fine (meta_v0 v0) tx =
      Fine-map_ok _ (bounded (v0.txs ++ (tx ∷ []))) (Fine-bounded _) λ txs _. record {
        adds_results = sym (append-nil v0.tx_processing);
        same_phases = refl;
        same_header = refl;
      }

  processed-Fine :
      (m : LedgerCloseMeta ScVal Other) (r : TransactionResultMeta ScVal Other)
      → Fine {E = E} (Adds (r ∷ []) m) (processed m r)
  unfolding processed results phase_count
  processed-Fine (meta_v1 v1) r =
      Fine-map_ok _ (bounded (v1.tx_processing ++ (r ∷ []))) (Fine-bounded _)
        λ rs e. record { adds_results = e; same_phases = refl; same_header = refl }
  processed-Fine (meta_v0 v0) r =
      Fine-map_ok _ (bounded (v0.tx_processing ++ (r ∷ []))) (Fine-bounded _)
        λ rs e. record { adds_results = e; same_phases = refl; same_header = refl }

module _ {ScVal Other : Type 0} where
  Adds-after :
      {rs : List (TransactionResultMeta ScVal Other)} (m m' m'' : LedgerCloseMeta ScVal Other)
      → Adds [] m m'
      → Adds rs m' m''
      → Adds rs m m''
  Adds-after {rs} m m' m'' a b = record {
    adds_results =
        b.adds_results
        ∙ ap (λ (t : List (TransactionResultMeta ScVal Other)). t ++ rs)
            (a.adds_results ∙ append-nil (results m));
    same_phases = b.same_phases ∙ a.same_phases;
    same_header = b.same_header ∙ a.same_header;
  }

module _ {ScVal Other : Type 0} (E : Type 0) where
  -- A run that adds these results, or panics.
  abbrev pub Ran :
      List (TransactionResultMeta ScVal Other)
      → Transition ScVal Other
      → Result ⊤ E × Transition ScVal Other
      → Type 0
  Ran rs t run =
      ((t' : Transition ScVal Other) × (run ≡ (ok tt, t')) × Adds rs t.meta t'.meta)
      ⊎ (run.0 ≡ panic)

  set_append-Ran :
      (tx : TransactionEnvelope ScVal Other) (t : Transition ScVal Other)
      → Ran [] t (set_append {E = E} tx t)
  unfolding set_append ◌>>=◌
  set_append-Ran tx t = elim (Fine-cases (appended {E = E} t.meta tx) (appended-Fine t.meta tx)) [
    | inl (m', e, adds) ↦ inl (record { meta = m' }, rw e refl, adds)
    | inr e ↦ inr (rw e refl)
  ]

  processing_append-Ran :
      (r : TransactionResultMeta ScVal Other) (t : Transition ScVal Other)
      → Ran (r ∷ []) t (processing_append {E = E} r t)
  unfolding processing_append ◌>>=◌
  processing_append-Ran r t =
      elim (Fine-cases (processed {E = E} t.meta r) (processed-Fine t.meta r)) [
        | inl (m', e, adds) ↦ inl (record { meta = m' }, rw e refl, adds)
        | inr e ↦ inr (rw e refl)
      ]

  -- An event adds a result, whatever the phases are, or there is a panic.
  pub add_soroban_event-Ran :
      (void : ScVal) (event : ContractEvent ScVal) (id : List ℕ) (t : Transition ScVal Other)
      → let event' = record event { contract_id = some id } in
        Ran (sample_result void event' ∷ []) t (add_soroban_event {E = E} void event' t)
  unfolding add_soroban_event add_sample_soroban_envelope ◌>>=◌
  add_soroban_event-Ran void event id t = elim (set_append-Ran (sample_envelope id) t) [
    | inr e ↦ inr (bind_panic (add_sample_soroban_envelope {E = E} id) _ t e)
    | inl (t', e, adds) ↦
        elim (processing_append-Ran (sample_result void (record event { contract_id = some id }))
          t') [
            | inr e' ↦ inr (rw e e')
            | inl (t'', e', adds') ↦
                inl (t'', rw e e', Adds-after t.meta t'.meta t''.meta adds adds')
          ]
  ]
