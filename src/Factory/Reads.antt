-- ===== src/Factory/Reads.antt =====
-- What a reader of a ledger close meta finds in it, for the transitions of
-- ledger-meta-factory/src/lib.rs.
use zephyr_vm.Prelude.{
  ℕ, ◌≡◌, ◌≤◌, ◌-◌, ◌^◌, refl, sym, ap, ◌∙◌, ◌⊎◌, none, some, List, [], ◌∷◌, ◌++◌, append-nil,
  append_assoc, length, length-append, le→leb, arith,
}
use zephyr_vm.Errors.{ok, panic}
use zephyr_vm.CloseMeta.{
  LedgerHeader, ContractEvent, TransactionResultMeta, TransactionMeta, v3_meta, other_meta,
  LedgerCloseMeta, meta_v0, meta_v1,
}
use zephyr_vm.Factory.{bounded, set_index, last}

module _ {ScVal Other : Type 0} where
  -- The results of the processing of the transactions.
  unfoldable pub results : LedgerCloseMeta ScVal Other → List (TransactionResultMeta ScVal Other)
  results (meta_v0 v0) = v0.tx_processing
  results (meta_v1 v1) = v1.tx_processing

  unfoldable pub meta_events : TransactionMeta ScVal Other → List (ContractEvent ScVal)
  meta_events (other_meta m) = []
  meta_events (v3_meta m) = elim m.soroban_meta [ none ↦ [] | some soroban ↦ soroban.events ]

  unfoldable pub result_events :
      List (TransactionResultMeta ScVal Other) → List (ContractEvent ScVal)
  result_events [] = []
  result_events (result ∷ rest) = meta_events result.tx_apply_processing ++ result_events rest

  -- The events of the Soroban transactions, in order.
  unfoldable pub soroban_events : LedgerCloseMeta ScVal Other → List (ContractEvent ScVal)
  soroban_events m = result_events (results m)

  -- How many phases the set of transactions has.
  unfoldable pub phase_count : LedgerCloseMeta ScVal Other → ℕ
  phase_count (meta_v0 v0) = 0
  phase_count (meta_v1 v1) = length v1.phases

  pub result_events-append :
      (rs : List (TransactionResultMeta ScVal Other)) (r : TransactionResultMeta ScVal Other)
      → result_events (rs ++ (r ∷ [])) ≡ result_events rs ++ meta_events r.tx_apply_processing
  unfolding result_events
  result_events-append [] r = append-nil (meta_events r.tx_apply_processing)
  result_events-append (x ∷ rs) r =
      ap (λ (t : List (ContractEvent ScVal)). meta_events x.tx_apply_processing ++ t)
        (result_events-append rs r)
      ∙ sym (
          append_assoc (meta_events x.tx_apply_processing) (result_events rs)
            (meta_events r.tx_apply_processing))

module _ {ScVal Other : Type 0} where
  abbrev pub header_of : LedgerCloseMeta ScVal Other → LedgerHeader Other
  header_of (meta_v0 v0) = v0.ledger_header
  header_of (meta_v1 v1) = v1.ledger_header

  -- These results more, behind the others, in a meta with the same header and number of phases.
  pub record Adds (rs : List (TransactionResultMeta ScVal Other))
      (m m' : LedgerCloseMeta ScVal Other) : Type 0 where
    pub adds_results : results m' ≡ results m ++ rs
    pub same_phases : phase_count m' ≡ phase_count m
    pub same_header : header_of m' ≡ header_of m

module _ {A : Type 0} where
  pub last-append : (xs : List A) (x : A) → last (xs ++ (x ∷ [])) ≡ some x
  unfolding last
  last-append [] x = refl
  last-append (y ∷ []) x = refl
  last-append (y ∷ z ∷ zs) x = last-append (z ∷ zs) x

module _ {A E : Type 0} where
  set_index-length :
      (xs : List A) (x y : A)
      → set_index {E = E} (xs ++ (x ∷ [])) (length xs) y ≡ ok (xs ++ (y ∷ []))
  unfolding set_index
  set_index-length [] x y = refl
  set_index-length (z ∷ zs) x y = rw (set_index-length zs x y) refl

  pub set_index-append :
      (xs : List A) (x y : A)
      → set_index {E = E} (xs ++ (x ∷ [])) (length (xs ++ (x ∷ [])) - 1) y ≡ ok (xs ++ (y ∷ []))
  set_index-append xs x y =
      let e : length (xs ++ (x ∷ [])) - 1 ≡ length xs = omega (length-append xs (x ∷ []), arith) in
      rw e (set_index-length xs x y)

  pub bounded-ok : (xs : List A) → length xs ≤ 2 ^ 32 - 1 → bounded {E = E} xs ≡ ok xs
  unfolding bounded
  bounded-ok xs h = rw (le→leb (length xs) (2 ^ 32 - 1) h) refl

  -- What comes out is what went in.
  pub bounded-same : (xs ys : List A) → bounded {E = E} xs ≡ ok ys → xs ≡ ys
  unfolding bounded
  bounded-same xs ys e = ground arith

  pub bounded-cases : (xs : List A) → (bounded {E = E} xs ≡ ok xs) ⊎ (bounded {E = E} xs ≡ panic)
  unfolding bounded
  bounded-cases xs = ground arith
