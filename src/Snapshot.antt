-- ===== src/Snapshot.antt =====
-- The ledger's state as the simulation reads it, out of the SQLite file of a running node:
-- rs-zephyr-env/src/snapshot.rs. Whatever SQLite refuses is unwrapped, so it is a panic.
use zephyr_vm.Prelude.{ℕ, ◌-◌, ◌^◌, Option, none, some, String, List, [], ◌∷◌}
use zephyr_vm.Errors.{Result, ok, err, panic}
use zephyr_vm.Exec.{unwrap, map_err, and_then}

pub record AccountEntry : Type 0 where
  pub account_id : List ℕ
  pub balance : ℕ
  pub seq_num : ℕ
  pub num_sub_entries : ℕ
  pub flags : ℕ
  pub thresholds : List ℕ
  pub signers : List ℕ

-- The entries that the code looks into or makes, and the others. A trustline is known by an account
-- and an asset, contract code by its hash, contract data by a contract, a key and its durability.
pub data LedgerEntry (Other : Type 0) : Type 0 where
  account_entry : AccountEntry → LedgerEntry Other
  ttl_entry : ℕ → LedgerEntry Other
  other_entry : Other → LedgerEntry Other

pub data Durability : Type 0 where
  temporary persistent : Durability

pub data LedgerKey (Other : Type 0) : Type 0 where
  trustline : List ℕ → List ℕ → LedgerKey Other
  account : List ℕ → LedgerKey Other
  contract_code : List ℕ → LedgerKey Other
  contract_data : List ℕ → List ℕ → Durability → LedgerKey Other
  config_setting : ℕ → LedgerKey Other
  other_key : Other → LedgerKey Other

-- SQLite, XDR, SHA-256 and the addresses of accounts. `first_row` opens the file, prepares the
-- query, runs it at the parameters and takes the first row.
pub record Store (F : Type 0) : Type 1 where
  pub OtherEntry : Type 0
  pub OtherKey : Type 0
  pub Column : Type 0
  pub first_row : String → List (List ℕ) → Result (Option (List Column)) F
  pub get_integer : List Column → ℕ → Result ℕ F
  pub get_text : List Column → ℕ → Result (List ℕ) F
  pub text_of_integer : ℕ → List ℕ
  pub to_xdr_base64 : List ℕ → List ℕ
  pub entry_from_xdr_base64 : List ℕ → Result (LedgerEntry OtherEntry) F
  pub entry_from_xdr : List ℕ → Result (LedgerEntry OtherEntry) F
  pub entry_to_xdr : LedgerEntry OtherEntry → Result (List ℕ) F
  pub key_from_xdr : List ℕ → Result (LedgerKey OtherKey) F
  pub key_to_xdr : LedgerKey OtherKey → List ℕ
  pub sha256 : List ℕ → List ℕ
  pub public_key_to_string : List ℕ → List ℕ
  -- `Error::from_contract_error(0)` and the XDR error `Invalid`
  pub contract_error : F
  pub invalid : F

-- `unwrap_or(0)`
abbrev or_zero : {E : Type 0} → Result ℕ E → Result ℕ E
or_zero (ok n) = ok n
or_zero (err e) = ok 0
or_zero panic = panic

module _ {F : Type 0} (store : Store F) where
  open store use {OtherEntry, OtherKey, Column}

  -- The first row of a query, with every failure unwrapped; `missing` where there is none.
  with_first_row :
      {A : Type 0} → String → List (List ℕ) → Result A F → (List Column → Result A F) → Result A F
  with_first_row query params missing found =
      and_then (unwrap (store.first_row query params))
        λ row. elim row [ none ↦ missing | some columns ↦ found columns ]

  -- The entry that is stored in the first column.
  stored_entry : List Column → Result (LedgerEntry OtherEntry) F
  stored_entry columns =
      and_then (unwrap (store.get_text columns 0)) λ text. unwrap (store.entry_from_xdr_base64 text)

  unfoldable pub get_current_ledger_sequence : Result (ℕ × ℕ) F
  unfolding with_first_row
  get_current_ledger_sequence =
      with_first_row
        "SELECT ledgerseq, closetime FROM ledgerheaders ORDER BY ledgerseq DESC LIMIT 1" []
        (ok (0, 0))
        λ columns.
          and_then (or_zero (store.get_integer columns 0))
            λ sequence. and_then (or_zero (store.get_integer columns 1)) λ time. ok (sequence, time)

  live_until : LedgerEntry OtherEntry → ℕ
  live_until (ttl_entry live_until_ledger_seq) = live_until_ledger_seq
  live_until (account_entry a) = 0
  live_until (other_entry o) = 0

  unfoldable pub get_ttl : LedgerKey OtherKey → Result ℕ F
  unfolding with_first_row stored_entry live_until
  get_ttl key =
      with_first_row "SELECT ledgerentry FROM ttl WHERE keyhash = ?1"
        (store.to_xdr_base64 (store.sha256 (store.key_to_xdr key)) ∷ []) (ok 0)
        λ columns. and_then (stored_entry columns) λ entry. ok (live_until entry)

  -- `EntryWithLiveUntil`
  abbrev pub Found : Type 0
  Found = LedgerEntry OtherEntry × Option ℕ

  unfoldable pub get_including_archived : LedgerKey OtherKey → Result (Option Found) F
  unfolding with_first_row stored_entry
  get_including_archived (config_setting id) =
      with_first_row "SELECT ledgerentry FROM configsettings WHERE configsettingid = ?1"
        (store.text_of_integer id ∷ []) (err store.contract_error)
        λ columns. and_then (stored_entry columns) λ entry. ok (some (entry, some (2 ^ 32 - 1)))
  get_including_archived (trustline a asset) = err store.contract_error
  get_including_archived (account a) = err store.contract_error
  get_including_archived (contract_code hash) = err store.contract_error
  get_including_archived (contract_data contract key durability) = err store.contract_error
  get_including_archived (other_key o) = err store.contract_error

  -- An account as it is made up around its stored balance.
  abbrev pub made_account : List ℕ → ℕ → LedgerEntry OtherEntry
  made_account account_id balance = account_entry (record {
    account_id = account_id;
    balance = balance;
    seq_num = 0;
    num_sub_entries = 0;
    flags = 0;
    thresholds = 0 ∷ 0 ∷ 0 ∷ 0 ∷ [];
    signers = [];
  })

  -- The branches of `snapshot_get_universal`: what is stored under a key.
  unfoldable pub lookup_key : LedgerKey OtherKey → Result (Option Found) F
  unfolding with_first_row stored_entry
  lookup_key (trustline account_id asset) =
      with_first_row "SELECT ledgerentry FROM trustlines where accountid = ?1 AND asset = ?2"
        (store.public_key_to_string account_id ∷ store.to_xdr_base64 asset ∷ []) (ok none)
        λ columns. and_then (stored_entry columns) λ entry. ok (some (entry, none))
  lookup_key (account account_id) =
      with_first_row "SELECT balance FROM accounts where accountid = ?1"
        (store.public_key_to_string account_id ∷ []) (ok none)
        λ columns.
          and_then (unwrap (store.get_integer columns 0))
            λ balance. ok (some (made_account account_id balance, none))
  lookup_key (contract_code hash) =
      with_first_row "SELECT ledgerentry FROM contractcode where hash = ?1"
        (store.to_xdr_base64 hash ∷ []) (ok none)
        λ columns.
          and_then (stored_entry columns)
            λ entry. and_then (get_ttl (contract_code hash)) λ ttl. ok (some (entry, some ttl))
  lookup_key (contract_data contract key durability) =
      with_first_row "SELECT ledgerentry FROM contractdata where contractid = ?1 AND key = ?2"
        (store.to_xdr_base64 contract ∷ store.to_xdr_base64 key ∷ []) (ok none)
        λ columns. and_then (stored_entry columns) λ entry.
          and_then (get_ttl (contract_data contract key durability))
            λ ttl. ok (some (entry, some ttl))
  lookup_key (config_setting id) = ok none
  lookup_key (other_key o) = ok none

  -- The result as bytes.
  to_bytes : Option Found → Result (Option (List ℕ × Option ℕ)) F
  to_bytes none = ok none
  to_bytes (some (entry, ttl)) = and_then (store.entry_to_xdr entry) λ bytes. ok (some (bytes, ttl))

  unfoldable pub snapshot_get_universal : List ℕ → Result (Option (List ℕ × Option ℕ)) F
  unfolding to_bytes
  snapshot_get_universal bytes =
      and_then (map_err (λ _. store.invalid) (store.key_from_xdr bytes))
        λ key. and_then (lookup_key key) λ entry. to_bytes entry

  from_bytes : Option (List ℕ × Option ℕ) → Result (Option Found) F
  from_bytes none = ok none
  from_bytes (some (bytes, ttl)) =
      and_then (store.entry_from_xdr bytes) λ entry. ok (some (entry, ttl))

  -- `SnapshotSource::get`
  unfoldable pub get : LedgerKey OtherKey → Result (Option Found) F
  unfolding from_bytes
  get key = and_then (snapshot_get_universal (store.key_to_xdr key)) λ xdred. from_bytes xdred
