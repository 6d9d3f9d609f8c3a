-- ===== src/Host/Functions.antt =====
-- The functions that the linker gives to the guest: `host_functions` of rs-zephyr-env/src/host.rs,
-- with what they call in host.rs and host/soroban.rs. A closure that returns gives the guest its
-- values; a panic is a trap.
pub mod Ledger
pub mod Soroban
pub mod Calls
pub mod Kept
pub mod Keeps
pub mod Reach
pub mod Views
pub mod Messages
pub mod Sent
use zephyr_vm.Prelude.{ℕ, ⊤, Bool, true, false, Option, none, some, List, [], ◌∷◌, ◌++◌}
use zephyr_vm.Errors.{
  Result, ok, err, panic, Error, host, foreign, no_ledger_close_meta, no_transmitter,
}
use zephyr_vm.Exec.{pure, raise, gets, modify, lift, ok_or, map_err, unwrap, ◌>>=◌, ◌>>◌}
use zephyr_vm.Trace.{
  Piece, text, number, numbers, problem, database_impl, ledger_impl, zephyr_environment,
}
use zephyr_vm.Platform.{Platform}
use zephyr_vm.Host.{Host, Handler}
use zephyr_vm.Host.State.{trace, stack_push}
use zephyr_vm.Host.Memory.{memory_manager, read_segment_from_memory, write_to_memory}
use zephyr_vm.Host.Write.{write_database_raw}
use zephyr_vm.Host.Update.{update_database_raw}
use zephyr_vm.Host.Read.{read_database_as_id, read_database_self}

module _ {P : Platform} where
  -- `if let Some(err) = result.err() { .. } else { .. }`: both outcomes are handled.
  abbrev pub answered_by :
      {A B : Type 0}
      → Result A (Error P.Foreign)
      → (A → Handler P B)
      → (Error P.Foreign → Handler P B)
      → Handler P B
  answered_by (ok a) good bad h = good a h
  answered_by (err e) good bad h = bad e h
  answered_by panic good bad h = (panic, h)

  unfoldable pub handled :
      {A B : Type 0}
      → Handler P A
      → (A → Handler P B)
      → (Error P.Foreign → Handler P B)
      → Handler P B
  handled m good bad h = let (r, h') = m h in answered_by r good bad h'

  -- A status, and no values.
  abbrev failed_with : Error P.Foreign → Handler P (List ℕ)
  failed_with e = pure (P.status e ∷ [])

  abbrev pub failed_with_place : Error P.Foreign → Handler P (List ℕ)
  failed_with_place e = pure (P.status e ∷ 0 ∷ 0 ∷ [])

  abbrev pub placed : ℕ × ℕ → Handler P (List ℕ)
  placed (offset, size) = pure (P.success ∷ offset ∷ size ∷ [])

  -- Reports an error on the trace before its status is returned.
  abbrev hit : List (Piece P.Foreign) → Handler P ⊤
  hit message = trace database_impl message true

  -- A failed write is put on the trace and answered by its status.
  abbrev pub write_failed : Error P.Foreign → Handler P (List ℕ)
  write_failed e = do
    trace database_impl
        (text "Hit error " ∷ problem e ∷ text " while writing to the database implementation." ∷ [])
        true
    pure (P.status e ∷ [])

  unfoldable pub db_write_fn : Handler P (List ℕ)
  db_write_fn = do
    trace database_impl (text "Writing to the database implementation." ∷ []) false
    handled write_database_raw (λ _. pure (P.success ∷ [])) write_failed

  unfoldable pub db_update_fn : Handler P (List ℕ)
  db_update_fn = do
    trace database_impl (text "Updating to the database implementation." ∷ []) false
    handled update_database_raw (λ _. pure (P.success ∷ []))
        λ e.
          (hit (
              text "Hit error "
              ∷ problem e
              ∷ text " while updating to the database implementation."
              ∷ [])
            >> failed_with e)

  unfoldable pub db_read_fn : Handler P (List ℕ)
  db_read_fn = do
    trace database_impl (text "Reading from the database implementation." ∷ []) false
    handled read_database_self placed λ e.
        (hit (
            text "Hit error "
            ∷ problem e
            ∷ text " while updating to the database implementation."
            ∷ [])
          >> failed_with_place e)

  unfoldable pub db_read_as_id_fn : ℕ → Handler P (List ℕ)
  db_read_as_id_fn id = handled (read_database_as_id id) placed failed_with_place

  -- The guest's text is appended to the result.
  unfoldable pub write_result : ℕ → ℕ → Handler P ⊤
  write_result offset size = do
    trace zephyr_environment (text "Writing invocation result object." ∷ []) false
    manager ← memory_manager
    seg ← lift (read_segment_from_memory P manager.memory (offset, size))
    res ← lift (map_err foreign (P.deserialize_string seg))
    modify λ h. record h { result = h.result ++ res }

  unfoldable pub conclude_fn : ℕ → ℕ → Handler P (List ℕ)
  conclude_fn offset size = do
    trace zephyr_environment
        (text "Writing object of size " ∷ number size ∷ text " to result slot." ∷ []) false
    handled (write_result offset size) (λ _. pure []) λ e h. (panic, h)

  -- What the channel answers, and the sender it leaves.
  sent_with : Result ⊤ P.Foreign × P.Sender → Handler P ⊤
  sent_with (r, tx) h = (map_err foreign r, record h { transmitter = some tx })

  unfoldable pub transmit : List ℕ → Option P.Sender → Handler P ⊤
  unfolding sent_with
  transmit message none = do
    trace zephyr_environment (text "Couldn't find transmitter in virtual machine." ∷ []) true
    raise (host no_transmitter)
  transmit message (some tx) = sent_with (P.send tx message)

  unfoldable pub send_message : ℕ → ℕ → Handler P ⊤
  send_message offset size = do
    trace zephyr_environment (text "Relaying message to inner transmitter." ∷ []) false
    manager ← memory_manager
    message ← lift (read_segment_from_memory P manager.memory (offset, size))
    trace zephyr_environment (text "Successfully read user message, sending to transmitter." ∷ [])
        false
    tx ← gets (λ h. h.transmitter)
    transmit message tx

  unfoldable pub send_message_fn : ℕ → ℕ → Handler P (List ℕ)
  send_message_fn offset size =
      handled (send_message offset size) (λ _. pure (P.success ∷ [])) failed_with

  unfoldable pub stack_push_fn : ℕ → Handler P (List ℕ)
  stack_push_fn param = do stack_push param; pure []

  unfoldable pub read_ledger_meta : Handler P (ℕ × ℕ)
  read_ledger_meta = do
    trace zephyr_environment (text "Reading the ledger close meta." ∷ []) false
    current ← gets (λ h. h.latest_close)
    meta ← ok_or current (host no_ledger_close_meta)
    write_to_memory meta

  -- Every error reads as an empty segment at 0.
  unfoldable pub read_ledger_meta_fn : Handler P (List ℕ)
  read_ledger_meta_fn =
      handled read_ledger_meta (λ (offset, size). pure (offset ∷ size ∷ [])) λ e. pure (0 ∷ 0 ∷ [])
