-- ===== src/Host/Functions/Sent.antt =====
-- The messages that a guest sends, one call of `tx_send_message` after another: `send_message` of
-- rs-zephyr-env/src/host.rs.
use zephyr_vm.Prelude.{
  ℕ, false, ◌≡◌, refl, sym, ap, ◌∙◌, some, List, [], ◌∷◌, ◌++◌, append-nil, append_assoc,
}
use zephyr_vm.Errors.{ok}
use zephyr_vm.Exec.{◌>>=◌}
use zephyr_vm.Trace.{StackTrace, text, zephyr_environment}
use zephyr_vm.Platform.{Platform}
use zephyr_vm.Host.{Host, MemoryManager, alive}
use zephyr_vm.Host.State.{trace}
use zephyr_vm.Host.Memory.{read_segment_from_memory, memory_manager_alive}
use zephyr_vm.Host.Functions.{handled, transmit, sent_with, send_message, send_message_fn}
use zephyr_vm.Host.Functions.Calls.{tx_send_message, dispatch}

-- What a channel without bound documents: a message that is sent while the receiver lives is
-- received, behind those before it.
pub record ChannelLaws (P : Platform) (received : P.Sender → List (List ℕ)) : Type 0 where
  pub send_received :
      (tx : P.Sender) (message : List ℕ)
      → (tx' : P.Sender) × (P.send tx message ≡ (ok tt, tx'))
        × (received tx' ≡ received tx ++ (message ∷ []))

module _ {P : Platform} where
  -- A guest at work, from one host to another, with the messages that it sends: calls of
  -- `tx_send_message` at segments that can be read when the call is made, and between them anything
  -- that leaves the host's sender as it is.
  pub data Sending (h : Host P) : List (List ℕ) → Host P → Type 0 where
    silent : Sending h [] h
    worked :
        (messages : List (List ℕ)) (h' h'' : Host P)
        → Sending h messages h'
        → h''.transmitter ≡ h'.transmitter
        → Sending h messages h''
    sent :
        (messages : List (List ℕ)) (h' : Host P) (offset size : ℕ) (message : List ℕ)
        (m : MemoryManager P)
        → Sending h messages h'
        → h'.context.vm ≡ some (alive (record { memory_manager = m }))
        → read_segment_from_memory P m.memory (offset, size) ≡ ok message
        → Sending h (messages ++ (message ∷ [])) (dispatch (tx_send_message offset size) h').1

  module _ (received : P.Sender → List (List ℕ)) (laws : ChannelLaws P received) where
    -- One call sends one message, and changes the trace and the sender alone.
    pub send_message_fn-sends :
        (offset size : ℕ) (message : List ℕ) (h : Host P) (m : MemoryManager P) (tx : P.Sender)
        → h.context.vm ≡ some (alive (record { memory_manager = m }))
        → h.transmitter ≡ some tx
        → read_segment_from_memory P m.memory (offset, size) ≡ ok message
        → (t : StackTrace P.Foreign) × (tx' : P.Sender) × (dispatch (tx_send_message offset size) h
            ≡ (ok (P.success ∷ []), record h { stack_trace = t; transmitter = some tx' }))
          × (received tx' ≡ received tx ++ (message ∷ []))
    unfolding dispatch send_message_fn handled send_message transmit sent_with trace ◌>>=◌
    send_message_fn-sends offset size message h m tx vm has held =
        let (tx', sends, more) = laws.send_received tx message in
        let relaying =
          (trace zephyr_environment (text "Relaying message to inner transmitter." ∷ []) false
            h).1 in
        let reading =
          (trace zephyr_environment
            (text "Successfully read user message, sending to transmitter." ∷ []) false
            relaying).1 in
        (
          reading.stack_trace,
          tx',
          rw
              (
                send_message_fn,
                handled,
                send_message,
                memory_manager_alive relaying m vm,
                held,
                has,
                transmit,
                sends,
              )
              refl,
          more,
        )

    -- What is sent is received in order, behind what was there.
    pub Sending-received :
        (h : Host P) (tx : P.Sender)
        → h.transmitter ≡ some tx
        → (messages : List (List ℕ)) (h' : Host P) → Sending h messages h'
        → (tx' : P.Sender) × (h'.transmitter ≡ some tx') × (received tx' ≡ received tx ++ messages)
    Sending-received h tx has _ _ silent = (tx, has, sym (append-nil (received tx)))
    Sending-received h tx has _ _ (worked messages h' h'' sending stays) =
        let (tx', has', grown) = Sending-received h tx has messages h' sending in
        (tx', stays ∙ has', grown)
    Sending-received h tx has _ _ (sent messages h' offset size message m sending vm held) =
        let (tx', has', grown) = Sending-received h tx has messages h' sending in
        let (t, tx'', run, grows) =
          send_message_fn-sends offset size message h' m tx' vm has' held in
        (
          tx'',
          ap (λ r. r.1.transmitter) run,
          grows
              ∙ (ap (λ (l : List (List ℕ)). l ++ (message ∷ [])) grown
                  ∙ append_assoc (received tx) messages (message ∷ [])),
        )
