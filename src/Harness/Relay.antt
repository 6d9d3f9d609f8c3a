-- ===== src/Harness/Relay.antt =====
-- The relay takes up what the guest sent: `invoke_vm` of rs-zephyr-env/src/testutils/mod.rs.
use zephyr_vm.Prelude.{ℕ, Bool, ◌≡◌, refl, List, [], ◌∷◌, ◌++◌, map}
use zephyr_vm.Errors.{ok, err}
use zephyr_vm.Harness.{Client, RelayedMessageRequest, died, ending, effect_of, relayed}

module _ {F : Type 0} (client : Client F) where
  -- The messages are these requests, one for one and in this order.
  pub data Read : List (List ℕ) → List (RelayedMessageRequest client.Log) → Type 0 where
    no_message : Read [] []
    one_more :
        {messages : List (List ℕ)} {requests : List (RelayedMessageRequest client.Log)}
        (message : List ℕ) (request : RelayedMessageRequest client.Log)
        → client.deserialize message ≡ ok request
        → Read messages requests
        → Read (message ∷ messages) (request ∷ requests)

  -- Messages that all are requests of the protocol are taken up to the last one: each of them once,
  -- in the order in which they were sent; then the relay ends, or waits while a sender is left.
  pub relayed-all :
      (left : Bool) (messages : List (List ℕ)) (requests : List (RelayedMessageRequest client.Log))
      → Read messages requests
      → relayed client left messages ≡ (map (effect_of client) requests, ending left)
  unfolding relayed
  relayed-all left _ _ no_message = refl
  relayed-all left _ _ (one_more message request e read) =
      rw (relayed, e, relayed-all left _ _ read) refl

  -- A message that is no request of the protocol makes the relay panic: what was sent before it is
  -- taken up, and what was sent behind it is lost, whether or not a sender is left.
  pub relayed-stops :
      (left : Bool) (messages : List (List ℕ)) (requests : List (RelayedMessageRequest client.Log))
      (bad : List ℕ) (error : F) (rest : List (List ℕ))
      → Read messages requests
      → client.deserialize bad ≡ err error
      → relayed client left (messages ++ (bad ∷ rest)) ≡ (map (effect_of client) requests, died)
  unfolding relayed
  relayed-stops left _ _ bad error rest no_message e' = rw (relayed, e') refl
  relayed-stops left _ _ bad error rest (one_more message request e read) e' =
      rw (relayed, e, relayed-stops left _ _ bad error rest read e') refl
