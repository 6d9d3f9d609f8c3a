-- ===== src/Harness.antt =====
-- The harness that runs a guest in a test: `TestVM` of rs-zephyr-env/src/testutils/mod.rs, and the
-- relay of the messages that the guest sends. The tables of the harness are in Mercury/Setup.
pub mod Relay
pub mod Runs
pub mod Sends
use zephyr_vm.Prelude.{ℕ, ⊤, Bool, true, false, Option, none, some, String, List, [], ◌∷◌}
use zephyr_vm.Errors.{Result, ok, err, panic, Error}
use zephyr_vm.Exec.{
  Exec, pure, lift, modify, unwrap, unwrapped, caught, map_ok, and_then, ◌>>=◌, ◌>>◌,
}
use zephyr_vm.Trace.{StackTrace}
use zephyr_vm.Platform.{Platform}
use zephyr_vm.Host.{Host, Handler, alive, mocked}
use zephyr_vm.Host.State.{set_stack_trace, load_context, add_transmitter, add_ledger_close_meta}
use zephyr_vm.Vm.{Instance, metered_function_call}
use zephyr_vm.Vm.New.{Wasmi, Started, new}
use zephyr_vm.Factory.{Xdr, Transition, to_bytes}

pub data Method : Type 0 where
  get post : Method

-- The messages of rs_zephyr_common: a request, whose headers are in the order of their iteration,
-- and a log.
pub record HttpRequest : Type 0 where
  pub method : Method
  pub url : List ℕ
  pub headers : List (List ℕ × List ℕ)
  pub body : Option (List ℕ)

pub data RelayedMessageRequest (Log : Type 0) : Type 0 where
  http : HttpRequest → RelayedMessageRequest Log
  log : Log → RelayedMessageRequest Log

-- bincode at a message, and the headers of reqwest.
pub record Client (F : Type 0) : Type 1 where
  pub Log : Type 0
  pub HeaderName : Type 0
  pub HeaderValue : Type 0
  pub HeaderMap : Type 0
  pub deserialize : List ℕ → Result (RelayedMessageRequest Log) F
  pub name_from_str : List ℕ → Result HeaderName F
  pub parse_value : List ℕ → Result HeaderValue F
  pub no_headers : HeaderMap
  pub insert : HeaderName → HeaderValue → HeaderMap → HeaderMap

-- How the task of the relay goes on behind the last message that it takes up: the channel is closed,
-- it waits for a message, or it has panicked.
pub data Ending : Type 0 where
  ended waiting died : Ending

-- An empty channel is closed when every sender is gone.
abbrev pub ending : Bool → Ending
ending true = waiting
ending false = ended

module _ {F : Type 0} (client : Client F) where
  -- A request that is sent.
  pub record Built : Type 0 where
    pub method : Method
    pub url : List ℕ
    pub headers : client.HeaderMap
    pub body : Option (List ℕ)

  -- A task that sends a request, unless it panics on the way there, and a line that is printed.
  pub data Effect : Type 0 where
    spawned : Result Built F → Effect
    printed : client.Log → Effect

  unfoldable pub header_map : List (List ℕ × List ℕ) → client.HeaderMap → Result client.HeaderMap F
  header_map [] headers = ok headers
  header_map ((k, v) ∷ rest) headers = and_then (unwrap (client.name_from_str k)) λ name.
      and_then (unwrap (client.parse_value v))
        λ value. header_map rest (client.insert name value headers)

  -- Both methods take the body that there is.
  unfoldable pub built_request : HttpRequest → Result Built F
  built_request request =
      map_ok
        (λ headers. record {
          method = request.method;
          url = request.url;
          headers = headers;
          body = request.body;
        })
        (header_map request.headers client.no_headers)

  unfoldable pub effect_of : RelayedMessageRequest client.Log → Effect
  effect_of (http request) = spawned (built_request request)
  effect_of (log record_of) = printed record_of

  -- A message that is none of the protocol's ends the task.
  taken_up :
      Result (RelayedMessageRequest client.Log) F → List Effect × Ending → List Effect × Ending
  taken_up (ok request) (effects, r) = (effect_of request ∷ effects, r)
  taken_up (err e) rest = ([], died)
  taken_up panic rest = ([], died)

  -- `while let Some(message) = rx.recv()`, with whether a sender is left, and the messages that the
  -- channel holds.
  unfoldable pub relayed : Bool → List (List ℕ) → List Effect × Ending
  unfolding taken_up
  relayed sender_left [] = ([], ending sender_left)
  relayed sender_left (message ∷ messages) =
      taken_up (unwrap {E = F} (client.deserialize message)) (relayed sender_left messages)

-- What an invocation is run with: wasmi, the file system, bincode at a text, the mocked database and
-- ledger, the identity of the store that is made, and a channel without bound, with what its receiver
-- has from a sender, and whether a sender outlives an invocation that leaves this host.
pub record Runtime (P : Platform) : Type 1 where
  pub wasmi : Wasmi P
  -- the exports of a VM, and the host in its store
  pub exports : Started wasmi → Instance P
  pub host_of : Started wasmi → Host P
  pub read_file : List ℕ → Result (List ℕ) P.Foreign
  pub serialize_string : List ℕ → Result (List ℕ) P.Foreign
  pub mocked_database : P.database.Db
  pub mocked_ledger : P.ledger.Ledger
  pub store_id : ℕ
  pub unbounded_channel : P.Sender
  pub received : P.Sender → List (List ℕ)
  pub outlives : Host P → Bool
  pub client : Client P.Foreign

pub record TestVm : Type 0 where
  pub wasm_path : List ℕ
  pub ledger_close_meta : Option (List ℕ)

unfoldable pub import_program : List ℕ → TestVm
import_program path = record { wasm_path = path; ledger_close_meta = none }

unfoldable pub set_transition :
    {F : Type 0} (xdr : Xdr F) → Transition xdr.ScVal xdr.Other → Exec TestVm F ⊤
set_transition xdr transition = do
  meta ← lift (to_bytes xdr transition)
  modify λ vm. record vm { ledger_close_meta = some meta }

module _ {P : Platform} (runtime : Runtime P) where
  unfoldable pub set_body : List ℕ → Exec TestVm P.Foreign ⊤
  set_body body = do
    meta ← lift (unwrap (runtime.serialize_string body))
    modify λ vm. record vm { ledger_close_meta = some meta }

  unfoldable pub read_wasm : List ℕ → Result (List ℕ) (Error P.Foreign)
  read_wasm path = unwrap (runtime.read_file path)

  -- The VM of the program, on a mocked host that traces.
  unfoldable pub made_vm : TestVm → Result (Started runtime.wasmi) (Error P.Foreign)
  made_vm vm =
      and_then (unwrap {E = Error P.Foreign} (mocked runtime.mocked_database runtime.mocked_ledger))
        λ h.
          and_then (read_wasm vm.wasm_path)
            λ code. unwrap (new runtime.wasmi runtime.store_id (set_stack_trace true h) code)

  unfoldable pub meta_added : Option (List ℕ) → Handler P ⊤
  meta_added none = pure tt
  meta_added (some meta) = unwrapped {D = Error P.Foreign} (add_ledger_close_meta meta)

  -- What is done with a VM that was made. The outcome of the guest's function is a value.
  unfoldable pub invoked :
      TestVm → String → Started runtime.wasmi → Handler P (Result (List ℕ) (Error P.Foreign))
  invoked vm fname started = do
    unwrapped {D = Error P.Foreign}
        (load_context (alive (record { memory_manager = started.memory_manager })))
    modify (add_transmitter runtime.unbounded_channel)
    meta_added vm.ledger_close_meta
    caught (metered_function_call (runtime.exports started) fname)

  -- What the receiver has from the host's sender.
  unfoldable pub messages_of : Host P → List (List ℕ)
  messages_of h = elim h.transmitter [ none ↦ [] | some tx ↦ runtime.received tx ]

  -- `Result<AnyResult<(AnyResult<String>, StackTrace)>, JoinError>`: a panic is the error of joining
  -- the task, and the closure always returns `Ok` of what the guest's function returned, an error
  -- included, and the trace.
  abbrev pub Invocation : Type 0
  Invocation =
      Result (Result (Result (List ℕ) (Error P.Foreign) × StackTrace P.Foreign) (Error P.Foreign))
        (Error P.Foreign)

  -- The invocation, and what the relay then does.
  joined :
      TestVm
      → String
      → Result (Started runtime.wasmi) (Error P.Foreign)
      → Invocation × (List (Effect runtime.client) × Ending)
  joined vm fname (ok started) =
      let (r, h) = invoked vm fname started (runtime.host_of started) in
      (
        map_ok (λ result. ok (result, h.stack_trace)) r,
        relayed runtime.client (runtime.outlives h) (messages_of h),
      )
  joined vm fname (err e) = (err e, relayed runtime.client false [])
  joined vm fname panic = (panic, relayed runtime.client false [])

  unfoldable pub invoke_vm : TestVm → String → Invocation × (List (Effect runtime.client) × Ending)
  unfolding joined
  invoke_vm vm fname = joined vm fname (made_vm vm)
