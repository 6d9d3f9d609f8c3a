-- ===== src/Tests/Harnessed.antt =====
-- Invocations in a test, and the relay of messages, at concrete inputs.
use zephyr_vm.Prelude.{ℕ, true, false, ◌++◌, ◌≡◌, refl, ⊤, some, List, [], ◌∷◌, map}
use zephyr_vm.Errors.{Result, ok, err}
use zephyr_vm.Exec.{◌>>=◌, unwrapped, map_ok, outcome}
use zephyr_vm.Trace.{StackTrace}
use zephyr_vm.Host.{Host, new_host, mocked}
use zephyr_vm.Vm.{Instance, func, metered_function_call}
use zephyr_vm.Vm.New.{
  Started, new, in_store, engine_of, fuelled, on_store, managed, exported_memory,
}
use zephyr_vm.Budget.{infer_fuel}
use zephyr_vm.Host.State.{set_stack_trace}
use zephyr_vm.Harness.{
  Client, Runtime, TestVm, RelayedMessageRequest, log, effect_of, died, relayed, invoke_vm,
  messages_of, read_wasm, made_vm,
}
use zephyr_vm.Harness.Relay
use zephyr_vm.Harness.Sends.{Sends}
use zephyr_vm.Host.Functions.Calls.{dispatch, tx_send_message, zephyr_stack_push}
use zephyr_vm.Harness.Relay.{Read, no_message, relayed-stops}
use zephyr_vm.Harness.Runs.{ready_host, invoke_vm-runs}
use zephyr_vm.Tests.Sample.{sample}
use zephyr_vm.Tests.Environment.{machine}

-- A message of one byte is a log, and every other is none of the protocol's.
abbrev read_message : List ℕ → Result (RelayedMessageRequest ℕ) ⊤
read_message [] = err tt
read_message (n ∷ []) = ok (log n)
read_message (n ∷ m ∷ rest) = err tt

abbrev logs : Client ⊤
logs = record {
  Log = ℕ;
  HeaderName = ⊤;
  HeaderValue = ⊤;
  HeaderMap = ⊤;
  deserialize = read_message;
  name_from_str = λ name. ok tt;
  parse_value = λ value. ok tt;
  no_headers = tt;
  insert = λ name value headers. tt;
}

abbrev two_logs : Read logs ((3 ∷ []) ∷ (4 ∷ []) ∷ []) (log 3 ∷ log 4 ∷ [])
two_logs = Relay.one_more (3 ∷ []) (log 3) refl (Relay.one_more (4 ∷ []) (log 4) refl no_message)

-- The third message is empty, and the fourth is lost.
relayed-stops_example :
    relayed logs true ((3 ∷ []) ∷ (4 ∷ []) ∷ [] ∷ (5 ∷ []) ∷ [])
    ≡ (map (effect_of logs) (log 3 ∷ log 4 ∷ []), died)
relayed-stops_example =
    relayed-stops logs true ((3 ∷ []) ∷ (4 ∷ []) ∷ []) (log 3 ∷ log 4 ∷ []) [] tt ((5 ∷ []) ∷ [])
      two_logs refl

-- A guest that puts its function's number, 9, into the result slot.
abbrev answering : Instance sample
answering = record {
  Func = ⊤;
  get_export = λ name. some (func tt);
  call = λ f params retrn h. (ok tt, record h { result = 9 ∷ [] });
}

-- The sender has the last message first.
abbrev from_first : List (List ℕ) → List (List ℕ)
from_first [] = []
from_first (message ∷ earlier) = from_first earlier ++ (message ∷ [])

abbrev runtime_of : Instance sample → Runtime sample
runtime_of guest = record {
  wasmi = machine;
  exports = λ started. guest;
  host_of = λ started. new_host [] tt 0 [] 0;
  read_file = λ path. ok path;
  serialize_string = λ text. ok text;
  mocked_database = [];
  mocked_ledger = tt;
  store_id = 1;
  unbounded_channel = [];
  received = from_first;
  outlives = λ h. false;
  client = logs;
}

-- The fuel that is left is all of it.
abbrev made : Started machine
made = record {
  store = (1, 1000000000);
  memory_manager = record { memory = 4 ∷ []; offset = 0 };
  instance_of = (1, 4 ∷ []);
}

abbrev runtime : Runtime sample
runtime = runtime_of answering

-- A guest that sends the two bytes of its memory, one by one, with a push between, and then fails.
abbrev worked_through : Host sample → Host sample
worked_through h =
    (dispatch (tx_send_message 1 1)
      ((dispatch (zephyr_stack_push 5) ((dispatch (tx_send_message 0 1) h).1)).1)).1

abbrev sending : Instance sample
sending = record {
  Func = ⊤;
  get_export = λ name. some (func tt);
  call = λ f params retrn h. (err tt, worked_through h);
}

abbrev two_bytes : Started machine
two_bytes = record {
  store = (1, 1000000000);
  memory_manager = record { memory = 3 ∷ 4 ∷ []; offset = 0 };
  instance_of = (1, 3 ∷ 4 ∷ []);
}

abbrev program : TestVm
program = record { wasm_path = 4 ∷ []; ledger_close_meta = some (5 ∷ []) }

invoke_vm-runs_example :
    (t : StackTrace ⊤) × (let (r, h) =
        metered_function_call answering "run"
          (ready_host runtime program made (new_host [] tt 0 [] 0) t) in
      invoke_vm runtime program "run" ≡ (
        map_ok (λ result. ok (result, h.stack_trace)) (outcome r),
        relayed logs (runtime.outlives h) (messages_of runtime h),
      ))
unfolding new_host made_vm mocked new ◌>>=◌ unwrapped read_wasm in_store engine_of fuelled on_store
    infer_fuel managed set_stack_trace exported_memory
invoke_vm-runs_example = invoke_vm-runs runtime program "run" made refl refl refl
