-- ===== src/Host/Runs.antt =====
-- Rules for handlers that read from the pseudo stack: what such a handler returns and leaves
-- unread, one rule for each way to build a handler.
use zephyr_vm.Prelude.{ℕ, Bool, ◌≡◌, refl, ◌∙◌, List, [], ◌∷◌, ◌++◌, length}
use zephyr_vm.Errors.{Result, ok, Error}
use zephyr_vm.Exec.{pure, gets, lift, bind_ok, ◌>>=◌}
use zephyr_vm.Stack.{StackImpl}
use zephyr_vm.Stack.Reads.{unread, advance, get_with_step_next, unread-advance}
use zephyr_vm.Trace.{StackTrace, TracePoint, Piece, maybe_add_trace}
use zephyr_vm.Stack
use zephyr_vm.Stack.{clear}
use zephyr_vm.Host.{MemoryManager, alive}
use zephyr_vm.Host.State.{stack_clear}
use zephyr_vm.Host.Memory.{memory_manager, get_memory, memory_manager_alive, get_memory_alive}
use zephyr_vm.Prelude.{some}
use zephyr_vm.Platform.{Platform}
use zephyr_vm.Host.{Host, Handler}
use zephyr_vm.Host.State.{trace, next_value}
use zephyr_vm.Host.Instructions.{next_values}

-- What is left to read.
abbrev pub Left : List ℕ → StackImpl → Type 0
Left r s = unread s ≡ r

module _ {P : Platform} where
  -- The host with another stack and another trace.
  abbrev pub touched : Host P → StackImpl → StackTrace P.Foreign → Host P
  touched h s t = record h { stack = s; stack_trace = t }

  -- `m` returns `a`, changes the stack and the trace alone, and leaves a stack with `Q`.
  pub record Reads {A : Type 0} (m : Handler P A) (h : Host P) (a : A) (Q : StackImpl → Type 0)
      : Type 0 where
    pub stack : StackImpl
    pub stack_trace : StackTrace P.Foreign
    pub run : m h ≡ (ok a, touched h stack stack_trace)
    pub left : Q stack

  pub Reads-bind :
      {A B : Type 0} {m : Handler P A} (f : A → Handler P B) {h : Host P} {a : A} {b : B}
      {Q R : StackImpl → Type 0}
      → Reads m h a Q
      → ((s : StackImpl) (t : StackTrace P.Foreign) → Q s → Reads (f a) (touched h s t) b R)
      → Reads (m >>= f) h b R
  Reads-bind {m = m} f {h = h} {a = a} first next =
      let second = next first.stack first.stack_trace first.left in
      record {
        stack = second.stack;
        stack_trace = second.stack_trace;
        run = bind_ok m f h _ a first.run ∙ second.run;
        left = second.left;
      }

  -- A step that leaves the stack as it is.
  module _ (Q : StackImpl → Type 0) (h : Host P) (q : Q h.stack) where
    pub Reads-trace :
        (point : TracePoint) (message : List (Piece P.Foreign)) (e : Bool)
        → Reads (trace point message e) h tt Q
    unfolding trace
    Reads-trace point message e = record {
      stack = h.stack;
      stack_trace = maybe_add_trace P.now point message e h.stack_trace;
      run = refl;
      left = q;
    }

    pub Reads-pure : {A : Type 0} (a : A) → Reads (pure a) h a Q
    Reads-pure a = record { stack = h.stack; stack_trace = h.stack_trace; run = refl; left = q }

    pub Reads-gets : {A : Type 0} (f : Host P → A) → Reads (gets f) h (f h) Q
    Reads-gets f = record { stack = h.stack; stack_trace = h.stack_trace; run = refl; left = q }

    pub Reads-lift :
        {A : Type 0} (r : Result A (Error P.Foreign)) (a : A) → r ≡ ok a → Reads (lift r) h a Q
    Reads-lift r a e = record { stack = h.stack; stack_trace = h.stack_trace; run = rw e; left = q }

  pub Reads-next_value :
      (x : ℕ) (r : List ℕ) (h : Host P) → unread h.stack ≡ x ∷ r → Reads next_value h x (Left r)
  unfolding next_value
  Reads-next_value x r h e = record {
    stack = advance 1 h.stack;
    stack_trace = h.stack_trace;
    run = rw (get_with_step_next {F = P.Foreign} h.stack x r e);
    left = unread-advance h.stack x r e;
  }

  pub Reads-next_values :
      (xs r : List ℕ) (h : Host P)
      → unread h.stack ≡ xs ++ r
      → Reads (next_values (length xs)) h xs (Left r)
  unfolding next_values
  Reads-next_values [] r h e = Reads-pure (Left r) h e []
  Reads-next_values (x ∷ xs) r h e = Reads-bind _ (Reads-next_value x (xs ++ r) h e) λ s t l.
      Reads-bind _ (Reads-next_values xs r (touched h s t) l)
        λ s' t' l'. Reads-pure (Left r) (touched h s' t') l' (x ∷ xs)

  module _ (Q : StackImpl → Type 0) (h : Host P) (q : Q h.stack) (m : MemoryManager P)
      (vm : h.context.vm ≡ some (alive (record { memory_manager = m }))) where
    pub Reads-memory_manager : Reads memory_manager h m Q
    Reads-memory_manager = record {
      stack = h.stack;
      stack_trace = h.stack_trace;
      run = memory_manager_alive h m vm;
      left = q;
    }

    pub Reads-get_memory : Reads get_memory h m.memory Q
    Reads-get_memory = record {
      stack = h.stack;
      stack_trace = h.stack_trace;
      run = get_memory_alive h m vm;
      left = q;
    }

  pub Reads-stack_clear : (h : Host P) → Reads stack_clear h tt (λ s. s ≡ Stack.empty)
  unfolding stack_clear clear
  Reads-stack_clear h = record {
    stack = clear h.stack;
    stack_trace = h.stack_trace;
    run = refl;
    left = refl;
  }

  -- `m` ends with the outcome `r`, in a host with `R`.
  pub record Ends {A : Type 0} (m : Handler P A) (h : Host P) (r : Result A (Error P.Foreign))
      (R : Host P → Type 0) : Type 0 where
    pub final : Host P
    pub run : m h ≡ (r, final)
    pub holds : R final

  pub Ends-bind :
      {A B : Type 0} {m : Handler P A} (f : A → Handler P B) {h : Host P} {a : A}
      {r : Result B (Error P.Foreign)} {Q : StackImpl → Type 0} {R : Host P → Type 0}
      → Reads m h a Q
      → ((s : StackImpl) (t : StackTrace P.Foreign) → Q s → Ends (f a) (touched h s t) r R)
      → Ends (m >>= f) h r R
  Ends-bind {m = m} f {h = h} {a = a} first next =
      let second = next first.stack first.stack_trace first.left in
      record {
        final = second.final;
        run = bind_ok m f h _ a first.run ∙ second.run;
        holds = second.holds;
      }
