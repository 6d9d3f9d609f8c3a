-- ===== src/Host/Quiet.antt =====
-- What a handler leaves alone however it ends: one rule for each way to build a handler.
use zephyr_vm.Prelude.{ℕ, zero, suc, Bool, ◌≡◌, refl, ap, subst, ⊤, ◌∙◌, List, ◌∷◌}
use zephyr_vm.Errors.{Result, ok, err, panic, Error}
use zephyr_vm.Exec.{attempt, pure, gets, lift, continue, ◌>>=◌}
use zephyr_vm.Stack.{StackImpl, get_with_step}
use zephyr_vm.Trace.{StackTrace, TracePoint, Piece}
use zephyr_vm.Database.{from_column_and_operator}
use zephyr_vm.Platform.{Platform}
use zephyr_vm.Host.{Host, Handler}
use zephyr_vm.Host.State.{trace, next_value, stack_clear}
use zephyr_vm.Host.Memory.{memory_manager, get_memory}
use zephyr_vm.Host.Instructions.{
  next_values, next_pairs, next_conditions, read_point_hash, read_columns, read_segment_list,
  read_conditions,
}
use zephyr_vm.Host.Runs.{touched}

-- Whether the values on the stack may change, or the cursor alone.
pub data Extent : Type 0 where
  cursor whole : Extent

abbrev pub Moved : Extent → StackImpl → StackImpl → Type 0
Moved cursor s s' = s'.inner ≡ s.inner
Moved whole s s' = ⊤

Moved-refl : (k : Extent) (s : StackImpl) → Moved k s s
Moved-refl cursor s = refl
Moved-refl whole s = tt

Moved-trans : (k : Extent) (s t u : StackImpl) → Moved k s t → Moved k t u → Moved k s u
Moved-trans cursor s t u p q = q ∙ p
Moved-trans whole s t u p q = tt

module _ {P : Platform} where
  -- The stack, so far, and the trace are all that differs.
  abbrev pub Touches : Extent → Host P → Host P → Type 0
  Touches k h h' =
      (s : StackImpl) × (t : StackTrace P.Foreign) × (h' ≡ touched h s t) × Moved k h.stack s

  -- Whatever the outcome of `m`, no more than that has changed.
  pub record Quiet {A : Type 0} (k : Extent) (m : Handler P A) : Type 0 where
    pub at : (h : Host P) → Touches k h (m h).1

  pub Quiet-trans :
      (k : Extent) (h h' h'' : Host P) → Touches k h h' → Touches k h' h'' → Touches k h h''
  Quiet-trans k h h' h'' (s, t, e, v) (s', t', e', v') = (
    s',
    t',
    e' ∙ ap (λ (g : Host P). touched g s' t') e,
    Moved-trans k h.stack s s' v (subst (λ (g : Host P). Moved k g.stack s') e v'),
  )

  continue-Touches :
      {A B : Type 0} (k : Extent) (f : A → Handler P B) (r : Result A (Error P.Foreign))
      (h h' : Host P)
      → ((a : A) → Quiet k (f a))
      → Touches k h h'
      → Touches k h (continue r f h').1
  continue-Touches k f (ok a) h h' q v = Quiet-trans k h h' _ v ((q a).at h')
  continue-Touches k f (err _) h h' q v = v
  continue-Touches k f panic h h' q v = v

  module _ (k : Extent) where
    pub Quiet-bind :
        {A B : Type 0} (m : Handler P A) (f : A → Handler P B)
        → Quiet k m
        → ((a : A) → Quiet k (f a))
        → Quiet k (m >>= f)
    unfolding ◌>>=◌
    Quiet-bind m f qm qf = record { at = λ h. continue-Touches k f (m h).0 h (m h).1 qf (qm.at h) }

    pub Quiet-attempt : {A : Type 0} (m : Handler P A) → Quiet k m → Quiet k (attempt m)
    Quiet-attempt m qm = record { at = λ h. qm.at h }

    pub Quiet-pure : {A : Type 0} (a : A) → Quiet k (pure {A = A} a)
    Quiet-pure a = record { at = λ h. (h.stack, h.stack_trace, refl, Moved-refl k h.stack) }

    pub Quiet-lift : {A : Type 0} (r : Result A (Error P.Foreign)) → Quiet k (lift r)
    Quiet-lift r = record { at = λ h. (h.stack, h.stack_trace, refl, Moved-refl k h.stack) }

    pub Quiet-gets : {A : Type 0} (f : Host P → A) → Quiet k (gets f)
    Quiet-gets f = record { at = λ h. (h.stack, h.stack_trace, refl, Moved-refl k h.stack) }

    pub Quiet-trace :
        (point : TracePoint) (message : List (Piece P.Foreign)) (e : Bool)
        → Quiet k (trace point message e)
    unfolding trace
    Quiet-trace point message e = record { at = λ h. (h.stack, _, refl, Moved-refl k h.stack) }

    pub Quiet-memory_manager : Quiet k memory_manager
    unfolding memory_manager
    Quiet-memory_manager = record { at = λ h. (h.stack, h.stack_trace, refl, Moved-refl k h.stack) }

    pub Quiet-get_memory : Quiet k get_memory
    unfolding get_memory
    Quiet-get_memory = record { at = λ h. (h.stack, h.stack_trace, refl, Moved-refl k h.stack) }

  pub Quiet-next_value : (k : Extent) → Quiet k next_value
  unfolding next_value get_with_step
  Quiet-next_value cursor = record { at = λ h. (_, h.stack_trace, refl, refl) }
  Quiet-next_value whole = record { at = λ h. (_, h.stack_trace, refl, tt) }

  pub Quiet-stack_clear : Quiet whole stack_clear
  unfolding stack_clear
  Quiet-stack_clear = record { at = λ h. (_, h.stack_trace, refl, tt) }

pub ruleset quiet_steps = (
  Quiet-bind, Quiet-attempt, Quiet-pure, Quiet-lift, Quiet-gets, Quiet-trace, Quiet-next_value,
  Quiet-stack_clear, Quiet-memory_manager, Quiet-get_memory,
)

module _ {P : Platform} where
  pub Quiet-next_values : (k : Extent) (n : ℕ) → Quiet k (next_values {P = P} n)
  unfolding next_values
  Quiet-next_values k zero = search quiet_steps
  Quiet-next_values k (suc n) =
      Quiet-bind k _ _ (Quiet-next_value k)
        λ v. Quiet-bind k _ _ (Quiet-next_values k n) λ vs. Quiet-pure k (v ∷ vs)

  pub Quiet-next_pairs : (k : Extent) (n : ℕ) → Quiet k (next_pairs {P = P} n)
  unfolding next_pairs
  Quiet-next_pairs k zero = search quiet_steps
  Quiet-next_pairs k (suc n) = Quiet-bind k _ _ (Quiet-next_value k) λ o.
      Quiet-bind k _ _ (Quiet-next_value k)
        λ z. Quiet-bind k _ _ (Quiet-next_pairs k n) λ ps. Quiet-pure k ((o, z) ∷ ps)

  pub Quiet-next_conditions : (k : Extent) (n : ℕ) → Quiet k (next_conditions {P = P} n)
  unfolding next_conditions
  Quiet-next_conditions k zero = search quiet_steps
  Quiet-next_conditions k (suc n) = Quiet-bind k _ _ (Quiet-next_value k) λ c.
      Quiet-bind k _ _ (Quiet-next_value k) λ o.
        Quiet-bind k _ _ (Quiet-lift k (from_column_and_operator c o))
          λ w. Quiet-bind k _ _ (Quiet-next_conditions k n) λ ws. Quiet-pure k (w ∷ ws)

  pub Quiet-read_point_hash : (k : Extent) (id : ℕ) → Quiet k (read_point_hash {P = P} id)
  unfolding read_point_hash
  Quiet-read_point_hash k id = search quiet_steps

  pub Quiet-read_columns : (k : Extent) → Quiet k (read_columns {P = P})
  unfolding read_columns
  Quiet-read_columns k = search (quiet_steps, Quiet-next_values)

  pub Quiet-read_segment_list : (k : Extent) → Quiet k (read_segment_list {P = P})
  unfolding read_segment_list
  Quiet-read_segment_list k = search (quiet_steps, Quiet-next_pairs)

  pub Quiet-read_conditions : (k : Extent) → Quiet k (read_conditions {P = P})
  unfolding read_conditions
  Quiet-read_conditions k = search (quiet_steps, Quiet-next_conditions)

pub ruleset quiet_rules = (
  quiet_steps, Quiet-next_values, Quiet-next_pairs, Quiet-next_conditions, Quiet-read_point_hash,
  Quiet-read_columns, Quiet-read_segment_list, Quiet-read_conditions,
)
