-- ===== src/Stack/Reads.antt =====
-- What the cursor of the stack still has in front of it.
use zephyr_vm.Prelude.{
  ℕ, ◌+◌, ◌≤◌, ◌≡◌, List, ◌∷◌, drop, length, get_elem?-eq_head, drop-suc, get_elem?-eq_none,
}
use zephyr_vm.Errors.{ok, err, no_val_on_stack}
use zephyr_vm.Stack.{StackImpl, get_with_step}
use native.Mathlib.Numerals.{add-one}

abbrev pub unread : StackImpl → List ℕ
unread s = drop s.step s.inner

-- The stack with the cursor moved on.
abbrev pub advance : ℕ → StackImpl → StackImpl
advance n s = record s { step = s.step + n }

pub get_with_step_next :
    {F : Type 0} (s : StackImpl) (x : ℕ) (r : List ℕ)
    → unread s ≡ x ∷ r
    → get_with_step {F = F} s ≡ (ok x, advance 1 s)
unfolding get_with_step
get_with_step_next s x r e = rw (get_elem?-eq_head s.inner s.step x r e)

pub unread-advance :
    (s : StackImpl) (x : ℕ) (r : List ℕ) → unread s ≡ x ∷ r → unread (advance 1 s) ≡ r
unread-advance s x r e = rw add-one (drop-suc s.inner s.step x r e)

pub get_with_step_end :
    {F : Type 0} (s : StackImpl)
    → length s.inner ≤ s.step
    → get_with_step {F = F} s ≡ (err no_val_on_stack, advance 1 s)
unfolding get_with_step
get_with_step_end s h = rw (get_elem?-eq_none s.inner s.step h)
