-- ===== src/Exec.antt =====
-- Code that mutates a state and may fail. What was written before an error stays written, so the
-- state comes back beside the error.
use zephyr_vm.Prelude.{◌≡◌, refl, ⊤, Option, none, some}
use zephyr_vm.Errors.{Result, ok, err, panic}

abbrev pub Exec : Type 0 → Type 0 → Type 0 → Type 0
Exec S E A = S → Result A E × S

module _ {S E A : Type 0} where
  abbrev pub pure : A → Exec S E A
  pure a s = (ok a, s)

  abbrev pub raise : E → Exec S E A
  raise e s = (err e, s)

  abbrev pub abort : Exec S E A
  abort s = (panic, s)

  abbrev pub lift : Result A E → Exec S E A
  lift r s = (r, s)

  abbrev pub gets : (S → A) → Exec S E A
  gets f s = (ok (f s), s)

  -- `ok_or`, followed by `?`
  abbrev pub ok_or : Option A → E → Exec S E A
  ok_or none e s = (err e, s)
  ok_or (some a) e s = (ok a, s)

abbrev pub dropped_error : {A E : Type 0} → Result A E → Result (Option A) E
dropped_error (ok a) = ok (some a)
dropped_error (err e) = ok none
dropped_error panic = panic

-- `if let Ok(..) = ..`: an error is dropped, and the state that came with it stays.
abbrev pub attempt : {S E A : Type 0} → Exec S E A → Exec S E (Option A)
attempt m s = let (r, s') = m s in (dropped_error r, s')

abbrev pub modify : {S E : Type 0} → (S → S) → Exec S E ⊤
modify f s = (ok tt, f s)

module _ {E A B : Type 0} where
  -- what follows a `?`
  abbrev pub continue : {S : Type 0} → Result A E → (A → Exec S E B) → Exec S E B
  continue (ok a) f s = f a s
  continue (err e) f s = (err e, s)
  continue panic f s = (panic, s)

  -- The same without a state.
  abbrev pub and_then : Result A E → (A → Result B E) → Result B E
  and_then (ok a) f = f a
  and_then (err e) f = err e
  and_then panic f = panic

infixl 5 ◌>>=◌ ◌>>◌
unfoldable pub ◌>>=◌ : {S E A B : Type 0} → Exec S E A → (A → Exec S E B) → Exec S E B
◌>>=◌ m f s = let (r, s') = m s in continue r f s'

abbrev pub ◌>>◌ : {S E B : Type 0} → Exec S E ⊤ → Exec S E B → Exec S E B
m >> k = m >>= λ _. k

-- `unwrap`: an error becomes a panic.
abbrev pub unwrap : {A D E : Type 0} → Result A D → Result A E
unwrap (ok a) = ok a
unwrap (err e) = panic
unwrap panic = panic

-- The same of a whole computation.
unfoldable pub unwrapped : {S A D E : Type 0} → Exec S D A → Exec S E A
unwrapped m s = let (r, s') = m s in (unwrap r, s')

-- The outcome as a value, for code that goes on with it; a panic stays one.
abbrev pub outcome : {A E : Type 0} → Result A E → Result (Result A E) E
outcome (ok a) = ok (ok a)
outcome (err e) = ok (err e)
outcome panic = panic

unfoldable pub caught : {S A E : Type 0} → Exec S E A → Exec S E (Result A E)
caught m s = let (r, s') = m s in (outcome r, s')

-- `unwrap` of an Option.
abbrev pub unwrap_some : {A E : Type 0} → Option A → Result A E
unwrap_some (some a) = ok a
unwrap_some none = panic

-- The conversion of the error at a `?`.
abbrev pub map_err : {A D E : Type 0} → (D → E) → Result A D → Result A E
map_err f (ok a) = ok a
map_err f (err e) = err (f e)
map_err f panic = panic

abbrev pub map_ok : {A B E : Type 0} → (A → B) → Result A E → Result B E
map_ok f (ok a) = ok (f a)
map_ok f (err e) = err e
map_ok f panic = panic

-- A step of a run that has gone well.
pub bind_ok :
    {S E A B : Type 0} (m : Exec S E A) (f : A → Exec S E B) (s s' : S) (a : A)
    → m s ≡ (ok a, s')
    → (m >>= f) s ≡ f a s'
unfolding ◌>>=◌
bind_ok m f s s' a e = rw (e, continue)

pub bind_err :
    {S E A B : Type 0} (m : Exec S E A) (f : A → Exec S E B) (s s' : S) (e : E)
    → m s ≡ (err e, s')
    → (m >>= f) s ≡ (err e, s')
unfolding ◌>>=◌
bind_err m f s s' a e = rw (e, continue)

pub bind_panic :
    {S E A B : Type 0} (m : Exec S E A) (f : A → Exec S E B) (s : S)
    → (m s).0 ≡ panic
    → ((m >>= f) s).0 ≡ panic
unfolding ◌>>=◌
bind_panic m f s e = rw (e, continue)

-- What has come out well came of something that did.
module _ {E A B : Type 0} where
  pub and_then-ok :
      (r : Result A E) (f : A → Result B E) (b : B)
      → and_then r f ≡ ok b
      → (a : A) × (r ≡ ok a) × (f a ≡ ok b)
  and_then-ok (ok a) f b e = (a, refl, e)
  and_then-ok (err x) f b e = absurd (cc e)
  and_then-ok panic f b e = absurd (cc e)

  pub map_ok-ok :
      (f : A → B) (r : Result A E) (b : B) → map_ok f r ≡ ok b → (a : A) × (r ≡ ok a) × (f a ≡ b)
  map_ok-ok f (ok a) b e = (a, refl, cc e)
  map_ok-ok f (err x) b e = absurd (cc e)
  map_ok-ok f panic b e = absurd (cc e)

pub continue-ok :
    {S E A B : Type 0} (r : Result A E) (f : A → Exec S E B) (s s' : S) (b : B)
    → continue r f s ≡ (ok b, s')
    → (a : A) × (r ≡ ok a) × (f a s ≡ (ok b, s'))
continue-ok (ok a) f s s' b e = (a, refl, e)
continue-ok (err x) f s s' b e = absurd (cc e)
continue-ok panic f s s' b e = absurd (cc e)
