-- ===== src/Prelude/Lists.antt =====
-- Lists measured and indexed by native numbers, under the library's names.
use Prim.Native.Nat.{ℕ, zero, suc, ◌+◌, ◌≤◌}
use mathlib.Core.Path.{◌≡◌, refl}
use mathlib.Core.List.{List, [], ◌∷◌, ◌++◌}
use mathlib.Core.Option.{Option, none, some}
use native.Mathlib.Omega.{arith}

module _ {ℓ} {A : Type ℓ} where
  abbrev pub length : List A → ℕ
  length [] = 0
  length (x ∷ xs) = suc (length xs)

  abbrev pub get_elem? : List A → ℕ → Option A
  get_elem? [] i = none
  get_elem? (x ∷ xs) zero = some x
  get_elem? (x ∷ xs) (suc i) = get_elem? xs i

  abbrev pub take : ℕ → List A → List A
  take zero xs = []
  take (suc n) [] = []
  take (suc n) (x ∷ xs) = x ∷ take n xs

  abbrev pub drop : ℕ → List A → List A
  drop zero xs = xs
  drop (suc n) [] = []
  drop (suc n) (x ∷ xs) = drop n xs

  pub length-append : (xs ys : List A) → length (xs ++ ys) ≡ length xs + length ys
  length-append [] ys = omega arith
  length-append (x ∷ xs) ys = omega (arith, length-append xs ys)

  -- The head of what is left from a place on, and what is left behind it.
  pub get_elem?-eq_head :
      (xs : List A) (n : ℕ) (x : A) (r : List A) → drop n xs ≡ x ∷ r → get_elem? xs n ≡ some x
  get_elem?-eq_head [] zero x r e = ground arith
  get_elem?-eq_head [] (suc n) x r e = ground arith
  get_elem?-eq_head (y ∷ xs) zero x r e = ground arith
  get_elem?-eq_head (y ∷ xs) (suc n) x r e = get_elem?-eq_head xs n x r e

  pub drop-suc :
      (xs : List A) (n : ℕ) (x : A) (r : List A) → drop n xs ≡ x ∷ r → drop (suc n) xs ≡ r
  drop-suc [] zero x r e = ground arith
  drop-suc [] (suc n) x r e = ground arith
  drop-suc (y ∷ xs) zero x r e = ground arith
  drop-suc (y ∷ xs) (suc n) x r e = drop-suc xs n x r e

  pub get_elem?-eq_none : (xs : List A) (n : ℕ) → length xs ≤ n → get_elem? xs n ≡ none
  get_elem?-eq_none [] n h = refl
  get_elem?-eq_none (x ∷ xs) zero h = elim h [ ]
  get_elem?-eq_none (x ∷ xs) (suc n) h = get_elem?-eq_none xs n (omega arith)

  pub drop-eq_nil : (xs : List A) (n : ℕ) → drop n xs ≡ [] → length xs ≤ n
  drop-eq_nil [] n e = omega arith
  drop-eq_nil (x ∷ xs) zero e = ground arith
  drop-eq_nil (x ∷ xs) (suc n) e = omega (arith, drop-eq_nil xs n e)
