-- ===== src/Prelude/Bits.antt =====
-- Digit laws of `bit_and` and `bit_or`, for the masks and shifts of the program.
use Prim.Native.Nat.{
  ℕ, zero, suc, ◌+◌, ◌*◌, ◌/◌, ◌%◌, ◌≤◌, ◌<◌, min, max, bit_and, bit_or, digits, bit_and-bitwise,
  bit_or-bitwise,
}
use mathlib.Core.Path.{◌≡◌, refl, ap}
use native.Mathlib.Omega.{arith}

-- The digit loop that the two operations stand for gives the same with any fuel that covers the
-- first number.
module _ (rest : ℕ → ℕ) (pick : ℕ → ℕ → ℕ) where
  fuel_enough : (b a n m : ℕ) → a ≤ n → a ≤ m → digits rest pick n a b ≡ digits rest pick m a b
  fuel_enough b zero zero zero _ _ = refl
  fuel_enough b zero zero (suc m) _ _ = refl
  fuel_enough b zero (suc n) zero _ _ = refl
  fuel_enough b zero (suc n) (suc m) _ _ = refl
  fuel_enough b (suc a) zero m less _ = absurd (omega arith)
  fuel_enough b (suc a) (suc n) zero _ less = absurd (omega arith)
  fuel_enough b (suc a) (suc n) (suc m) less less' =
      let halves = fuel_enough (b / 2) (suc a / 2) n m (omega arith) (omega arith) in
      ap (λ (t : ℕ). t * 2 + pick (suc a % 2) (b % 2)) halves

-- One digit of a conjunction, and one of a disjunction.
pub bit_and_step : (a b : ℕ) → bit_and a b ≡ bit_and (a / 2) (b / 2) * 2 + min (a % 2) (b % 2)
bit_and_step zero b = omega (bit_and-bitwise 0 (b / 2), bit_and-bitwise 0 b, arith)
bit_and_step (suc n) b =
    let half = suc n / 2 in
    omega (
      fuel_enough (λ _. zero) min (b / 2) half n half (omega arith) (omega arith),
      bit_and-bitwise half (b / 2),
      bit_and-bitwise (suc n) b,
      arith,
    )

pub bit_or_step : (a b : ℕ) → bit_or a b ≡ bit_or (a / 2) (b / 2) * 2 + max (a % 2) (b % 2)
bit_or_step zero b = omega (bit_or-bitwise 0 (b / 2), bit_or-bitwise 0 b, arith)
bit_or_step (suc n) b =
    let half = suc n / 2 in
    omega (
      fuel_enough (λ rest. rest) max (b / 2) half n half (omega arith) (omega arith),
      bit_or-bitwise half (b / 2),
      bit_or-bitwise (suc n) b,
      arith,
    )

-- Nothing is in common with 0, and 0 adds nothing: below a bound, then for every number.
both_zero : (bound a : ℕ) → a ≤ bound → (bit_and a 0 ≡ 0) × (bit_or a 0 ≡ a)
both_zero bound zero h = (refl, refl)
both_zero zero (suc a) h = absurd (omega arith)
both_zero (suc bound) (suc a) h =
    let (none_left, all_left) = both_zero bound (suc a / 2) (omega arith) in
    (
      omega (none_left, bit_and_step (suc a) 0, arith),
      omega (all_left, bit_or_step (suc a) 0, arith),
    )

pub bit_and-zero : (a : ℕ) → bit_and a 0 ≡ 0
bit_and-zero a = (both_zero a a (omega arith)).0

-- A doubled number has its lowest digit free.
bit_or-double : (a b : ℕ) → bit_or (2 * a) b ≡ 2 * bit_or a (b / 2) + b % 2
bit_or-double a b =
    let e : 2 * a / 2 ≡ a = omega arith in rw (bit_or_step (2 * a) b) (rw e (omega arith))

-- A field of six digits below a shifted number.
pub bit_or_six : (a v : ℕ) → v < 64 → bit_or (64 * a) v ≡ 64 * a + v
bit_or_six a v h = omega (
  arith,
  ap (λ (t : ℕ). bit_or t v) (regroup a),
  bit_or-double (2 * (2 * (2 * (2 * (2 * a))))) v,
  bit_or-double (2 * (2 * (2 * (2 * a)))) (v / 2),
  bit_or-double (2 * (2 * (2 * a))) (v / 2 / 2),
  bit_or-double (2 * (2 * a)) (v / 2 / 2 / 2),
  bit_or-double (2 * a) (v / 2 / 2 / 2 / 2),
  bit_or-double a (v / 2 / 2 / 2 / 2 / 2),
  ap (λ (t : ℕ). bit_or a t) (used_up v h),
  (both_zero a a (omega arith)).1,
)
  where
    regroup : (a : ℕ) → 64 * a ≡ 2 * (2 * (2 * (2 * (2 * (2 * a)))))
    regroup a = omega arith

    used_up : (v : ℕ) → v < 64 → v / 2 / 2 / 2 / 2 / 2 / 2 ≡ 0
    used_up v h = omega arith

-- The tag 14 below a number that is shifted by eight digits.
pub bit_or_tag : (a : ℕ) → bit_or (256 * a) 14 ≡ 256 * a + 14
bit_or_tag a = omega (
  arith,
  ap (λ (t : ℕ). bit_or t 14) (regroup a),
  bit_or-double (64 * (2 * a)) 14,
  bit_or_six (2 * a) 7 (omega arith),
)
  where
    regroup : (a : ℕ) → 256 * a ≡ 2 * (64 * (2 * a))
    regroup a = omega arith

-- A mask of six ones keeps the six lowest digits.
pub bit_and_six : (a : ℕ) → bit_and a 63 ≡ a % 64
bit_and_six a = omega (
  arith,
  bit_and_step a 63,
  bit_and_step (a / 2) 31,
  bit_and_step (a / 2 / 2) 15,
  bit_and_step (a / 2 / 2 / 2) 7,
  bit_and_step (a / 2 / 2 / 2 / 2) 3,
  bit_and_step (a / 2 / 2 / 2 / 2 / 2) 1,
  bit_and-zero (a / 2 / 2 / 2 / 2 / 2 / 2),
)

-- A mask of eight ones keeps the lowest byte.
pub bit_and_byte : (a : ℕ) → bit_and a 255 ≡ a % 256
bit_and_byte a =
    omega (arith, bit_and_step a 255, bit_and_step (a / 2) 127, bit_and_six (a / 2 / 2))

-- The mask 14 looks at the digits of weight 2, 4 and 8 alone.
pub bit_and_tag : (a : ℕ) → bit_and a 14 ≡ a % 16 / 2 * 2
bit_and_tag a = omega (
  arith,
  bit_and_step a 14,
  bit_and_step (a / 2) 7,
  bit_and_step (a / 2 / 2) 3,
  bit_and_step (a / 2 / 2 / 2) 1,
  bit_and-zero (a / 2 / 2 / 2 / 2),
)
