-- ===== src/Host/Messages.antt =====
-- The messages that a guest pushes for a database call, as an independent description of what
-- rs-zephyr-env/src/host/database.rs decodes, and the runs of the decoder on them.
use zephyr_vm.Prelude.{ℕ, ◌+◌, ◌*◌, ◌/◌, ◌^◌, ◌<◌, ◌≡◌, refl, List, [], ◌∷◌, ◌++◌, length, arith}
use zephyr_vm.Errors.{ok}
use zephyr_vm.Database.{WhereCond, col_eq, col_gt, col_lt, from_column_and_operator}
use zephyr_vm.Platform.{Platform}
use zephyr_vm.Host.{Host}
use zephyr_vm.Host.Runs.{
  touched, Left, Reads, Reads-bind, Reads-pure, Reads-lift, Reads-next_value, Reads-next_values,
}
use zephyr_vm.Host.Instructions.{
  doubled, next_pairs, next_conditions, read_point_hash, point_bytes, read_columns,
  read_segment_list, read_conditions,
}

-- Each pair as two numbers, in front of what follows.
abbrev pub pairs : List (ℕ × ℕ) → List ℕ → List ℕ
pairs [] r = r
pairs ((offset, size) ∷ ps) r = offset ∷ size ∷ pairs ps r

abbrev pub column_of : WhereCond → ℕ
column_of (col_eq c) = c
column_of (col_gt c) = c
column_of (col_lt c) = c

abbrev pub operator_of : WhereCond → ℕ
operator_of (col_eq c) = 0
operator_of (col_gt c) = 1
operator_of (col_lt c) = 2

abbrev pub conds : List WhereCond → List ℕ → List ℕ
conds [] r = r
conds (w ∷ ws) r = column_of w ∷ operator_of w ∷ conds ws r

-- A list behind its length.
abbrev pub columns_message : List ℕ → List ℕ → List ℕ
columns_message columns r = length columns ∷ (columns ++ r)

abbrev pub segments_message : List (ℕ × ℕ) → List ℕ → List ℕ
segments_message segments r = length segments ∷ pairs segments r

abbrev pub conditions_message : List WhereCond → List ℕ → List ℕ
conditions_message conditions r = length conditions ∷ conds conditions r

-- The operator code of a condition decodes to it.
from_column_and_operator-code :
    {F : Type 0} (w : WhereCond)
    → from_column_and_operator {F = F} (column_of w) (operator_of w) ≡ ok w
unfolding from_column_and_operator
from_column_and_operator-code (col_eq c) = refl
from_column_and_operator-code (col_gt c) = refl
from_column_and_operator-code (col_lt c) = refl

-- Below 2 ^ 62 the doubled number does not overflow, and its half is the number of rounds.
pub doubled_small : {F : Type 0} (n : ℕ) → n < 2 ^ 62 → doubled {F = F} n ≡ ok (2 * n)
unfolding doubled
doubled_small n h = ground arith

pub rounds_doubled : (n : ℕ) → (2 * n + 1) / 2 ≡ n
rounds_doubled n = omega arith

module _ {P : Platform} where
  pub Reads-point_hash :
      (id point : ℕ) (r : List ℕ) (h : Host P)
      → Left (point ∷ r) h.stack
      → Reads (read_point_hash id) h (P.md5 (point_bytes point id)) (Left r)
  unfolding read_point_hash
  Reads-point_hash id point r h e =
      Reads-bind _ (Reads-next_value point r h e) λ s t l. Reads-pure (Left r) (touched h s t) l _

  Reads-next_pairs :
      (ps : List (ℕ × ℕ)) (r : List ℕ) (h : Host P)
      → Left (pairs ps r) h.stack
      → Reads (next_pairs (length ps)) h ps (Left r)
  unfolding next_pairs
  Reads-next_pairs [] r h e = Reads-pure (Left r) h e []
  Reads-next_pairs ((o, z) ∷ ps) r h e = Reads-bind _ (Reads-next_value o _ h e) λ s t l.
      Reads-bind _ (Reads-next_value z _ (touched h s t) l) λ s t l.
        Reads-bind _ (Reads-next_pairs ps r (touched h s t) l)
          λ s t l. Reads-pure (Left r) (touched h s t) l _

  pub Reads-next_conditions :
      (ws : List WhereCond) (r : List ℕ) (h : Host P)
      → Left (conds ws r) h.stack
      → Reads (next_conditions (length ws)) h ws (Left r)
  unfolding next_conditions
  Reads-next_conditions [] r h e = Reads-pure (Left r) h e []
  Reads-next_conditions (w ∷ ws) r h e =
      Reads-bind _ (Reads-next_value (column_of w) _ h e) λ s t l.
        Reads-bind _ (Reads-next_value (operator_of w) _ (touched h s t) l) λ s t l.
          Reads-bind _
            (Reads-lift (Left (conds ws r)) (touched h s t) l _ w (from_column_and_operator-code w))
            λ s t l.
              Reads-bind _ (Reads-next_conditions ws r (touched h s t) l)
                λ s t l. Reads-pure (Left r) (touched h s t) l _

  pub Reads-columns :
      (columns r : List ℕ) (h : Host P)
      → Left (columns_message columns r) h.stack
      → Reads read_columns h columns (Left r)
  unfolding read_columns
  Reads-columns columns r h e =
      Reads-bind _ (Reads-next_value (length columns) _ h e)
        λ s t l. Reads-next_values columns r (touched h s t) l

  pub Reads-segment_list :
      (ps : List (ℕ × ℕ)) (r : List ℕ) (h : Host P)
      → length ps < 2 ^ 62
      → Left (segments_message ps r) h.stack
      → Reads read_segment_list h ps (Left r)
  unfolding read_segment_list
  Reads-segment_list ps r h fits e = Reads-bind _ (Reads-next_value (length ps) _ h e) λ s t l.
      Reads-bind _
        (Reads-lift (Left (pairs ps r)) (touched h s t) l _ _ (doubled_small (length ps) fits))
        λ s t l. rw (rounds_doubled (length ps)) (Reads-next_pairs ps r (touched h s t) l)

  pub Reads-conditions :
      (ws : List WhereCond) (r : List ℕ) (h : Host P)
      → length ws < 2 ^ 62
      → Left (conditions_message ws r) h.stack
      → Reads read_conditions h ws (Left r)
  unfolding read_conditions
  Reads-conditions ws r h fits e = Reads-bind _ (Reads-next_value (length ws) _ h e) λ s t l.
      Reads-bind _
        (Reads-lift (Left (conds ws r)) (touched h s t) l _ _ (doubled_small (length ws) fits))
        λ s t l. rw (rounds_doubled (length ws)) (Reads-next_conditions ws r (touched h s t) l)
