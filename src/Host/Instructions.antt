-- ===== src/Host/Instructions.antt =====
-- The instructions that a database call reads from the pseudo stack:
-- rs-zephyr-env/src/host/database.rs. The three calls share these blocks.
use zephyr_vm.Prelude.{
  ℕ, zero, suc, ◌+◌, ◌*◌, ◌/◌, ◌%◌, ◌^◌, List, [], ◌∷◌, ◌++◌, ltb, if◌then◌else◌,
}
use zephyr_vm.Errors.{Result, ok, panic, Error}
use zephyr_vm.Exec.{pure, lift, ◌>>=◌}
use zephyr_vm.Database.{WhereCond, from_column_and_operator}
use zephyr_vm.Utils.{i64_to_bytes}
use zephyr_vm.Platform.{Platform}
use zephyr_vm.Host.{Handler}
use zephyr_vm.Host.State.{next_value}

-- `(non_fixed * 2) as usize`; the product of two `i64` is checked for overflow.
unfoldable pub doubled : {F : Type 0} → ℕ → Result ℕ (Error F)
doubled non_fixed =
    if ltb non_fixed (2 ^ 62)
    then ok (2 * non_fixed)
    else if ltb non_fixed (3 * 2 ^ 62)
    then panic
    else ok (2 * non_fixed % 2 ^ 64)

-- How often `(0..n).step_by(2)` runs.
abbrev pub rounds_by_two : ℕ → ℕ
rounds_by_two n = (n + 1) / 2

-- How often `0..n` runs at an `i64`.
abbrev pub signed_rounds : ℕ → ℕ
signed_rounds n = if ltb n (2 ^ 63) then n else 0

-- The input of the table hash: the name, then the user.
abbrev pub point_bytes : ℕ → ℕ → List ℕ
point_bytes point_raw id = i64_to_bytes point_raw ++ i64_to_bytes id

module _ {P : Platform} where
  unfoldable pub read_point_hash : ℕ → Handler P (List ℕ)
  read_point_hash id = do point_raw ← next_value; pure (P.md5 (point_bytes point_raw id))

  unfoldable pub next_values : ℕ → Handler P (List ℕ)
  next_values zero = pure []
  next_values (suc n) = do value ← next_value; values ← next_values n; pure (value ∷ values)

  unfoldable pub next_pairs : ℕ → Handler P (List (ℕ × ℕ))
  next_pairs zero = pure []
  next_pairs (suc n) = do
    offset ← next_value
    size ← next_value
    segments ← next_pairs n
    pure ((offset, size) ∷ segments)

  unfoldable pub next_conditions : ℕ → Handler P (List WhereCond)
  next_conditions zero = pure []
  next_conditions (suc n) = do
    column ← next_value
    operator ← next_value
    condition ← lift (from_column_and_operator column operator)
    conditions ← next_conditions n
    pure (condition ∷ conditions)

  -- `for _ in 0..columns_size_idx as usize`
  unfoldable pub read_columns : Handler P (List ℕ)
  read_columns = do columns_size_idx ← next_value; next_values columns_size_idx

  -- The list of pairs behind their number: data segments, and condition arguments.
  unfoldable pub read_segment_list : Handler P (List (ℕ × ℕ))
  read_segment_list = do
    non_fixed ← next_value
    segments_size_idx ← lift (doubled non_fixed)
    next_pairs (rounds_by_two segments_size_idx)

  unfoldable pub read_conditions : Handler P (List WhereCond)
  read_conditions = do
    non_fixed ← next_value
    conditions_length ← lift (doubled non_fixed)
    next_conditions (rounds_by_two conditions_length)
