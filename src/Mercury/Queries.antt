-- ===== src/Mercury/Queries.antt =====
-- The loops that put the queries together: `read_raw`, `write_raw` and `update_raw` of
-- rs-zephyr-env/src/testutils/database.rs.
pub mod Places
pub mod Bound
pub mod Select
pub mod Written
pub mod Conditions
pub mod Updated
use zephyr_vm.Prelude.{ℕ, ◌+◌, ⊤, Option, none, some, String, List, [], ◌∷◌, drop, length, map}
use zephyr_vm.Errors.{Result, ok, err, panic, DatabaseError, write_error}
use zephyr_vm.Exec.{Exec, pure, lift, abort, gets, ok_or, ◌>>=◌, ◌>>◌}
use zephyr_vm.Database.{WhereCond, col_eq, col_gt, col_lt}
use zephyr_vm.Symbol.{to_string}
use zephyr_vm.Mercury.{
  Word, sql, name, table, place, WriteParam, Postgres, TypesMap, type_in, Built, Building, push_str,
  unless_last, indexed, bound_param,
}

-- `symbol::Symbol(..).to_string()`, with the error of the place.
abbrev column_error : {A E : Type 0} → DatabaseError → Result A E → Result A DatabaseError
column_error d (ok a) = ok a
column_error d (err e) = err d
column_error d panic = panic

unfoldable pub column_name : DatabaseError → ℕ → Result (List ℕ) DatabaseError
column_name d val = column_error d (to_string val)

-- `unwrap` of a lookup
abbrev pub expected : {A : Type 0} → Option A → Building A
expected none = abort
expected (some a) = pure a

abbrev operator_of : WhereCond → String
operator_of (col_eq column) = " = "
operator_of (col_gt column) = " > "
operator_of (col_lt column) = " < "

abbrev column_of : WhereCond → ℕ
column_of (col_eq column) = column
column_of (col_gt column) = column
column_of (col_lt column) = column

-- `for n in 1..=owned_params.len()`
unfoldable pub value_places : ℕ → List WriteParam → Building ⊤
value_places n [] = pure tt
value_places n (p ∷ ps) = do push_str (place n); unless_last ps ", "; value_places (n + 1) ps

module _ (pg : Postgres) (types_map : TypesMap) where
  -- The columns of an INSERT, each with its parameter.
  unfoldable pub insert_columns : List ℕ → List (List ℕ) → Building ⊤
  insert_columns [] written = pure tt
  insert_columns (val ∷ vals) written = do
    col ← lift (column_name write_error val)
    raw ← indexed written
    push_str (name col)
    col_type ← expected (type_in types_map col)
    bound_param pg col_type raw
    unless_last vals ", "
    insert_columns vals (drop 1 written)

  -- The columns of an UPDATE; `idx` of them went before.
  unfoldable pub set_columns : ℕ → List ℕ → List (List ℕ) → Building ⊤
  set_columns idx [] written = pure tt
  set_columns idx (val ∷ vals) written = do
    col ← lift (column_name write_error val)
    raw ← indexed written
    push_str (name col)
    push_str (sql " = ")
    push_str (place (idx + 1))
    unless_last vals ", "
    col_type ← ok_or (type_in types_map col) write_error
    bound_param pg col_type raw
    set_columns (idx + 1) vals (drop 1 written)

  -- The conditions after a WHERE; `idx` parameters went before.
  unfoldable pub where_conditions : ℕ → List WhereCond → List (List ℕ) → Building ⊤
  where_conditions idx [] args = pure tt
  where_conditions idx (cond ∷ conds) args = do
    colname ← lift (column_name write_error (column_of cond))
    push_str (name colname)
    push_str (sql (operator_of cond))
    push_str (place (idx + 1))
    unless_last conds " AND "
    col_type ← ok_or (type_in types_map colname) write_error
    param_raw ← indexed args
    bound_param pg col_type param_raw
    where_conditions (idx + 1) conds (drop 1 args)

  -- The statement of `write_raw`.
  unfoldable pub insert_query : List ℕ → List ℕ → List (List ℕ) → Building ⊤
  insert_query hash write_data written = do
    push_str (sql "INSERT INTO ")
    push_str (table hash)
    push_str (sql " (")
    insert_columns write_data written
    push_str (sql ")")
    push_str (sql " VALUES (")
    params ← gets (λ b. b.owned_params)
    value_places 1 params
    push_str (sql ")")

  -- The statement of `update_raw`.
  unfoldable pub update_query :
      List ℕ → List ℕ → List (List ℕ) → List WhereCond → List (List ℕ) → Building ⊤
  update_query hash write_data written condition condition_args = do
    push_str (sql "UPDATE ")
    push_str (table hash)
    push_str (sql " SET ")
    set_columns 0 write_data written
    push_str (sql " WHERE ")
    where_conditions (length write_data) condition condition_args

  unfoldable pub column_words : List (List ℕ) → Building ⊤
  column_words [] = pure tt
  column_words (col ∷ cols) = do push_str (name col); unless_last cols ", "; column_words cols

  -- Without conditions there is no WHERE. Indexing no arguments is a panic, as `unwrap` of none is.
  unfoldable pub where_clause : Option (List WhereCond) → Option (List (List ℕ)) → Building ⊤
  where_clause none condition_args = pure tt
  where_clause (some condition) none = do push_str (sql " WHERE "); where_conditions 0 condition []
  where_clause (some condition) (some args) = do
    push_str (sql " WHERE ")
    where_conditions 0 condition args

  -- The statement of `read_raw`.
  unfoldable pub select_query :
      List ℕ → List (List ℕ) → Option (List WhereCond) → Option (List (List ℕ)) → Building ⊤
  select_query hash columns condition condition_args = do
    push_str (sql "SELECT ")
    column_words columns
    push_str (sql " FROM ")
    push_str (table hash)
    where_clause condition condition_args
