-- ===== src/Mercury.antt =====
-- The database of the test harness, on a postgres server: rs-zephyr-env/src/testutils/database.rs.
-- A name is the list of its characters, an i64 its value modulo 2 ^ 64.
pub mod Queries
pub mod Raw
pub mod Setup
use zephyr_vm.Prelude.{
  ℕ, ◌+◌, ◌-◌, ◌%◌, ◌^◌, ⊤, Bool, true, false, ◌&&◌, Option, none, some, String, List, [], ◌∷◌,
  ◌++◌, ltb, ◌==◌, if◌then◌else◌,
}
use zephyr_vm.Errors.{Result, ok, err, panic, DatabaseError, write_error}
use zephyr_vm.Exec.{Exec, pure, lift, abort, modify, ◌>>=◌, ◌>>◌}

-- The text of a query, in the parts that it is put together from: SQL, a column's name, the table of
-- a hash, and the place of a parameter.
pub data Word : Type 0 where
  sql : String → Word
  name : List ℕ → Word
  table : List ℕ → Word
  place : ℕ → Word

pub data PgType : Type 0 where
  int8 bytea : PgType

pub data WriteParam : Type 0 where
  bytes : List ℕ → WriteParam
  integer : ℕ → WriteParam

-- What a statement is given: a parameter of ours, or the name of a table.
pub data SqlParam : Type 0 where
  sql_bytes : List ℕ → SqlParam
  sql_integer : ℕ → SqlParam
  sql_table : List ℕ → SqlParam

abbrev pub as_tosql : WriteParam → SqlParam
as_tosql (bytes b) = sql_bytes b
as_tosql (integer n) = sql_integer n

-- The variants of rs_zephyr_common's `ZephyrVal` that the source names.
pub data ZephyrVal : Type 0 where
  val_i128 val_i64 val_u64 val_i32 val_u32 : ℕ → ZephyrVal
  other_val : ZephyrVal

-- postgres, and bincode. The server is the state; `get` panics where a column is not there or is no
-- text.
pub record Postgres : Type 1 where
  pub Server : Type 0
  pub Statement : Type 0
  pub Row : Type 0
  pub Cell : Type 0
  pub connect : Server → Bool
  pub prepare : Server → List Word → Option Statement
  pub prepare_typed : Server → List Word → List PgType → Option Statement
  pub query : Server → Statement → List SqlParam → Option (List Row)
  pub execute : Server → Statement → List SqlParam → Bool × Server
  pub get : Row → String → Option (List ℕ)
  pub cells : Row → List Cell
  pub cell_bytes : Cell → Option (List ℕ)
  pub cell_integer : Cell → Option ℕ
  pub deserialize_val : List ℕ → Option ZephyrVal
  pub serialize_val : ZephyrVal → List ℕ
  pub serialize_rows : List (List (List ℕ)) → List ℕ

-- `num as i64`
abbrev pub as_i64 : ZephyrVal → Option ℕ
as_i64 (val_i128 num) = some (num % 2 ^ 64)
as_i64 (val_i32 num) = some (if ltb num (2 ^ 31) then num else num + (2 ^ 64 - 2 ^ 32))
as_i64 (val_i64 num) = some num
as_i64 (val_u32 num) = some num
as_i64 (val_u64 num) = some num
as_i64 other_val = none

abbrev pub same_name : List ℕ → List ℕ → Bool
same_name [] [] = true
same_name [] (d ∷ ds) = false
same_name (c ∷ cs) [] = false
same_name (c ∷ cs) (d ∷ ds) = c == d && same_name cs ds

-- The text "bigint".
abbrev pub bigint : List ℕ
bigint = 98 ∷ 105 ∷ 103 ∷ 105 ∷ 110 ∷ 116 ∷ []

-- The types of a table's columns, the last that was inserted first.
abbrev pub TypesMap : Type 0
TypesMap = List (List ℕ × List ℕ)

unfoldable pub type_in : TypesMap → List ℕ → Option (List ℕ)
type_in [] col = none
type_in ((other, col_type) ∷ types) col =
    let rest = type_in types col in if same_name other col then some col_type else rest

-- A query as it is put together, with its parameters and their types.
pub record Built : Type 0 where
  pub query : List Word
  pub owned_params : List WriteParam
  pub types : List PgType

abbrev pub nothing_built : Built
nothing_built = record { query = []; owned_params = []; types = [] }

abbrev pub Building : Type 0 → Type 0
Building A = Exec Built DatabaseError A

abbrev pub push_str : Word → Building ⊤
push_str w = modify λ b. record b { query = b.query ++ (w ∷ []) }

-- A separator, between two of a list.
unfoldable pub unless_last : {A : Type 0} → List A → String → Building ⊤
unless_last [] s = pure tt
unless_last (x ∷ xs) s = push_str (sql s)

-- `&written[idx]`, of what is left from that place on.
abbrev pub indexed : List (List ℕ) → Building (List ℕ)
indexed [] = abort
indexed (b ∷ bs) = pure b

abbrev pub push_param : WriteParam → PgType → Building ⊤
push_param p t =
    modify λ b. record b { owned_params = b.owned_params ++ (p ∷ []); types = b.types ++ (t ∷ []) }

module _ (pg : Postgres) where
  -- The integer of a serialized value, for a column of type bigint.
  unfoldable pub native_of : List ℕ → Result ℕ DatabaseError
  native_of raw = elim (pg.deserialize_val raw) [
    | none ↦ err write_error
    | some val ↦ elim (as_i64 val) [ none ↦ err write_error | some num ↦ ok num ]
  ]

  unfoldable pub bound_as : Bool → List ℕ → Building ⊤
  bound_as true raw = do native ← lift (native_of raw); push_param (integer native) int8
  bound_as false raw = push_param (bytes raw) bytea

  -- A parameter by the type of its column.
  unfoldable pub bound_param : List ℕ → List ℕ → Building ⊤
  unfolding bound_as
  bound_param col_type raw = bound_as (same_name col_type bigint) raw
