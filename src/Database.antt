-- ===== src/Database.antt =====
-- The interface to the implementor's database: rs-zephyr-env/src/db/database.rs.
use zephyr_vm.Prelude.{ℕ, ⊤, Option, List, ◌==◌, if◌then◌else◌}
use zephyr_vm.Errors.{Result, ok, err, Error, database, DatabaseError, operator_error}

pub data WhereCond : Type 0 where
  col_eq col_gt col_lt : ℕ → WhereCond

unfoldable pub from_column_and_operator : {F : Type 0} → ℕ → ℕ → Result WhereCond (Error F)
from_column_and_operator col operator =
    if operator == 0
    then ok (col_eq col)
    else if operator == 1
    then ok (col_gt col)
    else if operator == 2
    then ok (col_lt col)
    else err (database operator_error)

-- The trait. A value of `Db` is what the database holds; a write returns what it holds afterwards.
pub record ZephyrDatabase : Type 1 where
  pub Db : Type 0
  pub read_raw :
      Db
      → ℕ
      → List ℕ
      → List ℕ
      → Option (List WhereCond)
      → Option (List (List ℕ))
      → Result (List ℕ) DatabaseError
  pub write_raw : Db → ℕ → List ℕ → List ℕ → List (List ℕ) → Result ⊤ DatabaseError × Db
  pub update_raw :
      Db
      → ℕ
      → List ℕ
      → List ℕ
      → List (List ℕ)
      → List WhereCond
      → List (List ℕ)
      → Result ⊤ DatabaseError × Db

pub data DatabasePermissions : Type 0 where
  read_only write_only read_write : DatabasePermissions

pub record DatabaseImpl (Db : Type 0) : Type 0 where
  pub permissions : DatabasePermissions
  pub db : Db

-- The implementor's database with the permissions that `zephyr_standard` and `mocked` give.
abbrev pub zephyr_standard : {Db : Type 0} → Db → DatabaseImpl Db
zephyr_standard db = record { permissions = read_write; db = db }
