-- ===== src/Host/Database.antt =====
-- The three database calls of the host: rs-zephyr-env/src/host/database.rs. A call reads its
-- instructions from the pseudo stack, the data from linear memory, and hands both to the
-- implementor's database.
use zephyr_vm.Prelude.{ℕ, ⊤, Option, String, List, [], ◌∷◌}
use zephyr_vm.Errors.{
  Result, ok, err, Error, database, DatabaseError, write_on_read_only, read_on_write_only,
}
use zephyr_vm.Exec.{map_err}
use zephyr_vm.Trace.{Piece, text, numbers}
use zephyr_vm.Database.{WhereCond, DatabasePermissions, read_only, write_only}
use zephyr_vm.Platform.{Platform}
use zephyr_vm.Host.{Handler}

-- `Reading {what} for table {:?} with columns {:?}.`
abbrev pub about_table : {F : Type 0} → String → List ℕ → List ℕ → List (Piece F)
about_table what hash columns =
    text what
    ∷ text " for table "
    ∷ numbers hash
    ∷ text " with columns "
    ∷ numbers columns
    ∷ text "."
    ∷ []

-- What a write reads from the stack, and the linear memory.
pub record WriteInstructions (P : Platform) : Type 0 where
  pub memory : P.Memory
  pub write_point_hash : List ℕ
  pub columns : List ℕ
  pub segments : List (ℕ × ℕ)

pub record UpdateInstructions (P : Platform) : Type 0 where
  pub memory : P.Memory
  pub write_point_hash : List ℕ
  pub columns : List ℕ
  pub segments : List (ℕ × ℕ)
  pub conditions : List WhereCond
  pub conditions_args : List (ℕ × ℕ)

pub record ReadInstructions : Type 0 where
  pub read_point_hash : List ℕ
  pub read_data : List ℕ
  pub conditions : Option (List WhereCond)
  pub conditions_args : Option (List (ℕ × ℕ))

-- `if let DatabasePermissions::ReadOnly = db_impl.permissions { return Err(..) }`
unfoldable pub check_writable : {F : Type 0} → DatabasePermissions → Result ⊤ (Error F)
check_writable read_only = err (database write_on_read_only)
check_writable _ = ok tt

-- `if let DatabasePermissions::WriteOnly = db_impl.permissions { return Err(..) }`
unfoldable pub check_readable : {F : Type 0} → DatabasePermissions → Result ⊤ (Error F)
check_readable write_only = err (database read_on_write_only)
check_readable _ = ok tt

module _ {P : Platform} where
  -- The implementor's answer, and what its database holds afterwards.
  abbrev pub finish_write : Result ⊤ DatabaseError × P.database.Db → Handler P ⊤
  finish_write (r, db) h =
      (map_err database r, record h { database = record h.database { db = db } })
