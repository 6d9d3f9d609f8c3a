-- ===== src/Mercury/Raw.antt =====
-- `MercuryDatabase` of rs-zephyr-env/src/testutils/database.rs, as an implementor's database.
pub mod Missing
pub mod Inserted
use zephyr_vm.Prelude.{
  ℕ, ⊤, Bool, true, false, Option, none, some, List, [], ◌∷◌, map, if◌then◌else◌,
}
use zephyr_vm.Errors.{
  Result, ok, err, panic, DatabaseError, write_error, zephyr_query_error, zephyr_query_malformed,
}
use zephyr_vm.Exec.{Exec, map_ok}
use zephyr_vm.Database.{ZephyrDatabase, WhereCond}
use zephyr_vm.Mercury.{
  Word, sql, PgType, SqlParam, sql_table, as_tosql, val_i64, Postgres, TypesMap, Built,
  nothing_built, Building,
}
use zephyr_vm.Mercury.Queries.{column_name, insert_query, update_query, select_query}

-- `for val in read_data { .. }`
unfoldable pub column_names : List ℕ → Result (List (List ℕ)) DatabaseError
column_names [] = ok []
column_names (val ∷ vals) =
    let rest = column_names vals in
    elim (column_name zephyr_query_error val) [
      | ok col ↦ map_ok (λ cols. col ∷ cols) rest
      | err e ↦ err e
      | panic ↦ panic
    ]

module _ (pg : Postgres) where
  -- The catalog's query, whose one parameter is the name of the table.
  abbrev catalog : List Word
  catalog =
      sql
        "SELECT a.attname as column_name, pg_catalog.format_type(a.atttypid, a.atttypmod) as data_type FROM pg_catalog.pg_attribute a JOIN pg_catalog.pg_class c ON a.attrelid = c.oid JOIN pg_catalog.pg_namespace n ON c.relnamespace = n.oid WHERE c.relname = $1 AND a.attnum > 0 AND NOT a.attisdropped;"
      ∷ []

  inserted : Option (List ℕ) → Option (List ℕ) → TypesMap → Result TypesMap DatabaseError
  inserted (some column) (some data_type) types = ok ((column, data_type) ∷ types)
  inserted none data_type types = panic
  inserted (some column) none types = panic

  types_of : List pg.Row → TypesMap → Result TypesMap DatabaseError
  types_of [] types = ok types
  types_of (row ∷ rows) types =
      elim (inserted (pg.get row "column_name") (pg.get row "data_type") types) [
        | ok types' ↦ types_of rows types'
        | err e ↦ err e
        | panic ↦ panic
      ]

  rows_types : Option (List pg.Row) → Result TypesMap DatabaseError
  rows_types none = panic
  rows_types (some rows) = types_of rows []

  catalog_types : pg.Server → List ℕ → Option pg.Statement → Result TypesMap DatabaseError
  catalog_types server hash none = panic
  catalog_types server hash (some stmt) = rows_types (pg.query server stmt (sql_table hash ∷ []))

  -- Every failure in it is unwrapped.
  unfoldable pub get_table_types : pg.Server → List ℕ → Result TypesMap DatabaseError
  unfolding inserted types_of rows_types catalog_types
  get_table_types server hash = catalog_types server hash (pg.prepare server catalog)

  -- A connection, which may be refused, and the types of the table.
  unfoldable pub connected : pg.Server → List ℕ → Result TypesMap DatabaseError
  connected server hash =
      if pg.connect server then get_table_types server hash else err zephyr_query_error

  -- What was built, unless building failed.
  unfoldable pub built :
      Result TypesMap DatabaseError → (TypesMap → Building ⊤) → Result Built DatabaseError
  built (ok types_map) build = let (r, b) = build types_map nothing_built in map_ok (λ done. b) r
  built (err e) build = err e
  built panic build = panic

  executed : Bool × pg.Server → Result ⊤ DatabaseError × pg.Server
  executed (true, server) = (ok tt, server)
  executed (false, server) = (err write_error, server)

  stated : pg.Server → Built → Option pg.Statement → Result ⊤ DatabaseError × pg.Server
  stated server b none = (err write_error, server)
  stated server b (some stmt) = executed (pg.execute server stmt (map as_tosql b.owned_params))

  -- `prepare_typed` and `execute`; a statement that fails leaves what the server leaves.
  unfoldable pub run_statement :
      pg.Server → Result Built DatabaseError → Result ⊤ DatabaseError × pg.Server
  unfolding executed stated
  run_statement server (ok b) = stated server b (pg.prepare_typed server b.query b.types)
  run_statement server (err e) = (err e, server)
  run_statement server panic = (panic, server)

  unfoldable pub write_raw :
      pg.Server → List ℕ → List ℕ → List (List ℕ) → Result ⊤ DatabaseError × pg.Server
  write_raw server written_point_hash write_data written = run_statement server (
      built (connected server written_point_hash)
        λ types_map. insert_query pg types_map written_point_hash write_data written)

  unfoldable pub update_raw :
      pg.Server
      → List ℕ
      → List ℕ
      → List (List ℕ)
      → List WhereCond
      → List (List ℕ)
      → Result ⊤ DatabaseError × pg.Server
  update_raw server written_point_hash write_data written condition condition_args =
      run_statement server (
        built (connected server written_point_hash) λ types_map.
          update_query pg types_map written_point_hash write_data written condition condition_args)

  -- The bytes of a cell: its own, or those of the integer in it.
  cell_value : pg.Cell → Result (List ℕ) DatabaseError
  cell_value cell = elim (pg.cell_bytes cell) [
    | some b ↦ ok b
    | none ↦ elim (pg.cell_integer cell) [
      | some n ↦ ok (pg.serialize_val (val_i64 n))
      | none ↦ err zephyr_query_error
    ]
  ]

  row_values : List pg.Cell → Result (List (List ℕ)) DatabaseError
  row_values [] = ok []
  row_values (cell ∷ cells) =
      let rest = row_values cells in
      elim (cell_value cell) [ ok b ↦ map_ok (λ bs. b ∷ bs) rest | err e ↦ err e | panic ↦ panic ]

  unfoldable pub table_rows : List pg.Row → Result (List (List (List ℕ))) DatabaseError
  unfolding cell_value row_values
  table_rows [] = ok []
  table_rows (row ∷ rows) =
      let rest = table_rows rows in
      elim (row_values (pg.cells row)) [
        | ok r ↦ map_ok (λ rs. r ∷ rs) rest
        | err e ↦ err e
        | panic ↦ panic
      ]

  answered : Option (List pg.Row) → Result (List ℕ) DatabaseError
  answered none = err zephyr_query_error
  answered (some rows) = map_ok pg.serialize_rows (table_rows rows)

  queried : pg.Server → Built → Option pg.Statement → Result (List ℕ) DatabaseError
  queried server b none = err zephyr_query_malformed
  queried server b (some stmt) = answered (pg.query server stmt (map as_tosql b.owned_params))

  unfoldable pub run_query : pg.Server → Result Built DatabaseError → Result (List ℕ) DatabaseError
  unfolding answered queried
  run_query server (ok b) = queried server b (pg.prepare_typed server b.query b.types)
  run_query server (err e) = err e
  run_query server panic = panic

  -- The names of the columns are read before the server is asked.
  unfoldable pub read_raw :
      pg.Server
      → List ℕ
      → List ℕ
      → Option (List WhereCond)
      → Option (List (List ℕ))
      → Result (List ℕ) DatabaseError
  read_raw server read_point_hash read_data condition condition_args =
      elim (column_names read_data) [
        | ok columns ↦ run_query server (
            built (connected server read_point_hash) λ types_map.
              select_query pg types_map read_point_hash columns condition condition_args)
        | err e ↦ err e
        | panic ↦ panic
      ]

-- The server as the database of a host; the user's id is not looked at.
abbrev pub mercury : Postgres → ZephyrDatabase
mercury pg = record {
  Db = pg.Server;
  read_raw = λ server user. read_raw pg server;
  write_raw = λ server user. write_raw pg server;
  update_raw = λ server user. update_raw pg server;
}
