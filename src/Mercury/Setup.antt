-- ===== src/Mercury/Setup.antt =====
-- The tables that the test harness makes and drops: `MercuryDatabaseSetup` of
-- rs-zephyr-env/src/testutils/mod.rs. The handle's list of tables and the server are the state.
pub mod Refused
use zephyr_vm.Prelude.{
  ℕ, suc, ⊤, Bool, true, Option, none, some, List, [], ◌∷◌, ◌++◌, ◌==◌, if◌then◌else◌,
}
use zephyr_vm.Errors.{Result, ok, err, panic}
use zephyr_vm.Exec.{Exec, pure, lift, gets, modify, unwrap, unwrapped, ◌>>=◌, ◌>>◌}
use zephyr_vm.Utils.{i64_to_bytes}
use zephyr_vm.Symbol.{try_from_bytes}
use zephyr_vm.Mercury.{Word, sql, name, table}

-- tokio_postgres, with the number of rows of a query; and `md5::compute`.
pub record TokioPostgres : Type 1 where
  pub Server : Type 0
  pub Problem : Type 0
  pub connect : Server → Bool
  pub execute : Server → List Word → Result ⊤ Problem × Server
  pub query : Server → List Word → Result ℕ Problem
  pub md5 : List ℕ → List ℕ

pub record Column : Type 0 where
  pub column : List ℕ
  pub col_type : List ℕ

-- The type is BYTEA.
abbrev pub with_name : List ℕ → Column
with_name c = record { column = c; col_type = 66 ∷ 89 ∷ 84 ∷ 69 ∷ 65 ∷ [] }

abbrev pub with_name_and_type : List ℕ → List ℕ → Column
with_name_and_type c col_type = record { column = c; col_type = col_type }

or_earlier : Option (List ℕ) → Option (List ℕ) → Option (List ℕ)
or_earlier none earlier = earlier
or_earlier (some t) earlier = some t

-- The type under an index; of two under one index, the last.
unfoldable pub native_type : List (ℕ × List ℕ) → ℕ → Option (List ℕ)
unfolding or_earlier
native_type [] index = none
native_type ((i, t) ∷ pairs) index =
    or_earlier (native_type pairs index) (if i == index then some t else none)

typed_column : Option (List ℕ) → List ℕ → Column
typed_column none c = with_name c
typed_column (some t) c = with_name_and_type c t

-- The columns of a CREATE TABLE, from `index` on.
unfoldable pub column_definitions : List (ℕ × List ℕ) → ℕ → List (List ℕ) → List Word
unfolding typed_column
column_definitions types index [] = []
column_definitions types index (c ∷ []) =
    let d = typed_column (native_type types index) c in
    name d.column ∷ sql " " ∷ name d.col_type ∷ []
column_definitions types index (c ∷ c' ∷ cs) =
    let d = typed_column (native_type types index) c in
    name d.column
    ∷ sql " "
    ∷ name d.col_type
    ∷ sql ", "
    ∷ column_definitions types (suc index) (c' ∷ cs)

abbrev pub given_types : Option (List (ℕ × List ℕ)) → List (ℕ × List ℕ)
given_types none = []
given_types (some pairs) = pairs

unfoldable pub new_table_stmt : List ℕ → List (List ℕ) → Option (List (ℕ × List ℕ)) → List Word
new_table_stmt hash columns native_types =
    sql "CREATE TABLE "
    ∷ table hash
    ∷ sql " ("
    ∷ (column_definitions (given_types native_types) 0 columns ++ (sql ")" ∷ []))

abbrev pub drop_table_statement : List ℕ → List Word
drop_table_statement hash = sql "DROP TABLE " ∷ table hash ∷ []

module _ (pg : TokioPostgres) where
  pub record Setup : Type 0 where
    pub tables : List (List ℕ)
    pub server : pg.Server

  -- The hash that names the table of a user under a symbol.
  unfoldable pub table_hash : ℕ → ℕ → List ℕ
  table_hash symbol id = pg.md5 (i64_to_bytes symbol ++ i64_to_bytes id)

  unfoldable pub executed : List Word → Exec Setup pg.Problem ⊤
  executed stmt s = let (r, server) = pg.execute s.server stmt in (r, record s { server = server })

  -- `connect(..).await.unwrap()`
  unfoldable pub connection : Exec Setup pg.Problem ⊤
  connection s = (if pg.connect s.server then ok tt else panic, s)

  -- The table is noted before it is created.
  unfoldable pub load_table :
      ℕ → List ℕ → List (List ℕ) → Option (List (ℕ × List ℕ)) → Exec Setup pg.Problem ⊤
  load_table id table_name columns native_types = do
    symbol ← lift (unwrap (try_from_bytes table_name))
    modify λ s. record s { tables = s.tables ++ (table_hash symbol id ∷ []) }
    connection
    executed (new_table_stmt (table_hash symbol id) columns native_types)

  unfoldable pub dropped_all : List (List ℕ) → Exec Setup pg.Problem ⊤
  dropped_all [] = pure tt
  dropped_all (t ∷ ts) = do
    connection
    unwrapped (executed (drop_table_statement t))
    dropped_all ts

  -- The handle keeps its list.
  unfoldable pub close : Exec Setup pg.Problem ⊤
  close = do tables ← gets (λ s. s.tables); dropped_all tables

  unfoldable pub get_rows_number : ℕ → List ℕ → Exec Setup pg.Problem ℕ
  get_rows_number id table_name = do
    symbol ← lift (unwrap (try_from_bytes table_name))
    connection
    server ← gets (λ s. s.server)
    lift (pg.query server (sql "SELECT * FROM " ∷ table (table_hash symbol id) ∷ sql ";" ∷ []))
