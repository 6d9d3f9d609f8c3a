-- ===== src/Mercury/Raw/Missing.antt =====
-- What a write and an update make of a column that the table does not have.
use zephyr_vm.Prelude.{ℕ, ◌+◌, ◌≡◌, refl, none, List, [], ◌∷◌, ◌++◌, String}
use zephyr_vm.Errors.{Result, ok, err, panic, write_error}
use zephyr_vm.Exec.{continue, ◌>>=◌}
use zephyr_vm.Database.{WhereCond}
use zephyr_vm.Mercury.{
  Postgres, TypesMap, type_in, unless_last, Built, nothing_built, sql, name, place, table,
}
use zephyr_vm.Mercury.Queries.{column_name, insert_columns, set_columns, insert_query, update_query}
use zephyr_vm.Mercury.Queries.Written.{Cell, Cells, no_cell, one_more, bound_param-Binds}
use zephyr_vm.Mercury.Queries.Places.{type_of}
use zephyr_vm.Mercury.Raw.{connected, built, run_statement, write_raw, update_raw}

unless_last-more :
    (vals : List ℕ) (val : ℕ) (after : List ℕ) (s : String) (b : Built)
    → unless_last (vals ++ (val ∷ after)) s b
      ≡ (ok tt, record b { query = b.query ++ (sql s ∷ []) })
unfolding unless_last
unless_last-more [] val after s b = refl
unless_last-more (v ∷ vals) val after s b = refl

module _ (pg : Postgres) (types_map : TypesMap) (val : ℕ) (col : List ℕ)
    (named : column_name write_error val ≡ ok col) (lacks : type_in types_map col ≡ none) where
  insert_columns-missing :
      (vals : List ℕ) (written : List (List ℕ)) (cells : List Cell) (after : List ℕ) (raw : List ℕ)
      (rest : List (List ℕ)) (b : Built)
      → Cells pg types_map vals written cells
      → (insert_columns pg types_map (vals ++ (val ∷ after)) (written ++ (raw ∷ rest)) b).0 ≡ panic
  unfolding insert_columns ◌>>=◌
  insert_columns-missing _ _ _ after raw rest b no_cell = rw (named, lacks) refl
  insert_columns-missing _ _ _ after raw rest b
        (one_more val' raw' cell col_type vals written cells named' typed binds more) =
      let bound : Built = record {
        query = b.query ++ (name cell.cell_name ∷ []);
        owned_params = b.owned_params ++ (cell.param ∷ []);
        types = b.types ++ (type_of cell.param ∷ []);
      } in
      rw
        (
          named',
          typed,
          bound_param-Binds pg col_type raw' cell.param
              (record b { query = b.query ++ (name cell.cell_name ∷ []) }) binds,
          unless_last-more vals val after ", " bound,
        )
        (insert_columns-missing vals written cells after raw rest
          (record bound { query = bound.query ++ (sql ", " ∷ []) }) more)

  set_columns-here :
      (idx : ℕ) (after : List ℕ) (raw : List ℕ) (rest : List (List ℕ)) (b : Built)
      → (set_columns pg types_map idx (val ∷ after) (raw ∷ rest) b).0 ≡ err write_error
  unfolding set_columns unless_last ◌>>=◌
  set_columns-here idx [] raw rest b = rw (named, lacks) refl
  set_columns-here idx (v ∷ after) raw rest b = rw (named, lacks) refl

  set_columns-missing :
      (idx : ℕ) (vals : List ℕ) (written : List (List ℕ)) (cells : List Cell) (after : List ℕ)
      (raw : List ℕ) (rest : List (List ℕ)) (b : Built)
      → Cells pg types_map vals written cells
      → (set_columns pg types_map idx (vals ++ (val ∷ after)) (written ++ (raw ∷ rest)) b).0
        ≡ err write_error
  unfolding set_columns ◌>>=◌
  set_columns-missing idx _ _ _ after raw rest b no_cell = set_columns-here idx after raw rest b
  set_columns-missing idx _ _ _ after raw rest b
        (one_more val' raw' cell col_type vals written cells named' typed binds more) =
      let assigned : Built = record b {
        query =
            ((b.query ++ (name cell.cell_name ∷ [])) ++ (sql " = " ∷ [])) ++ (place (idx + 1) ∷ []);
      } in
      let parted : Built = record assigned { query = assigned.query ++ (sql ", " ∷ []) } in
      rw
        (
          named',
          unless_last-more vals val after ", " assigned,
          typed,
          bound_param-Binds pg col_type raw' cell.param parted binds,
        )
        (set_columns-missing (idx + 1) vals written cells after raw rest
          (record parted {
            owned_params = b.owned_params ++ (cell.param ∷ []);
            types = b.types ++ (type_of cell.param ∷ []);
          })
          more)

continue-panic :
    {S E A B : Type 0} (run : Result A E × S) (f : A → S → Result B E × S)
    → run.0 ≡ panic
    → (continue run.0 f run.1).0 ≡ panic
continue-panic run f e = rw e refl

continue-err :
    {S E A B : Type 0} (run : Result A E × S) (f : A → S → Result B E × S) (error : E)
    → run.0 ≡ err error
    → (continue run.0 f run.1).0 ≡ err error
continue-err run f error e = rw e refl

module _ (pg : Postgres) where
  insert_query-missing :
      (types_map : TypesMap) (hash vals : List ℕ) (written : List (List ℕ)) (cells : List Cell)
      (val : ℕ) (col after raw : List ℕ) (rest : List (List ℕ))
      → Cells pg types_map vals written cells
      → column_name write_error val ≡ ok col
      → type_in types_map col ≡ none
      → (insert_query pg types_map hash
          (vals ++ (val ∷ after))
          (written ++ (raw ∷ rest))
          nothing_built).0
        ≡ panic
  unfolding insert_query ◌>>=◌
  insert_query-missing types_map hash vals written cells val col after raw rest are named lacks =
      continue-panic _ _ (
        insert_columns-missing pg types_map val col named lacks vals written cells after raw rest
          (record nothing_built { query = sql "INSERT INTO " ∷ table hash ∷ sql " (" ∷ [] }) are)

  update_query-missing :
      (types_map : TypesMap) (hash vals : List ℕ) (written : List (List ℕ)) (cells : List Cell)
      (val : ℕ) (col after raw : List ℕ) (rest : List (List ℕ)) (condition : List WhereCond)
      (args : List (List ℕ))
      → Cells pg types_map vals written cells
      → column_name write_error val ≡ ok col
      → type_in types_map col ≡ none
      → (update_query pg types_map hash
          (vals ++ (val ∷ after))
          (written ++ (raw ∷ rest))
          condition
          args
          nothing_built).0
        ≡ err write_error
  unfolding update_query ◌>>=◌
  update_query-missing types_map hash vals written cells val col after raw rest condition args are
        named lacks =
      continue-err _ _ write_error (
        set_columns-missing pg types_map val col named lacks 0 vals written cells after raw rest
          (record nothing_built { query = sql "UPDATE " ∷ table hash ∷ sql " SET " ∷ [] }) are)

  -- Where the server answers, and a column, behind any number of columns that the table has and with
  -- values that they take, has a name that can be read but is none of the table's: a write panics,
  -- an update is a write error, and the server is as it was after either.
  pub raw-missing_column :
      (server : pg.Server) (hash vals : List ℕ) (written : List (List ℕ)) (cells : List Cell)
      (val : ℕ) (col after raw : List ℕ) (rest : List (List ℕ)) (condition : List WhereCond)
      (args : List (List ℕ)) (types_map : TypesMap)
      → connected pg server hash ≡ ok types_map
      → Cells pg types_map vals written cells
      → column_name write_error val ≡ ok col
      → type_in types_map col ≡ none
      → (write_raw pg server hash (vals ++ (val ∷ after)) (written ++ (raw ∷ rest))
          ≡ (panic, server))
        × (update_raw pg server hash
              (vals ++ (val ∷ after))
              (written ++ (raw ∷ rest))
              condition
              args
            ≡ (err write_error, server))
  unfolding write_raw update_raw run_statement built
  raw-missing_column server hash vals written cells val col after raw rest condition args types_map
        knows are named lacks =
      (
        rw
            (
              knows,
              insert_query-missing types_map hash vals written cells val col after raw rest are
                  named lacks,
            )
            refl,
        rw
            (
              knows,
              update_query-missing types_map hash vals written cells val col after raw rest
                  condition args are named lacks,
            )
            refl,
      )
