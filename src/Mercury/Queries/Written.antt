-- ===== src/Mercury/Queries/Written.antt =====
-- The INSERT of `write_raw`, rs-zephyr-env/src/testutils/database.rs, word by word.
use zephyr_vm.Prelude.{
  ℕ, ◌+◌, ◌≡◌, refl, sym, ap, ◌∙◌, true, false, some, List, [], ◌∷◌, ◌++◌, append-nil, append_assoc,
  map, String,
}
use zephyr_vm.Errors.{ok, write_error}
use zephyr_vm.Exec.{◌>>=◌}
use zephyr_vm.Mercury.{
  Word, sql, name, table, place, WriteParam, integer, bytes, Postgres, ZephyrVal, as_i64, same_name,
  bigint, TypesMap, type_in, Built, nothing_built, unless_last, bound_as, bound_param, native_of,
}
use zephyr_vm.Mercury.Queries.{column_name, value_places, insert_columns, insert_query}
use zephyr_vm.Mercury.Queries.Places.{type_of}

-- A column's name, and the parameter for it.
pub record Cell : Type 0 where
  pub cell_name : List ℕ
  pub param : WriteParam

-- Words with a comma between each two of them.
unfoldable pub separated : List Word → List Word
separated [] = []
separated (w ∷ []) = w ∷ []
separated (w ∷ v ∷ ws) = w ∷ sql ", " ∷ separated (v ∷ ws)

abbrev pub names : List Cell → List Word
names cells = map (λ c. name c.cell_name) cells

abbrev pub params : List Cell → List WriteParam
params cells = map (λ c. c.param) cells

-- The places from a number on, one for each parameter.
unfoldable pub places_from : ℕ → List WriteParam → List Word
places_from n [] = []
places_from n (p ∷ ps) = place n ∷ places_from (n + 1) ps

-- The statement that inserts the cells into a table, with its parameters and their types.
abbrev pub insertion : List ℕ → List Cell → Built
insertion hash cells = record {
  query =
      sql "INSERT INTO "
      ∷ table hash
      ∷ sql " ("
      ∷ (separated (names cells)
          ++ (sql ")"
              ∷ sql " VALUES ("
              ∷ (separated (places_from 1 (params cells)) ++ (sql ")" ∷ []))));
  owned_params = params cells;
  types = map type_of (params cells);
}

-- A value for a column of a type: an i64 for a bigint, if the value is a number, and its bytes else.
pub data Binds (pg : Postgres) (col_type raw : List ℕ) : WriteParam → Type 0 where
  as_integer :
      (val : ZephyrVal) (num : ℕ)
      → same_name col_type bigint ≡ true
      → pg.deserialize_val raw ≡ some val
      → as_i64 val ≡ some num
      → Binds pg col_type raw (integer num)
  as_bytes : same_name col_type bigint ≡ false → Binds pg col_type raw (bytes raw)

-- Columns with names that the table has, each with a value that its column takes.
pub data Cells (pg : Postgres) (types_map : TypesMap)
    : List ℕ → List (List ℕ) → List Cell → Type 0 where
  no_cell : Cells pg types_map [] [] []
  one_more :
      (val : ℕ) (raw : List ℕ) (cell : Cell) (col_type : List ℕ) (vals : List ℕ)
      (written : List (List ℕ)) (cells : List Cell)
      → column_name write_error val ≡ ok cell.cell_name
      → type_in types_map cell.cell_name ≡ some col_type
      → Binds pg col_type raw cell.param
      → Cells pg types_map vals written cells
      → Cells pg types_map (val ∷ vals) (raw ∷ written) (cell ∷ cells)

module _ {A : Type 0} where
  pub snoc_one : (q : List A) (x : A) (zs : List A) → (q ++ (x ∷ [])) ++ zs ≡ q ++ (x ∷ zs)
  snoc_one q x zs = append_assoc q (x ∷ []) zs

  snoc_two :
      (q : List A) (x y : A) (zs : List A) → ((q ++ (x ∷ [])) ++ (y ∷ [])) ++ zs ≡ q ++ (x ∷ y ∷ zs)
  snoc_two q x y zs = snoc_one (q ++ (x ∷ [])) y zs ∙ snoc_one q x (y ∷ zs)

pub bound_param-Binds :
    (pg : Postgres) (col_type raw : List ℕ) (p : WriteParam) (b : Built)
    → Binds pg col_type raw p
    → bound_param pg col_type raw b ≡ (
      ok tt,
      record b { owned_params = b.owned_params ++ (p ∷ []); types = b.types ++ (type_of p ∷ []) },
    )
unfolding bound_param bound_as native_of ◌>>=◌
bound_param-Binds pg col_type raw _ b (as_integer val num big reads fits) =
    rw (big, native_of, reads, fits) refl
bound_param-Binds pg col_type raw _ b (as_bytes other) = rw other refl

value_places-separated :
    (n : ℕ) (ps : List WriteParam) (b : Built)
    → value_places n ps b ≡ (ok tt, record b { query = b.query ++ separated (places_from n ps) })
unfolding value_places unless_last places_from separated ◌>>=◌
value_places-separated n [] b =
    ap (λ (q : List Word). (ok tt, record b { query = q })) (sym (append-nil b.query))
value_places-separated n (p ∷ []) b = refl
value_places-separated n (p ∷ p' ∷ ps) b =
    value_places-separated (n + 1) (p' ∷ ps)
      (record b { query = (b.query ++ (place n ∷ [])) ++ (sql ", " ∷ []) })
    ∙ ap (λ (q : List Word). (ok tt, record b { query = q }))
        (snoc_two b.query (place n) (sql ", ") (separated (places_from (n + 1) (p' ∷ ps))))

-- These words and parameters more.
abbrev pub grown : List Word → List WriteParam → Built → Built
grown ws ps b = record {
  query = b.query ++ ws;
  owned_params = b.owned_params ++ ps;
  types = b.types ++ map type_of ps;
}

module _ (pg : Postgres) (types_map : TypesMap) where
  pub unless_last-Cells :
      (vals : List ℕ) (written : List (List ℕ)) (cell : Cell) (cells : List Cell) (s : String)
      (b : Built)
      → Cells pg types_map vals written (cell ∷ cells)
      → unless_last vals s b ≡ (ok tt, record b { query = b.query ++ (sql s ∷ []) })
  unfolding unless_last
  unless_last-Cells _ _ _ _ s b (one_more _ _ _ _ _ _ _ _ _ _ _) = refl

  insert_columns-one :
      (val : ℕ) (raw : List ℕ) (cell : Cell) (col_type : List ℕ) (b : Built)
      → column_name write_error val ≡ ok cell.cell_name
      → type_in types_map cell.cell_name ≡ some col_type
      → Binds pg col_type raw cell.param
      → insert_columns pg types_map (val ∷ []) (raw ∷ []) b
        ≡ (ok tt, grown (separated (names (cell ∷ []))) (params (cell ∷ [])) b)
  unfolding insert_columns unless_last separated ◌>>=◌
  insert_columns-one val raw cell col_type b named typed binds =
      rw
        (
          named,
          typed,
          bound_param-Binds pg col_type raw cell.param
              (record b { query = b.query ++ (name cell.cell_name ∷ []) }) binds,
        )
        refl

  insert_columns-Cells :
      (vals : List ℕ) (written : List (List ℕ)) (cells : List Cell) (b : Built)
      → Cells pg types_map vals written cells
      → insert_columns pg types_map vals written b
        ≡ (ok tt, grown (separated (names cells)) (params cells) b)
  unfolding insert_columns separated ◌>>=◌
  insert_columns-Cells _ _ _ b no_cell = λ i. (
    ok tt,
    record {
      query = sym (append-nil b.query) i;
      owned_params = sym (append-nil b.owned_params) i;
      types = sym (append-nil b.types) i;
    },
  )
  insert_columns-Cells _ _ _ b (one_more val raw cell col_type _ _ _ named typed binds no_cell) =
      insert_columns-one val raw cell col_type b named typed binds
  insert_columns-Cells _ _ _ b
        (one_more val raw cell col_type vals written (cell' ∷ cells) named typed binds more) =
      let bound : Built = record {
        query = b.query ++ (name cell.cell_name ∷ []);
        owned_params = b.owned_params ++ (cell.param ∷ []);
        types = b.types ++ (type_of cell.param ∷ []);
      } in
      rw
        (
          named,
          typed,
          bound_param-Binds pg col_type raw cell.param
              (record b { query = b.query ++ (name cell.cell_name ∷ []) }) binds,
          unless_last-Cells vals written cell' cells ", " bound more,
          insert_columns-Cells vals written (cell' ∷ cells)
              (record bound { query = bound.query ++ (sql ", " ∷ []) }) more,
        )
        λ i. (
          ok tt,
          record {
            query =
                snoc_two b.query (name cell.cell_name) (sql ", ")
                  (separated (names (cell' ∷ cells))) i;
            owned_params = snoc_one b.owned_params cell.param (params (cell' ∷ cells)) i;
            types = snoc_one b.types (type_of cell.param) (map type_of (params (cell' ∷ cells))) i;
          },
        )

  -- An INSERT into columns that the table has, with values that the columns take, is put together:
  -- it is `INSERT INTO table (c1, c2, ..) VALUES ($1, $2, ..)` with the columns' names in order and
  -- a place for each, and the parameters are the values in order, an i64 for a column of type bigint
  -- and the bytes for another, each with the type of its kind.
  pub insert_query-insertion :
      (hash write_data : List ℕ) (written : List (List ℕ)) (cells : List Cell)
      → Cells pg types_map write_data written cells
      → insert_query pg types_map hash write_data written nothing_built
        ≡ (ok tt, insertion hash cells)
  unfolding insert_query ◌>>=◌
  insert_query-insertion hash write_data written cells are =
      rw
        (
          insert_columns-Cells write_data written cells
              (record nothing_built { query = sql "INSERT INTO " ∷ table hash ∷ sql " (" ∷ [] })
              are,
          value_places-separated 1 (params cells) (record {
            query =
                (((sql "INSERT INTO " ∷ table hash ∷ sql " (" ∷ []) ++ separated (names cells))
                  ++ (sql ")" ∷ []))
                ++ (sql " VALUES (" ∷ []);
            owned_params = params cells;
            types = map type_of (params cells);
          }),
        )
        (ap
          (λ (q : List Word). (
            ok tt,
            record (insertion hash cells) {
              query = sql "INSERT INTO " ∷ table hash ∷ sql " (" ∷ q;
            },
          ))
          (append_assoc (((separated (names cells)) ++ (sql ")" ∷ [])) ++ (sql " VALUES (" ∷ []))
              (separated (places_from 1 (params cells))) (sql ")" ∷ [])
            ∙ snoc_two (separated (names cells)) (sql ")") (sql " VALUES (")
                (separated (places_from 1 (params cells)) ++ (sql ")" ∷ []))))
