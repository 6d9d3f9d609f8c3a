-- ===== src/Mercury/Queries/Updated.antt =====
-- The UPDATE of `update_raw`, rs-zephyr-env/src/testutils/database.rs, word by word.
use zephyr_vm.Prelude.{
  ℕ, suc, ◌+◌, ◌≡◌, refl, sym, ap, some, List, [], ◌∷◌, ◌++◌, append-nil, map, length,
}
use zephyr_vm.Errors.{ok, write_error}
use zephyr_vm.Exec.{◌>>=◌}
use zephyr_vm.Database.{WhereCond}
use zephyr_vm.Mercury.{
  Word, sql, name, table, place, Postgres, TypesMap, type_in, Built, nothing_built, unless_last,
}
use zephyr_vm.Mercury.Queries.{column_name, set_columns, update_query}
use zephyr_vm.Mercury.Queries.Places.{type_of}
use zephyr_vm.Mercury.Queries.Written.{
  Cell, params, Binds, Cells, no_cell, one_more, snoc_one, bound_param-Binds, unless_last-Cells,
  grown,
}
use zephyr_vm.Mercury.Queries.Conditions.{
  term, Comparison, Comparisons, compared, conjoined, pushed, pushed_on,
  where_conditions-Comparisons,
}

-- `c1 = $1, c2 = $2, ..`, where `n` parameters went before.
unfoldable pub assigned : ℕ → List Cell → List Word
assigned n [] = []
assigned n (c ∷ []) = term n " = " c
assigned n (c ∷ d ∷ cells) = term n " = " c ++ (sql ", " ∷ assigned (n + 1) (d ∷ cells))

module _ (pg : Postgres) (types_map : TypesMap) where
  set_columns-one :
      (n val : ℕ) (raw : List ℕ) (cell : Cell) (col_type : List ℕ) (b : Built)
      → column_name write_error val ≡ ok cell.cell_name
      → type_in types_map cell.cell_name ≡ some col_type
      → Binds pg col_type raw cell.param
      → set_columns pg types_map n (val ∷ []) (raw ∷ []) b
        ≡ (ok tt, grown (term n " = " cell) (cell.param ∷ []) b)
  unfolding set_columns unless_last ◌>>=◌
  set_columns-one n val raw cell col_type b named typed binds =
      rw
        (
          named,
          typed,
          bound_param-Binds pg col_type raw cell.param
              (record b {
                query =
                    ((b.query ++ (name cell.cell_name ∷ [])) ++ (sql " = " ∷ []))
                    ++ (place (n + 1) ∷ []);
              })
              binds,
        )
        (ap
          (λ (q : List Word). (
            ok tt,
            record {
              query = q;
              owned_params = b.owned_params ++ (cell.param ∷ []);
              types = b.types ++ (type_of cell.param ∷ []);
            },
          ))
          (pushed b.query (name cell.cell_name) (sql " = ") (place (n + 1))))

  set_columns-Cells :
      (n : ℕ) (vals : List ℕ) (written : List (List ℕ)) (cells : List Cell) (b : Built)
      → Cells pg types_map vals written cells
      → set_columns pg types_map n vals written b
        ≡ (ok tt, grown (assigned n cells) (params cells) b)
  unfolding set_columns assigned ◌>>=◌
  set_columns-Cells n _ _ _ b no_cell = λ i. (
    ok tt,
    record {
      query = sym (append-nil b.query) i;
      owned_params = sym (append-nil b.owned_params) i;
      types = sym (append-nil b.types) i;
    },
  )
  set_columns-Cells n _ _ _ b (one_more val raw cell col_type _ _ _ named typed binds no_cell) =
      set_columns-one n val raw cell col_type b named typed binds
  set_columns-Cells n _ _ _ b
        (one_more val raw cell col_type vals written (d ∷ cells) named typed binds more) =
      let word = name cell.cell_name in
      let before : Built = record b {
        query = ((b.query ++ (word ∷ [])) ++ (sql " = " ∷ [])) ++ (place (n + 1) ∷ []);
      } in
      let separated : Built = record before { query = before.query ++ (sql ", " ∷ []) } in
      let bound : Built = record separated {
        owned_params = b.owned_params ++ (cell.param ∷ []);
        types = b.types ++ (type_of cell.param ∷ []);
      } in
      rw
        (
          named,
          unless_last-Cells pg types_map vals written d cells ", " before more,
          typed,
          bound_param-Binds pg col_type raw cell.param separated binds,
          set_columns-Cells (n + 1) vals written (d ∷ cells) bound more,
        )
        λ i. (
          ok tt,
          record {
            query =
                pushed_on b.query word (sql " = ") (place (n + 1)) (sql ", ")
                  (assigned (n + 1) (d ∷ cells)) i;
            owned_params = snoc_one b.owned_params cell.param (params (d ∷ cells)) i;
            types = snoc_one b.types (type_of cell.param) (map type_of (params (d ∷ cells))) i;
          },
        )

  length-Cells :
      (vals : List ℕ) (written : List (List ℕ)) (cells : List Cell)
      → Cells pg types_map vals written cells
      → length vals ≡ length cells
  length-Cells _ _ _ no_cell = refl
  length-Cells _ _ _ (one_more _ _ _ _ vals written cells _ _ _ more) =
      ap (λ (k : ℕ). suc k) (length-Cells vals written cells more)

-- The statement that sets the cells in the rows of a table for which the comparisons hold, with its
-- parameters and their types.
abbrev pub setting : List ℕ → List Cell → List Comparison → Built
setting hash cells cs = record {
  query =
      sql "UPDATE "
      ∷ table hash
      ∷ sql " SET "
      ∷ (assigned 0 cells ++ (sql " WHERE " ∷ conjoined (length cells) cs));
  owned_params = params cells ++ compared cs;
  types = map type_of (params cells) ++ map type_of (compared cs);
}

module _ (pg : Postgres) (types_map : TypesMap) where
  -- An UPDATE of columns that the table has, with conditions on columns that it has and values that
  -- all these columns take, is put together: it is `UPDATE table SET c1 = $1, .. WHERE d1 = $n AND ..`,
  -- whose places go on through the conditions, and the parameters are the values and then the
  -- arguments, in order, each with the type of its kind.
  pub update_query-setting :
      (hash write_data : List ℕ) (written : List (List ℕ)) (condition : List WhereCond)
      (condition_args : List (List ℕ)) (cells : List Cell) (cs : List Comparison)
      → Cells pg types_map write_data written cells
      → Comparisons pg types_map condition condition_args cs
      → update_query pg types_map hash write_data written condition condition_args nothing_built
        ≡ (ok tt, setting hash cells cs)
  unfolding update_query ◌>>=◌
  update_query-setting hash write_data written condition condition_args cells cs are hold =
      rw
        (
          set_columns-Cells pg types_map 0 write_data written cells
              (record nothing_built { query = sql "UPDATE " ∷ table hash ∷ sql " SET " ∷ [] }) are,
          length-Cells pg types_map write_data written cells are,
          where_conditions-Comparisons pg types_map (length cells) condition condition_args cs
              (record {
                query =
                    ((sql "UPDATE " ∷ table hash ∷ sql " SET " ∷ []) ++ assigned 0 cells)
                    ++ (sql " WHERE " ∷ []);
                owned_params = params cells;
                types = map type_of (params cells);
              })
              hold,
        )
        (ap
          (λ (q : List Word). (
            ok tt,
            record (setting hash cells cs) { query = sql "UPDATE " ∷ table hash ∷ sql " SET " ∷ q },
          ))
          (snoc_one (assigned 0 cells) (sql " WHERE ") (conjoined (length cells) cs)))
