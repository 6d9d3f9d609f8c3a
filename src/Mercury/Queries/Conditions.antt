-- ===== src/Mercury/Queries/Conditions.antt =====
-- The conditions of a query, rs-zephyr-env/src/testutils/database.rs, word by word.
use zephyr_vm.Prelude.{
  ℕ, ◌+◌, ◌≡◌, refl, sym, ap, ◌∙◌, some, List, [], ◌∷◌, ◌++◌, append-nil, map, String,
}
use zephyr_vm.Errors.{ok, write_error}
use zephyr_vm.Exec.{◌>>=◌}
use zephyr_vm.Database.{WhereCond}
use zephyr_vm.Mercury.{
  Word, sql, name, place, Postgres, TypesMap, type_in, WriteParam, Built, unless_last,
}
use zephyr_vm.Mercury.Queries.{column_name, operator_of, column_of, where_conditions}
use zephyr_vm.Mercury.Queries.Places.{type_of}
use zephyr_vm.Mercury.Queries.Written.{Cell, Binds, snoc_one, bound_param-Binds, grown}

-- A column, a comparison with it and the parameter of the place that it has behind `n` others.
abbrev pub term : ℕ → String → Cell → List Word
term n operator cell = name cell.cell_name ∷ sql operator ∷ place (n + 1) ∷ []

-- A comparison with a cell.
pub record Comparison : Type 0 where
  pub operator : String
  pub cell : Cell

abbrev pub compared : List Comparison → List WriteParam
compared cs = map (λ c. c.cell.param) cs

-- `c1 = $1 AND c2 > $2 ..`, where `n` parameters went before.
unfoldable pub conjoined : ℕ → List Comparison → List Word
conjoined n [] = []
conjoined n (c ∷ []) = term n c.operator c.cell
conjoined n (c ∷ d ∷ cs) = term n c.operator c.cell ++ (sql " AND " ∷ conjoined (n + 1) (d ∷ cs))

-- The words of a term, one by one.
pub pushed :
    (q : List Word) (x y z : Word)
    → ((q ++ (x ∷ [])) ++ (y ∷ [])) ++ (z ∷ []) ≡ q ++ (x ∷ y ∷ z ∷ [])
pushed q x y z = snoc_one (q ++ (x ∷ [])) y (z ∷ []) ∙ snoc_one q x (y ∷ z ∷ [])

pub pushed_on :
    (q : List Word) (x y z w : Word) (ws : List Word)
    → (((((q ++ (x ∷ [])) ++ (y ∷ [])) ++ (z ∷ [])) ++ (w ∷ [])) ++ ws) ≡ q ++ (x ∷ y ∷ z ∷ w ∷ ws)
pushed_on q x y z w ws =
    snoc_one (((q ++ (x ∷ [])) ++ (y ∷ [])) ++ (z ∷ [])) w ws
    ∙ (snoc_one ((q ++ (x ∷ [])) ++ (y ∷ [])) z (w ∷ ws)
        ∙ (snoc_one (q ++ (x ∷ [])) y (z ∷ w ∷ ws) ∙ snoc_one q x (y ∷ z ∷ w ∷ ws)))

module _ (pg : Postgres) (types_map : TypesMap) where
  -- Conditions on columns that the table has, each with an argument that its column takes.
  pub data Comparisons : List WhereCond → List (List ℕ) → List Comparison → Type 0 where
    no_comparison : Comparisons [] [] []
    one_compared :
        (cond : WhereCond) (raw : List ℕ) (cell : Cell) (col_type : List ℕ) (conds : List WhereCond)
        (args : List (List ℕ)) (cs : List Comparison)
        → column_name write_error (column_of cond) ≡ ok cell.cell_name
        → type_in types_map cell.cell_name ≡ some col_type
        → Binds pg col_type raw cell.param
        → Comparisons conds args cs
        → Comparisons
            (cond ∷ conds)
            (raw ∷ args)
            (record { operator = operator_of cond; cell = cell } ∷ cs)

  unless_last-Comparisons :
      (conds : List WhereCond) (args : List (List ℕ)) (c : Comparison) (cs : List Comparison)
      (s : String) (b : Built)
      → Comparisons conds args (c ∷ cs)
      → unless_last conds s b ≡ (ok tt, record b { query = b.query ++ (sql s ∷ []) })
  unfolding unless_last
  unless_last-Comparisons _ _ _ _ s b (one_compared _ _ _ _ _ _ _ _ _ _ _) = refl

  where_conditions-one :
      (n : ℕ) (cond : WhereCond) (raw : List ℕ) (cell : Cell) (col_type : List ℕ) (b : Built)
      → column_name write_error (column_of cond) ≡ ok cell.cell_name
      → type_in types_map cell.cell_name ≡ some col_type
      → Binds pg col_type raw cell.param
      → where_conditions pg types_map n (cond ∷ []) (raw ∷ []) b
        ≡ (ok tt, grown (term n (operator_of cond) cell) (cell.param ∷ []) b)
  unfolding where_conditions unless_last ◌>>=◌
  where_conditions-one n cond raw cell col_type b named typed binds =
      rw
        (
          named,
          typed,
          bound_param-Binds pg col_type raw cell.param
              (record b {
                query =
                    ((b.query ++ (name cell.cell_name ∷ [])) ++ (sql (operator_of cond) ∷ []))
                    ++ (place (n + 1) ∷ []);
              })
              binds,
        )
        (ap
          (λ (q : List Word). (
            ok tt,
            record {
              query = q;
              owned_params = b.owned_params ++ (cell.param ∷ []);
              types = b.types ++ (type_of cell.param ∷ []);
            },
          ))
          (pushed b.query (name cell.cell_name) (sql (operator_of cond)) (place (n + 1))))

  pub where_conditions-Comparisons :
      (n : ℕ) (conds : List WhereCond) (args : List (List ℕ)) (cs : List Comparison) (b : Built)
      → Comparisons conds args cs
      → where_conditions pg types_map n conds args b
        ≡ (ok tt, grown (conjoined n cs) (compared cs) b)
  unfolding where_conditions conjoined ◌>>=◌
  where_conditions-Comparisons n _ _ _ b no_comparison = λ i. (
    ok tt,
    record {
      query = sym (append-nil b.query) i;
      owned_params = sym (append-nil b.owned_params) i;
      types = sym (append-nil b.types) i;
    },
  )
  where_conditions-Comparisons n _ _ _ b
        (one_compared cond raw cell col_type _ _ _ named typed binds no_comparison) =
      where_conditions-one n cond raw cell col_type b named typed binds
  where_conditions-Comparisons n _ _ _ b
        (one_compared cond raw cell col_type conds args (c ∷ cs) named typed binds more) =
      let word = name cell.cell_name in
      let before : Built = record b {
        query = ((b.query ++ (word ∷ [])) ++ (sql (operator_of cond) ∷ [])) ++ (place (n + 1) ∷ []);
      } in
      let separated : Built = record before { query = before.query ++ (sql " AND " ∷ []) } in
      let bound : Built = record separated {
        owned_params = b.owned_params ++ (cell.param ∷ []);
        types = b.types ++ (type_of cell.param ∷ []);
      } in
      rw
        (
          named,
          unless_last-Comparisons conds args c cs " AND " before more,
          typed,
          bound_param-Binds pg col_type raw cell.param separated binds,
          where_conditions-Comparisons (n + 1) conds args (c ∷ cs) bound more,
        )
        λ i. (
          ok tt,
          record {
            query =
                pushed_on b.query word (sql (operator_of cond)) (place (n + 1)) (sql " AND ")
                  (conjoined (n + 1) (c ∷ cs)) i;
            owned_params = snoc_one b.owned_params cell.param (compared (c ∷ cs)) i;
            types = snoc_one b.types (type_of cell.param) (map type_of (compared (c ∷ cs))) i;
          },
        )
