-- ===== src/Mercury/Queries/Select.antt =====
-- The places of a SELECT.
use zephyr_vm.Prelude.{ℕ, ◌≡◌, refl, subst, Option, none, some, List, [], ◌∷◌, length, arith}
use zephyr_vm.Errors.{ok}
use zephyr_vm.Database.{WhereCond}
use zephyr_vm.Mercury.{Postgres, TypesMap, Built, nothing_built}
use zephyr_vm.Mercury.Queries.{column_words, where_clause, select_query}
use zephyr_vm.Mercury.Queries.Places.{
  Bound, After, Leads, Leads-bind, Leads-sql, Leads-name, Leads-table, Leads-unless_last, Stage,
  level, places, numbered,
}
use zephyr_vm.Mercury.Queries.Bound.{Bound-of, Leads-count, Leads-done, Leads-where_conditions}

-- The conditions of a read, if it has any.
abbrev pub condition_count : Option (List WhereCond) → ℕ
condition_count none = 0
condition_count (some condition) = length condition

module _ (pg : Postgres) (types_map : TypesMap) where
  Leads-column_words :
      (cols : List (List ℕ))
      → Leads (Stage level 0) (Stage level 0) (column_words pg types_map cols)
  unfolding column_words
  Leads-column_words [] = Leads-done
  Leads-column_words (col ∷ cols) =
      Leads-bind _ _ (Leads-name 0 col)
        λ _. Leads-bind _ _ (Leads-unless_last 0 cols _) λ _. Leads-column_words cols

  Leads-where_clause :
      (condition : Option (List WhereCond)) (args : Option (List (List ℕ)))
      → Leads
          (Stage level 0)
          (Stage level (condition_count condition))
          (where_clause pg types_map condition args)
  unfolding where_clause
  Leads-where_clause none args = Leads-done
  Leads-where_clause (some condition) none =
      Leads-bind _ _ (Leads-sql 0 _)
        λ _. Leads-count _ _ (omega arith) (Leads-where_conditions pg types_map 0 condition [])
  Leads-where_clause (some condition) (some args) =
      Leads-bind _ _ (Leads-sql 0 _)
        λ _. Leads-count _ _ (omega arith) (Leads-where_conditions pg types_map 0 condition args)

  Leads-select_query :
      (hash : List ℕ) (columns : List (List ℕ)) (condition : Option (List WhereCond))
      (args : Option (List (List ℕ)))
      → Leads
          (Stage level 0)
          (Stage level (condition_count condition))
          (select_query pg types_map hash columns condition args)
  unfolding select_query
  Leads-select_query hash columns condition args = Leads-bind _ _ (Leads-sql 0 _) λ _.
      Leads-bind _ _ (Leads-column_words columns) λ _.
        Leads-bind _ _ (Leads-sql 0 _)
          λ _. Leads-bind _ _ (Leads-table 0 hash) λ _. Leads-where_clause condition args

  -- A SELECT that is put together has the places 1, 2, and so on, one for each of its parameters, in
  -- order; as many parameters as conditions; and for each parameter the type of its kind.
  pub select_query-Bound :
      (hash : List ℕ) (columns : List (List ℕ)) (condition : Option (List WhereCond))
      (args : Option (List (List ℕ))) (b : Built)
      → select_query pg types_map hash columns condition args nothing_built ≡ (ok tt, b)
      → Bound b × (length b.owned_params ≡ condition_count condition)
  unfolding places numbered
  select_query-Bound hash columns condition args b e = Bound-of _ b (
      subst (After (Stage level (condition_count condition))) e (
        (Leads-select_query hash columns condition args).at nothing_built
          (record { placed = refl; typed = refl; count = refl })))
