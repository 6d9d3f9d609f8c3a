-- ===== src/Mercury/Queries/Bound.antt =====
-- Every parameter of a query has its place, and its type.
use zephyr_vm.Prelude.{
  ℕ, ◌+◌, ◌≡◌, refl, sym, ap, subst, ◌∙◌, ⊤, List, [], ◌∷◌, ◌++◌, String, append-nil, append_assoc,
  length-append, length, drop, arith,
}
use zephyr_vm.Errors.{ok}
use zephyr_vm.Exec.{pure, gets, ◌>>=◌}
use zephyr_vm.Database.{WhereCond}
use zephyr_vm.Mercury.{
  WriteParam, Postgres, TypesMap, Built, Building, nothing_built, place, push_str, unless_last,
}
use zephyr_vm.Mercury.Queries.{
  insert_columns, value_places, set_columns, where_conditions, insert_query, update_query,
}
use zephyr_vm.Mercury.Queries.Places.{
  Bound, After, Leads, Leads-bind, Leads-sql, Leads-name, Leads-table, Leads-unless_last,
  Leads-lift, Leads-indexed, Leads-expected, Leads-ok_or, Leads-place, Leads-bound_param,
  Takes-ahead, Takes-unplaced, Stage, level, unplaced, places, places-append, numbered,
}

-- The parameters counted in another way.
pub Leads-count :
    {ks ks' : List WriteParam → List ℕ} {n : ℕ} {m : Building ⊤} (k l : ℕ)
    → k ≡ l
    → Leads (Stage ks n) (Stage ks' k) m
    → Leads (Stage ks n) (Stage ks' l) m
Leads-count {ks} {ks'} {n} {m} k l e q = subst (λ (j : ℕ). Leads (Stage ks n) (Stage ks' j) m) e q

pub Leads-done : {Q : Built → Type 0} → Leads Q Q (pure tt)
Leads-done = record { at = λ b q. q }

-- The places are written when all parameters are there: those of `done` are, those of `ps` follow.
abbrev Placing : List WriteParam → List WriteParam → ℕ → Built → Type 0
Placing done ps k b = Stage (λ _. numbered 0 done) k b × (b.owned_params ≡ done ++ ps)

Placing-unless_last :
    (done qs : List WriteParam) (k : ℕ) (ps : List WriteParam) (s : String)
    → Leads (Placing done qs k) (Placing done qs k) (unless_last ps s)
unfolding unless_last
Placing-unless_last done qs k [] s = record { at = λ b q. q }
Placing-unless_last done qs k (p ∷ ps) s = record { at = λ b (q, e). ((Leads-sql k s).at b q, e) }

Placing-place :
    (done ps : List WriteParam) (p : WriteParam) (k : ℕ)
    → Leads
        (Placing done (p ∷ ps) k)
        (Placing (done ++ (p ∷ [])) ps k)
        (push_str (place (length done + 1)))
unfolding places
Placing-place done ps p k = record {
  at = λ b (q, e). (
    record {
      placed =
          places-append b.query (place (length done + 1) ∷ [])
          ∙ ap (λ (l : List ℕ). l ++ ((length done + 1) ∷ [])) q.placed
          ∙ sym (Takes-ahead.takes done p);
      typed = q.typed;
      count = q.count;
    },
    e ∙ sym (append_assoc done (p ∷ []) ps),
  );
}

Leads-value_places :
    (done ps : List WriteParam) (k n : ℕ)
    → length done + 1 ≡ n
    → Leads (Placing done ps k) (Stage level k) (value_places n ps)
unfolding value_places
Leads-value_places done [] k n h = record {
  at = λ b (q, e). record {
    placed = q.placed ∙ ap (numbered 0) (sym (append-nil done) ∙ sym e);
    typed = q.typed;
    count = q.count;
  };
}
Leads-value_places done (p ∷ ps) k n h =
    Leads-bind _ _
      (subst
        (λ (j : ℕ).
          Leads (Placing done (p ∷ ps) k) (Placing (done ++ (p ∷ [])) ps k) (push_str (place j)))
        h (Placing-place done ps p k))
      λ _. Leads-bind _ _ (Placing-unless_last (done ++ (p ∷ [])) ps k ps _) λ _.
        Leads-value_places (done ++ (p ∷ [])) ps k (n + 1)
          (ap (λ (j : ℕ). j + 1) (length-append done (p ∷ []) ∙ h))

Leads-params :
    {Q R : Built → Type 0} (f : List WriteParam → Building ⊤)
    → ((ps : List WriteParam) → Leads (λ b. Q b × (b.owned_params ≡ ps)) R (f ps))
    → Leads Q R (gets (λ b. b.owned_params) >>= f)
unfolding ◌>>=◌
Leads-params f next = record { at = λ b q. (next b.owned_params).at b (q, refl) }

Placing-start :
    (ps : List WriteParam) (k : ℕ)
    → Leads (λ b. Stage unplaced k b × (b.owned_params ≡ ps)) (Stage level k) (value_places 1 ps)
unfolding numbered
Placing-start ps k = record { at = λ b q. (Leads-value_places [] ps k 1 refl).at b q }

pub Bound-of : (n : ℕ) (b : Built) → Stage level n b → Bound b × (length b.owned_params ≡ n)
Bound-of n b q = ((q.placed, q.typed), q.count)

module _ (pg : Postgres) (types_map : TypesMap) where
  Leads-set_columns :
      (n : ℕ) (vals : List ℕ) (written : List (List ℕ))
      → Leads
          (Stage level n)
          (Stage level (n + length vals))
          (set_columns pg types_map n vals written)
  unfolding set_columns
  Leads-set_columns n [] written = Leads-count n (n + 0) (omega arith) Leads-done
  Leads-set_columns n (val ∷ vals) written = Leads-bind _ _ (Leads-lift _) λ col.
      Leads-bind _ _ (Leads-indexed written) λ raw. Leads-bind _ _ (Leads-name n col) λ _.
        Leads-bind _ _ (Leads-sql n _) λ _. Leads-bind _ _ (Leads-place n) λ _.
          Leads-bind _ _ (Leads-unless_last n vals _) λ _.
            Leads-bind _ _ (Leads-ok_or _ _) λ col_type.
              Leads-bind _ _ (Leads-bound_param Takes-ahead n pg col_type raw)
                λ _. Leads-count _ _ (omega arith) (Leads-set_columns (n + 1) vals (drop 1 written))

  pub Leads-where_conditions :
      (n : ℕ) (conds : List WhereCond) (args : List (List ℕ))
      → Leads
          (Stage level n)
          (Stage level (n + length conds))
          (where_conditions pg types_map n conds args)
  unfolding where_conditions
  Leads-where_conditions n [] args = Leads-count n (n + 0) (omega arith) Leads-done
  Leads-where_conditions n (cond ∷ conds) args = Leads-bind _ _ (Leads-lift _) λ col.
      Leads-bind _ _ (Leads-name n col) λ _. Leads-bind _ _ (Leads-sql n _) λ _.
        Leads-bind _ _ (Leads-place n) λ _. Leads-bind _ _ (Leads-unless_last n conds _) λ _.
          Leads-bind _ _ (Leads-ok_or _ _) λ col_type. Leads-bind _ _ (Leads-indexed args) λ raw.
            Leads-bind _ _ (Leads-bound_param Takes-ahead n pg col_type raw) λ _.
              Leads-count _ _ (omega arith) (Leads-where_conditions (n + 1) conds (drop 1 args))

  Leads-update_query :
      (hash write_data : List ℕ) (written : List (List ℕ)) (condition : List WhereCond)
      (condition_args : List (List ℕ))
      → Leads
          (Stage level 0)
          (Stage level (length write_data + length condition))
          (update_query pg types_map hash write_data written condition condition_args)
  unfolding update_query
  Leads-update_query hash write_data written condition condition_args =
      Leads-bind _ _ (Leads-sql 0 _) λ _. Leads-bind _ _ (Leads-table 0 hash) λ _.
        Leads-bind _ _ (Leads-sql 0 _) λ _.
          Leads-bind _ _
            (Leads-count _ (length write_data) (omega arith)
              (Leads-set_columns 0 write_data written))
            λ _.
              Leads-bind _ _ (Leads-sql (length write_data) _)
                λ _. Leads-where_conditions (length write_data) condition condition_args

  Leads-insert_columns :
      (n : ℕ) (vals : List ℕ) (written : List (List ℕ))
      → Leads
          (Stage unplaced n)
          (Stage unplaced (n + length vals))
          (insert_columns pg types_map vals written)
  unfolding insert_columns
  Leads-insert_columns n [] written = Leads-count n (n + 0) (omega arith) Leads-done
  Leads-insert_columns n (val ∷ vals) written = Leads-bind _ _ (Leads-lift _) λ col.
      Leads-bind _ _ (Leads-indexed written) λ raw. Leads-bind _ _ (Leads-name n col) λ _.
        Leads-bind _ _ (Leads-expected _) λ col_type.
          Leads-bind _ _ (Leads-bound_param Takes-unplaced n pg col_type raw) λ _.
            Leads-bind _ _ (Leads-unless_last (n + 1) vals _) λ _.
              Leads-count _ _ (omega arith) (Leads-insert_columns (n + 1) vals (drop 1 written))

  Leads-insert_query :
      (hash write_data : List ℕ) (written : List (List ℕ))
      → Leads
          (Stage unplaced 0)
          (Stage level (length write_data))
          (insert_query pg types_map hash write_data written)
  unfolding insert_query
  Leads-insert_query hash write_data written = Leads-bind _ _ (Leads-sql 0 _) λ _.
      Leads-bind _ _ (Leads-table 0 hash) λ _. Leads-bind _ _ (Leads-sql 0 _) λ _.
        Leads-bind _ _
          (Leads-count _ (length write_data) (omega arith)
            (Leads-insert_columns 0 write_data written))
          λ _. Leads-bind _ _ (Leads-sql _ _) λ _. Leads-bind _ _ (Leads-sql _ _) λ _.
            Leads-params _
              λ ps. Leads-bind _ _ (Placing-start ps (length write_data)) λ _. Leads-sql _ _

  -- An INSERT that is put together has the places 1, 2, and so on, one for each of its parameters,
  -- in order; as many parameters as columns; and for each parameter the type of its kind.
  pub insert_query-Bound :
      (hash write_data : List ℕ) (written : List (List ℕ)) (b : Built)
      → insert_query pg types_map hash write_data written nothing_built ≡ (ok tt, b)
      → Bound b × (length b.owned_params ≡ length write_data)
  unfolding places numbered
  insert_query-Bound hash write_data written b e = Bound-of _ b (
      subst (After (Stage level (length write_data))) e (
        (Leads-insert_query hash write_data written).at nothing_built
          (record { placed = refl; typed = refl; count = refl })))

  -- An UPDATE that is put together has the places 1, 2, and so on, one for each of its parameters, in
  -- order, through the columns and on through the conditions; as many parameters as columns and
  -- conditions; and for each parameter the type of its kind.
  pub update_query-Bound :
      (hash write_data : List ℕ) (written : List (List ℕ)) (condition : List WhereCond)
      (condition_args : List (List ℕ)) (b : Built)
      → update_query pg types_map hash write_data written condition condition_args nothing_built
        ≡ (ok tt, b)
      → Bound b × (length b.owned_params ≡ length write_data + length condition)
  unfolding places numbered
  update_query-Bound hash write_data written condition condition_args b e = Bound-of _ b (
      subst (After (Stage level (length write_data + length condition))) e (
        (Leads-update_query hash write_data written condition condition_args).at nothing_built
          (record { placed = refl; typed = refl; count = refl })))
