-- ===== src/Macros/Accepted.antt =====
-- Which structs the derive macro takes: macros/src/lib.rs.
use zephyr_vm.Prelude.{
  ℕ, suc, ◌≡◌, refl, sym, ap, ◌∙◌, if◌then◌else◌, subst, Bool, true, false, Option, none, some,
  String, List, [], ◌∷◌,
}
use mathlib.Core.Logic.{◌↔◌}
use zephyr_vm.Errors.{Result, ok, panic}
use zephyr_vm.Exec.{unwrap_some, and_then-ok, map_ok-ok}
use text.Mathlib.TextEquality.{eq_iff}
use zephyr_vm.Macros.{
  Expression, Attribute, FieldType, path_type, other_type, Field, named, unnamed, Data, struct_data,
  other_data, DeriveInput, FieldEntry, Table, str_literal, other_literal, literal, other_expression,
  name_of_literal, name_of_expression, is_ident, name_of_attribute, first_name, found_or,
  with_name_attr, first_segment, entry_of, columns_from, columns_of, database_interact_derive,
}

-- The columns are the fields, in order, counted from an index on, each with the first segment of
-- the path that is its type.
pub data Columns : ℕ → List Field → List FieldEntry → Type 0 where
  no_column : (idx : ℕ) → Columns idx [] []
  one_more :
      (idx : ℕ) (field : Field) (ident segment : String) (rest : List String) (fields : List Field)
      (columns : List FieldEntry)
      → field.ident ≡ some ident
      → field.ty ≡ path_type segment rest
      → Columns (suc idx) fields columns
      → Columns idx (field ∷ fields) ((ident, idx, segment) ∷ columns)

-- The attribute `#[with_name("..")]`.
abbrev pub named_attribute : String → Attribute
named_attribute name = record { path = "with_name" ∷ []; args = some (literal (str_literal name)) }

-- What the macro is for: a struct with named fields whose first attribute is the name of its table.
pub record Derives (input : DeriveInput) (table : Table) : Type 0 where
  pub others : List Attribute
  pub fields : List Field
  pub same_name : table.struct_name ≡ input.ident
  pub named_first : input.attrs ≡ named_attribute table.table_name ∷ others
  pub named_fields : input.data_of ≡ struct_data (named fields)
  pub same_columns : Columns 0 fields table.idents

is_ident-eq : (path : List String) (name : String) → is_ident path name ≡ true → path ≡ name ∷ []
unfolding is_ident
is_ident-eq [] name e = absurd (cc e)
is_ident-eq (segment ∷ []) name e = ap (λ (s : String). s ∷ []) ((eq_iff segment name).0 e)
is_ident-eq (segment ∷ more ∷ rest) name e = absurd (cc e)

module _ {E : Type 0} where
  columns_from-ok :
      (idx : ℕ) (fields : List Field) (columns : List FieldEntry)
      → Columns idx fields columns
      → columns_from {E = E} idx fields ≡ ok columns
  unfolding columns_from entry_of first_segment
  columns_from-ok _ _ _ (no_column idx) = refl
  columns_from-ok _ _ _ (one_more idx field ident segment rest fields columns e e' more) =
      rw (e, e', columns_from-ok (suc idx) fields columns more) refl

  first_segment-ok :
      (ty : FieldType) (segment : String)
      → first_segment {E = E} ty ≡ ok segment
      → (rest : List String) × (ty ≡ path_type segment rest)
  unfolding first_segment
  first_segment-ok (path_type segment rest) _ e = (rest, cc e)
  first_segment-ok other_type _ e = absurd (cc e)

  unwrap_some-ok : {A : Type 0} (o : Option A) (a : A) → unwrap_some {E = E} o ≡ ok a → o ≡ some a
  unwrap_some-ok none a e = absurd (cc e)
  unwrap_some-ok (some b) a e = cc e

  columns_from-Columns :
      (idx : ℕ) (fields : List Field) (columns : List FieldEntry)
      → columns_from {E = E} idx fields ≡ ok columns
      → Columns idx fields columns
  unfolding columns_from entry_of
  columns_from-Columns idx [] columns e =
      subst (λ (c : List FieldEntry). Columns idx [] c) (cc e) (no_column idx)
  columns_from-Columns idx (field ∷ fields) columns e =
      let (column, at_column, e') = and_then-ok (entry_of {E = E} idx field) _ columns e in
      let (more, at_more, same) = map_ok-ok (λ cs. column ∷ cs) _ columns e' in
      let (segment, at_segment, e'') =
        and_then-ok (first_segment {E = E} field.ty) _ column at_column in
      let (ident, at_ident, made) = and_then-ok (unwrap_some field.ident) _ column e'' in
      let (rest, typed) = first_segment-ok field.ty segment at_segment in
      subst (λ (c : List FieldEntry). Columns idx (field ∷ fields) c) (cc (made, same))
        (one_more idx field ident segment rest fields more
          (unwrap_some-ok field.ident ident at_ident) typed
          (columns_from-Columns (suc idx) fields more at_more))

  columns_of-ok :
      (d : Data) (columns : List FieldEntry)
      → columns_of {E = E} d ≡ ok columns
      → (fields : List Field) × (d ≡ struct_data (named fields)) × Columns 0 fields columns
  unfolding columns_of
  columns_of-ok (struct_data (named fields)) columns e =
      (fields, refl, columns_from-Columns 0 fields columns e)
  columns_of-ok (struct_data unnamed) columns e = absurd (cc e)
  columns_of-ok other_data columns e = absurd (cc e)

  name_of_expression-ok :
      (args : Expression) (found : Option String)
      → name_of_expression {E = E} args ≡ ok found
      → (name : String) × (args ≡ literal (str_literal name)) × (found ≡ some name)
  unfolding name_of_expression name_of_literal
  name_of_expression-ok (literal (str_literal name)) found e = (name, refl, cc e)
  name_of_expression-ok (literal other_literal) found e = absurd (cc e)
  name_of_expression-ok other_expression found e = absurd (cc e)

  if-ok :
      {A : Type 0} (b : Bool) (r : Result A E) (a : A)
      → (if b then r else panic) ≡ ok a
      → (b ≡ true) × (r ≡ ok a)
  if-ok true r a e = (refl, e)
  if-ok false r a e = absurd (cc e)

  name_of_attribute-ok :
      (attr : Attribute) (found : Option String)
      → name_of_attribute {E = E} attr ≡ ok found
      → (name : String) × (attr ≡ named_attribute name) × (found ≡ some name)
  unfolding name_of_attribute
  name_of_attribute-ok attr found e =
      let (right, e') = if-ok (is_ident attr.path "with_name") _ found e in
      let (args, at_args, e'') = and_then-ok (unwrap_some attr.args) name_of_expression found e' in
      let (name, same_args, same) = name_of_expression-ok args found e'' in
      let path = is_ident-eq attr.path "with_name" right in
      let given = unwrap_some-ok attr.args args at_args ∙ ap some same_args in
      (name, (λ i. record { path = path i; args = given i }), same)

  with_name_attr-ok :
      (attrs : List Attribute) (name : String)
      → with_name_attr {E = E} attrs ≡ ok name
      → (others : List Attribute) × (attrs ≡ named_attribute name ∷ others)
  unfolding with_name_attr first_name
  with_name_attr-ok [] name e = absurd (cc e)
  with_name_attr-ok (attr ∷ attrs) name e =
      let (found, at_found, e') =
        and_then-ok (first_name {E = E} (attr ∷ attrs)) unwrap_some name e in
      let (answer, at_answer, e'') =
        and_then-ok (name_of_attribute {E = E} attr) (found_or (first_name attrs)) found at_found in
      let (own, same_attr, own_answer) = name_of_attribute-ok attr answer at_answer in
      let own_found : ok (some own) ≡ ok found =
        subst (λ (a : Option String). found_or {E = E} (first_name attrs) a ≡ ok found) own_answer
          e'' in
      let same : own ≡ name = cc (own_found, unwrap_some-ok found name e') in
      (attrs, ap (λ (a : Attribute). a ∷ attrs) (same_attr ∙ ap named_attribute same))

  -- The macro makes a table of an input exactly where it is a struct with named fields, each of a
  -- type that is a path, and its first attribute is `with_name` with a string; the columns are the
  -- fields in order.
  pub database_interact_derive-Derives :
      (input : DeriveInput) (table : Table)
      → (database_interact_derive {E = E} input ≡ ok table) ↔ Derives input table
  unfolding database_interact_derive with_name_attr first_name name_of_attribute columns_of is_ident
      name_of_expression name_of_literal
  database_interact_derive-Derives input table = (
    λ e. derived e,
    λ d.
        rw (d.named_first, d.named_fields, columns_from-ok 0 d.fields table.idents d.same_columns)
          (ap (λ (n : String). ok (record table { struct_name = n })) (sym d.same_name)),
  )
    where
      derived : database_interact_derive {E = E} input ≡ ok table → Derives input table
      derived e =
          let (name, at_name, e') = and_then-ok (with_name_attr {E = E} input.attrs) _ table e in
          let (idents, at_idents, made) = map_ok-ok _ (columns_of {E = E} input.data_of) table e' in
          let (others, first) = with_name_attr-ok input.attrs name at_name in
          let (fields, shape, columns) = columns_of-ok input.data_of idents at_idents in
          subst (λ (t : Table). Derives input t) made
            (record {
              others = others;
              fields = fields;
              same_name = refl;
              named_first = first;
              named_fields = shape;
              same_columns = columns;
            })
