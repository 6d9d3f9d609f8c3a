-- ===== src/Macros.antt =====
-- The derive macro of the guest's tables: macros/src/lib.rs. What it is given is a struct with its
-- attributes; what it makes of it is what the generated code depends on.
pub mod Accepted
pub mod Generated
use zephyr_vm.Prelude.{
  ℕ, suc, ◌+◌, ⊤, Bool, true, false, ◌||◌, Option, none, some, String, List, [], ◌∷◌, map,
  get_elem?, if◌then◌else◌,
}
use zephyr_vm.Errors.{Result, ok, err, panic}
use zephyr_vm.Exec.{unwrap_some, Exec, lift, unwrap, unwrapped, map_ok, and_then, ◌>>=◌, ◌>>◌}
use text.Mathlib.Text.{◌==◌ as str_eq}

pub data Literal : Type 0 where
  str_literal : String → Literal
  other_literal : Literal

pub data Expression : Type 0 where
  literal : Literal → Expression
  other_expression : Expression

-- The segments of the path, and the arguments, if they are an expression.
pub record Attribute : Type 0 where
  pub path : List String
  pub args : Option Expression

-- The name of each segment of a path, of which there is one at least.
pub data FieldType : Type 0 where
  path_type : String → List String → FieldType
  other_type : FieldType

pub record Field : Type 0 where
  pub ident : Option String
  pub ty : FieldType

pub data Fields : Type 0 where
  named : List Field → Fields
  unnamed : Fields

pub data Data : Type 0 where
  struct_data : Fields → Data
  other_data : Data

pub record DeriveInput : Type 0 where
  pub ident : String
  pub attrs : List Attribute
  pub data_of : Data

-- A field's name, its index and the first segment of its type.
abbrev pub FieldEntry : Type 0
FieldEntry = String × ℕ × String

-- What the generated code is made of.
pub record Table : Type 0 where
  pub struct_name : String
  pub table_name : String
  pub idents : List FieldEntry

-- `Path::is_ident`
is_ident : List String → String → Bool
is_ident [] name = false
is_ident (segment ∷ []) name = str_eq segment name
is_ident (segment ∷ more ∷ rest) name = false

module _ {E : Type 0} where
  name_of_literal : Literal → Result (Option String) E
  name_of_literal (str_literal name) = ok (some name)
  name_of_literal other_literal = panic

  name_of_expression : Expression → Result (Option String) E
  unfolding name_of_literal
  name_of_expression (literal l) = name_of_literal l
  name_of_expression other_expression = panic

  -- The closure of `find_map`.
  name_of_attribute : Attribute → Result (Option String) E
  unfolding name_of_expression is_ident
  name_of_attribute attr =
      if is_ident attr.path "with_name"
      then and_then (unwrap_some attr.args) name_of_expression
      else panic

  found_or : Result (Option String) E → Option String → Result (Option String) E
  found_or rest (some name) = ok (some name)
  found_or rest none = rest

  -- `find_map`, up to the first name that is found.
  first_name : List Attribute → Result (Option String) E
  unfolding name_of_attribute found_or
  first_name [] = ok none
  first_name (attr ∷ attrs) =
      let rest = first_name attrs in and_then (name_of_attribute attr) (found_or rest)

  unfoldable pub with_name_attr : List Attribute → Result String E
  unfolding first_name
  with_name_attr attrs = and_then (first_name attrs) unwrap_some

  first_segment : FieldType → Result String E
  first_segment (path_type segment rest) = ok segment
  first_segment other_type = panic

  entry_of : ℕ → Field → Result FieldEntry E
  unfolding first_segment
  entry_of idx field =
      and_then (first_segment field.ty)
        λ segment. and_then (unwrap_some field.ident) λ ident. ok (ident, idx, segment)

  -- The fields by `enumerate`, from an index on.
  columns_from : ℕ → List Field → Result (List FieldEntry) E
  unfolding entry_of
  columns_from idx [] = ok []
  columns_from idx (field ∷ fields) =
      let rest = columns_from (suc idx) fields in
      and_then (entry_of idx field) λ column. map_ok (λ columns. column ∷ columns) rest

  columns_of : Data → Result (List FieldEntry) E
  unfolding columns_from
  columns_of (struct_data (named fields)) = columns_from 0 fields
  columns_of (struct_data unnamed) = panic
  columns_of other_data = panic

  unfoldable pub database_interact_derive : DeriveInput → Result Table E
  unfolding columns_of
  database_interact_derive input = and_then (with_name_attr input.attrs) λ name.
      map_ok (λ idents. record { struct_name = input.ident; table_name = name; idents = idents })
        (columns_of input.data_of)
