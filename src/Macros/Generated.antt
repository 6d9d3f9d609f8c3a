-- ===== src/Macros/Generated.antt =====
-- The code that the derive macro of macros/src/lib.rs makes, by what it does: `read_to_rows`, `put`
-- and `update`. It binds `row`, `bytes` and `result` beside the fields, which have other names.
pub mod RoundTrip
use zephyr_vm.Prelude.{
  ℕ, suc, ◌+◌, ⊤, Bool, true, false, ◌||◌, Option, none, some, String, List, [], ◌∷◌, map,
  get_elem?, if◌then◌else◌,
}
use zephyr_vm.Errors.{Result, ok, err, panic}
use zephyr_vm.Exec.{unwrap_some, Exec, lift, unwrap, unwrapped, map_ok, and_then, ◌>>=◌, ◌>>◌}
use text.Mathlib.Text.{◌==◌ as str_eq}
use zephyr_vm.Macros.{FieldEntry, Table}

-- How the bytes of a field are made and read.
pub data Coder : Type 0 where
  zephyr_val xdr plain : Coder

unfoldable pub check_type : String → List String → Bool
check_type t [] = false
check_type t (expected ∷ rest) = str_eq t expected || check_type t rest

-- The types that are kept as a ZephyrVal, and those that are kept in XDR.
abbrev val_types : List String
val_types = "i64" ∷ "i128" ∷ "u64" ∷ "f64" ∷ "u32" ∷ "i32" ∷ "f32" ∷ "String" ∷ "Vec" ∷ []

abbrev xdr_types : List String
xdr_types = "ScVal" ∷ "Hash" ∷ []

-- Whether the field is converted where the struct is put together.
unfoldable pub converts : String → Bool
converts field_type = check_type field_type val_types

unfoldable pub deser_coder : String → Coder
deser_coder field_type =
    if check_type field_type val_types
    then zephyr_val
    else (if check_type field_type xdr_types then xdr else plain)

unfoldable pub serialize_coder : String → Coder
serialize_coder field_type =
    if check_type field_type val_types
    then zephyr_val
    else (if check_type field_type xdr_types then xdr else plain)

unfoldable pub serialize_coder_update : String → Coder
serialize_coder_update field_type =
    if check_type field_type val_types
    then zephyr_val
    else (if check_type field_type xdr_types then xdr else plain)

-- The guest's SDK, bincode and XDR, at the types of the struct's fields by their names.
pub record Sdk (F : Type 0) (Value : String → Type 0) : Type 1 where
  pub ZephyrVal : Type 0
  pub EnvClient : Type 0
  pub Condition : Type 0
  -- `TryInto<ZephyrVal>`, and out of it
  pub into_val : (ident : String) → Value ident → Result ZephyrVal F
  pub from_val : (ident : String) → ZephyrVal → Result (Value ident) F
  pub serialize_val : ZephyrVal → Result (List ℕ) F
  pub deserialize_val : List ℕ → Result ZephyrVal F
  pub to_xdr : (ident : String) → Value ident → Result (List ℕ) F
  pub from_xdr : (ident : String) → List ℕ → Result (Value ident) F
  pub serialize : (ident : String) → Value ident → Result (List ℕ) F
  pub deserialize : (ident : String) → List ℕ → Result (Value ident) F
  -- a row is a list of cells, of which each is its bytes
  pub db_read : String → List String → Exec EnvClient F (List (List (List ℕ)))
  pub db_write : String → List String → List (List ℕ) → Exec EnvClient F ⊤
  pub db_update : String → List String → List (List ℕ) → List Condition → Exec EnvClient F ⊤

-- A value of the struct: a value for each field.
abbrev pub Struct : (Value : String → Type 0) → List FieldEntry → Type 0
Struct Value [] = ⊤
Struct Value ((ident, idx, field_type) ∷ columns) = Value ident × Struct Value columns

module _ {F : Type 0} {Value : String → Type 0} (sdk : Sdk F Value) where
  -- A field as the code has it before the struct is put together.
  pub data Bound (ident : String) : Type 0 where
    as_val : sdk.ZephyrVal → Bound ident
    as_value : Value ident → Bound ident

  deserialized : (ident : String) → Coder → List ℕ → Result (Bound ident) F
  deserialized ident zephyr_val bytes = map_ok as_val (unwrap (sdk.deserialize_val bytes))
  deserialized ident xdr bytes = map_ok as_value (unwrap (sdk.from_xdr ident bytes))
  deserialized ident plain bytes = map_ok as_value (unwrap (sdk.deserialize ident bytes))

  -- `try_into().unwrap()`, or the binding itself. A conversion of a value to its own type is that
  -- value, and a ZephyrVal that is not converted is a type error of the generated code.
  constructed : (ident : String) → Bool → Bound ident → Result (Value ident) F
  constructed ident true (as_val v) = unwrap (sdk.from_val ident v)
  constructed ident true (as_value v) = ok v
  constructed ident false (as_val v) = panic
  constructed ident false (as_value v) = ok v

  -- A row's fields by their indices.
  read_row : (columns : List FieldEntry) → List (List ℕ) → Result (Struct Value columns) F
  unfolding deserialized constructed
  read_row [] row = ok tt
  read_row ((ident, idx, field_type) ∷ columns) row =
      let rest = read_row columns row in
      and_then (unwrap_some (get_elem? row idx)) λ bytes.
        and_then (deserialized ident (deser_coder field_type) bytes) λ bound.
          and_then rest
            λ others. map_ok (λ v. (v, others)) (constructed ident (converts field_type) bound)

  read_rows :
      (columns : List FieldEntry) → List (List (List ℕ)) → Result (List (Struct Value columns)) F
  unfolding read_row
  read_rows columns [] = ok []
  read_rows columns (row ∷ rows) =
      let rest = read_rows columns rows in
      and_then (read_row columns row) λ s. map_ok (λ ss. s ∷ ss) rest

  unfoldable pub serialized : (ident : String) → Coder → Value ident → Result (List ℕ) F
  serialized ident zephyr_val v =
      and_then (unwrap (sdk.into_val ident v)) λ val. unwrap (sdk.serialize_val val)
  serialized ident xdr v = unwrap (sdk.to_xdr ident v)
  serialized ident plain v = unwrap (sdk.serialize ident v)

  -- The bytes of each field, by the coders that a method uses.
  unfoldable pub serialized_by :
      (String → Coder)
      → (columns : List FieldEntry) → Struct Value columns
      → Result (List (List ℕ)) F
  unfolding serialized
  serialized_by coder [] s = ok []
  serialized_by coder ((ident, idx, field_type) ∷ columns) (v, vs) =
      let rest = serialized_by coder columns vs in
      and_then (serialized ident (coder field_type) v) λ bytes. map_ok (λ more. bytes ∷ more) rest

  module _ (table : Table) where
    abbrev field_literals : List String
    field_literals = map (λ column. column.0) table.idents

    unfoldable pub read_to_rows : Exec sdk.EnvClient F (List (Struct Value table.idents))
    unfolding read_rows
    read_to_rows = do
      rows ← unwrapped {D = F} (sdk.db_read table.table_name field_literals)
      lift (read_rows table.idents rows)

    unfoldable pub put : Struct Value table.idents → Exec sdk.EnvClient F ⊤
    unfolding serialized_by
    put self = do
      written ← lift (serialized_by serialize_coder table.idents self)
      unwrapped {D = F} (sdk.db_write table.table_name field_literals written)

    unfoldable pub update : Struct Value table.idents → List sdk.Condition → Exec sdk.EnvClient F ⊤
    unfolding serialized_by
    update self conditions = do
      written ← lift (serialized_by serialize_coder_update table.idents self)
      unwrapped {D = F} (sdk.db_update table.table_name field_literals written conditions)
