-- ===== src/Macros/Generated/RoundTrip.antt =====
-- What the generated code of macros/src/lib.rs writes, it reads back.
use zephyr_vm.Prelude.{
  ℕ, suc, ◌≡◌, refl, sym, ap, subst, ◌∙◌, Bool, true, false, if◌then◌else◌, some, String, List, [],
  ◌∷◌, ◌++◌, append_assoc, length, length-append, get_elem?, arith,
}
use zephyr_vm.Errors.{Result, ok, err, panic}
use zephyr_vm.Exec.{unwrap, unwrapped, and_then, and_then-ok, map_ok-ok, ◌>>=◌}
use zephyr_vm.Macros.{Field, FieldEntry, Table, DeriveInput, database_interact_derive}
use zephyr_vm.Macros.Generated.{
  zephyr_val, xdr, plain, check_type, converts, deser_coder, serialize_coder,
  serialize_coder_update, Sdk, Struct, val_types, xdr_types, deserialized, constructed, read_row,
  read_rows, serialized, serialized_by, read_to_rows, put, update, field_literals,
}
use zephyr_vm.Macros.Accepted.{Columns, no_column, one_more, database_interact_derive-Derives}

-- What the conversions, bincode and XDR document: what is written is read back.
pub record CodingLaws {F : Type 0} {Value : String → Type 0} (sdk : Sdk F Value) : Type 0 where
  pub from_into :
      (ident : String) (v : Value ident) (val : sdk.ZephyrVal)
      → sdk.into_val ident v ≡ ok val
      → sdk.from_val ident val ≡ ok v
  pub deserialize_serialize_val :
      (val : sdk.ZephyrVal) (bytes : List ℕ)
      → sdk.serialize_val val ≡ ok bytes
      → sdk.deserialize_val bytes ≡ ok val
  pub from_to_xdr :
      (ident : String) (v : Value ident) (bytes : List ℕ)
      → sdk.to_xdr ident v ≡ ok bytes
      → sdk.from_xdr ident bytes ≡ ok v
  pub deserialize_serialize :
      (ident : String) (v : Value ident) (bytes : List ℕ)
      → sdk.serialize ident v ≡ ok bytes
      → sdk.deserialize ident bytes ≡ ok v

get_elem?-length :
    {A : Type 0} (before : List A) (x : A) (rest : List A)
    → get_elem? (before ++ (x ∷ rest)) (length before) ≡ some x
get_elem?-length [] x rest = refl
get_elem?-length (y ∷ before) x rest = get_elem?-length before x rest

unwrap-ok : {A D E : Type 0} (r : Result A D) (a : A) → unwrap {E = E} r ≡ ok a → r ≡ ok a
unwrap-ok (ok b) a e = cc e
unwrap-ok (err x) a e = absurd (cc e)
unwrap-ok panic a e = absurd (cc e)

module _ {F : Type 0} {Value : String → Type 0} (sdk : Sdk F Value) (laws : CodingLaws sdk) where
  -- One field, by the coder that writes it and the one that reads it.
  coded :
      (val_type xdr_type : Bool) (ident : String) (v : Value ident) (bytes : List ℕ)
      → let coder = if val_type then zephyr_val else (if xdr_type then xdr else plain) in
        serialized sdk ident coder v ≡ ok bytes
        → and_then (deserialized sdk ident coder bytes) (constructed sdk ident val_type) ≡ ok v
  unfolding serialized deserialized constructed
  coded true xdr_type ident v bytes e =
      let (val, into, e') = and_then-ok (unwrap {E = F} (sdk.into_val ident v)) _ bytes e in
      rw
        (
          laws.deserialize_serialize_val val bytes (unwrap-ok {E = F} _ bytes e'),
          laws.from_into ident v val (unwrap-ok {E = F} _ val into),
        )
        refl
  coded false true ident v bytes e =
      rw (laws.from_to_xdr ident v bytes (unwrap-ok {E = F} _ bytes e)) refl
  coded false false ident v bytes e =
      rw (laws.deserialize_serialize ident v bytes (unwrap-ok {E = F} _ bytes e)) refl

  constructed-serialized :
      (ident field_type : String) (v : Value ident) (bytes : List ℕ)
      → serialized sdk ident (serialize_coder field_type) v ≡ ok bytes
      → and_then
          (deserialized sdk ident (deser_coder field_type) bytes)
          (constructed sdk ident (converts field_type))
        ≡ ok v
  unfolding serialize_coder deser_coder converts
  constructed-serialized ident field_type v bytes e =
      coded (check_type field_type val_types) (check_type field_type xdr_types) ident v bytes e

  -- The fields of a row, from an index on.
  read_row-serialized_by :
      (idx : ℕ) (fields : List Field) (columns : List FieldEntry)
      → Columns idx fields columns
      → (s : Struct Value columns) (before row : List (List ℕ)) → length before ≡ idx
      → serialized_by sdk serialize_coder columns s ≡ ok row
      → read_row sdk columns (before ++ row) ≡ ok s
  unfolding read_row serialized_by
  read_row-serialized_by _ _ _ (no_column idx) s before row e e' = refl
  read_row-serialized_by _ _ _ (one_more idx field ident segment rest fields columns _ _ more)
        (v, vs) before row e e' =
      let (bytes, at_bytes, e'') =
        and_then-ok (serialized sdk ident (serialize_coder segment) v) _ row e' in
      let longer : length (before ++ (bytes ∷ [])) ≡ suc idx =
        omega (length-append before (bytes ∷ []), e, arith) in
      let (others, at_others, same) = map_ok-ok (λ bs. bytes ∷ bs) _ row e'' in
      let (bound, at_bound, e3) =
        and_then-ok (deserialized sdk ident (deser_coder segment) bytes) _ v
          (constructed-serialized ident segment v bytes at_bytes) in
      let split : (before ++ (bytes ∷ [])) ++ others ≡ before ++ row =
        append_assoc before (bytes ∷ []) others ∙ ap (λ (bs : List (List ℕ)). before ++ bs) same in
      let found : get_elem? (before ++ row) idx ≡ some bytes =
        rw (sym same, sym e) (get_elem?-length before bytes others) in
      let behind : read_row sdk columns (before ++ row) ≡ ok vs =
        subst (λ (r : List (List ℕ)). read_row sdk columns r ≡ ok vs) split
          (read_row-serialized_by (suc idx) fields columns more vs (before ++ (bytes ∷ [])) others
            longer at_others) in
      rw (found, at_bound, behind, e3) refl

module _ {F : Type 0} {Value : String → Type 0} (sdk : Sdk F Value) where
  -- These rows are the bytes of these structs, one for one and in this order.
  pub data Written (columns : List FieldEntry)
      : List (List (List ℕ)) → List (Struct Value columns) → Type 0 where
    no_row : Written columns [] []
    row_of :
        (s : Struct Value columns) (row : List (List ℕ)) (rows : List (List (List ℕ)))
        (structs : List (Struct Value columns))
        → serialized_by sdk serialize_coder columns s ≡ ok row
        → Written columns rows structs
        → Written columns (row ∷ rows) (s ∷ structs)

  Written-append :
      {columns : List FieldEntry} {rows rows' : List (List (List ℕ))}
      {structs structs' : List (Struct Value columns)}
      → Written columns rows structs
      → Written columns rows' structs'
      → Written columns (rows ++ rows') (structs ++ structs')
  Written-append no_row behind = behind
  Written-append (row_of s row rows structs e written) behind =
      row_of s row _ _ e (Written-append written behind)

module _ {F : Type 0} {Value : String → Type 0} (sdk : Sdk F Value) (laws : CodingLaws sdk) where
  read_rows-Written :
      (fields : List Field) (columns : List FieldEntry)
      → Columns 0 fields columns
      → {rows : List (List (List ℕ))} {structs : List (Struct Value columns)}
      → Written sdk columns rows structs
      → read_rows sdk columns rows ≡ ok structs
  unfolding read_rows
  read_rows-Written fields columns same no_row = refl
  read_rows-Written fields columns same (row_of s row rows structs e written) =
      rw
        (
          read_row-serialized_by sdk laws 0 fields columns same s [] row refl e,
          read_rows-Written fields columns same written,
        )
        refl

  same_coder : serialize_coder_update ≡ serialize_coder
  unfolding serialize_coder_update serialize_coder
  same_coder = refl

  -- Where the macro makes a table of a struct: `put` and `update` hand the database one and the same
  -- row for a value of it, under the names of the fields, and in whatever place a read finds that
  -- row, among others that are of such values too, reading the rows gives that value there, and
  -- every other value in its place. It takes that the codings read what they write.
  pub put-read_to_rows :
      (input : DeriveInput) (table : Table) (self : Struct Value table.idents) (row : List (List ℕ))
      (before after : List (List (List ℕ))) (structs structs' : List (Struct Value table.idents))
      (conditions : List sdk.Condition) (env read_from read_to : sdk.EnvClient)
      → database_interact_derive {E = F} input ≡ ok table
      → serialized_by sdk serialize_coder table.idents self ≡ ok row
      → Written sdk table.idents before structs
      → Written sdk table.idents after structs'
      → sdk.db_read table.table_name (field_literals sdk table) read_from
        ≡ (ok (before ++ (row ∷ after)), read_to)
      → (put sdk table self env
          ≡ unwrapped (sdk.db_write table.table_name (field_literals sdk table) row) env)
        × (update sdk table self conditions env
            ≡ unwrapped
                (sdk.db_update table.table_name (field_literals sdk table) row conditions)
                env)
        × (read_to_rows sdk table read_from ≡ (ok (structs ++ (self ∷ structs')), read_to))
  unfolding read_to_rows put update unwrapped ◌>>=◌
  put-read_to_rows input table self row before after structs structs' conditions env read_from
        read_to derived e written written' reads =
      let derives = (database_interact_derive-Derives input table).0 derived in
      let e' : serialized_by sdk serialize_coder_update table.idents self ≡ ok row =
        rw same_coder e in
      let all = Written-append sdk written (row_of self row after structs' e written') in
      (
        rw e refl,
        rw e' refl,
        rw (reads, read_rows-Written derives.fields table.idents derives.same_columns all) refl,
      )
