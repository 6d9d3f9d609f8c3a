-- ===== src/Tests/Tables.antt =====
-- A table of the guest, at concrete inputs.
use zephyr_vm.Prelude.{ℕ, suc, ◌≡◌, refl, ⊤, some, List, [], ◌∷◌, ◌++◌, ◌-◌, ap, sym, arith}
use mathlib.Core.Logic.{◌↔◌}
use zephyr_vm.Errors.{Result, ok, err}
use zephyr_vm.Exec.{unwrapped}
use zephyr_vm.Macros.{
  path_type, struct_data, named, DeriveInput, Table, database_interact_derive, with_name_attr,
}
use zephyr_vm.Macros.Accepted.{named_attribute, Derives, database_interact_derive-Derives}
use zephyr_vm.Macros.Generated.{
  serialized_by, serialized, Sdk, Struct, read_to_rows, put, update, serialize_coder, check_type,
}
use zephyr_vm.Macros.Generated.RoundTrip.{CodingLaws, Written, no_row, row_of, put-read_to_rows}

-- A struct with a number, a value in XDR, and a third field of another type.
abbrev input : DeriveInput
input = record {
  ident = "Balance";
  attrs = named_attribute "balances" ∷ [];
  data_of = struct_data (
      named (
        record { ident = some "amount"; ty = path_type "i128" [] }
        ∷ record { ident = some "asset"; ty = path_type "ScVal" [] }
        ∷ record { ident = some "holder"; ty = path_type "Address" [] }
        ∷ []));
}

abbrev table : Table
table = record {
  struct_name = "Balance";
  table_name = "balances";
  idents = ("amount", 0, "i128") ∷ ("asset", 1, "ScVal") ∷ ("holder", 2, "Address") ∷ [];
}

database_interact_derive-Derives_example :
    (database_interact_derive {E = ⊤} input ≡ ok table) ↔ Derives input table
database_interact_derive-Derives_example = database_interact_derive-Derives input table

-- A value is a number, and each coding puts its own tag before it.
abbrev tagged : ℕ → List ℕ → Result ℕ ⊤
tagged tag (t ∷ n ∷ []) = ok n
tagged tag bytes = err tt

abbrev tables : Sdk ⊤ (λ name. ℕ)
tables = record {
  ZephyrVal = ℕ;
  EnvClient = List (List (List ℕ));
  Condition = ⊤;
  into_val = λ ident v. ok (suc v);
  from_val = λ ident val. ok (val - 1);
  serialize_val = λ val. ok (1 ∷ val ∷ []);
  deserialize_val = tagged 1;
  to_xdr = λ ident v. ok (2 ∷ v ∷ []);
  from_xdr = λ ident. tagged 2;
  serialize = λ ident v. ok (3 ∷ v ∷ []);
  deserialize = λ ident. tagged 3;
  db_read = λ name columns rows. (ok rows, rows);
  db_write = λ name columns row rows. (ok tt, rows ++ (row ∷ []));
  db_update = λ name columns row conditions rows. (ok tt, rows);
}

tagged-ok :
    (tag n : ℕ) (bytes : List ℕ)
    → ◌≡◌ {A = Result (List ℕ) ⊤} (ok (tag ∷ n ∷ [])) (ok bytes)
    → tagged tag bytes ≡ ok n
tagged-ok tag n bytes e = let same : tag ∷ n ∷ [] ≡ bytes = cc e in ap (tagged tag) (sym same)

tables-CodingLaws : CodingLaws tables
tables-CodingLaws = record {
  from_into = λ ident v val e. let same : suc v ≡ val = cc e in ap ok (omega (same, arith));
  deserialize_serialize_val = λ val bytes e. tagged-ok 1 val bytes e;
  from_to_xdr = λ ident v bytes e. tagged-ok 2 v bytes e;
  deserialize_serialize = λ ident v bytes e. tagged-ok 3 v bytes e;
}

-- What was put before, the value, and what was put after it.
abbrev bytes_of : ℕ → List (List ℕ)
bytes_of n = (1 ∷ suc n ∷ []) ∷ (2 ∷ 7 ∷ []) ∷ (3 ∷ 8 ∷ []) ∷ []

abbrev value : ℕ → Struct (λ name. ℕ) table.idents
value n = (n, (7, (8, tt)))

one-Written : (n : ℕ) → Written tables table.idents (bytes_of n ∷ []) (value n ∷ [])
unfolding serialized_by serialized serialize_coder check_type
one-Written n = row_of (value n) (bytes_of n) [] [] refl no_row

put-read_to_rows_example :
    (put tables table (value 5) [] ≡ (ok tt, bytes_of 5 ∷ []))
    × (update tables table (value 5) [] [] ≡ (ok tt, []))
    × (read_to_rows tables table (bytes_of 4 ∷ bytes_of 5 ∷ bytes_of 6 ∷ [])
        ≡ (ok (value 4 ∷ value 5 ∷ value 6 ∷ []), bytes_of 4 ∷ bytes_of 5 ∷ bytes_of 6 ∷ []))
unfolding database_interact_derive with_name_attr unwrapped serialized_by serialized serialize_coder
    check_type
put-read_to_rows_example =
    put-read_to_rows tables tables-CodingLaws input table (value 5) (bytes_of 5) (bytes_of 4 ∷ [])
      (bytes_of 6 ∷ []) (value 4 ∷ []) (value 6 ∷ []) [] []
      (bytes_of 4 ∷ bytes_of 5 ∷ bytes_of 6 ∷ []) (bytes_of 4 ∷ bytes_of 5 ∷ bytes_of 6 ∷ []) refl
      refl (one-Written 4) (one-Written 6) refl
