-- ===== src/Tests/Inserts.antt =====
-- A write to a table of the test database, with a column of each kind, and an update of it, at
-- concrete inputs.
use zephyr_vm.Prelude.{ℕ, ⊤, ◌+◌, ◌≡◌, refl, true, none, some, List, [], ◌∷◌, if◌then◌else◌}
use zephyr_vm.Errors.{ok}
use zephyr_vm.Symbol.{to_string, letters, char_of, then_letter, reverse_onto}
use zephyr_vm.Mercury.{Postgres, val_u32, TypesMap, bigint, integer, bytes, type_in}
use zephyr_vm.Mercury.Queries.Written.{Cell, Cells, no_cell, one_more, as_integer, as_bytes}
use zephyr_vm.Mercury.Queries.{column_name}
use zephyr_vm.Database.{col_eq}
use zephyr_vm.Mercury.Queries.Conditions.{one_compared, no_comparison}
use zephyr_vm.Mercury.Raw.{update_raw, connected, get_table_types, write_raw}
use zephyr_vm.Mercury.Raw.Inserted.{write_raw-inserts, update_raw-sets}
use text.Mathlib.Text.{◌==◌ as str_eq}

-- The names "a" and "b" of columns, and their symbols.
abbrev a : ℕ
a = 9742

abbrev b : ℕ
b = 9998

abbrev other_type : List ℕ
other_type = 98 ∷ []

-- A server with one table, whose column "a" is of type bigint, and "b" of another; it counts what it
-- executes. Every value is the u32 3.
abbrev server_of_one : Postgres
server_of_one = record {
  Server = ℕ;
  Statement = ⊤;
  Row = List ℕ × List ℕ;
  Cell = ⊤;
  connect = λ server. true;
  prepare = λ server query. some tt;
  prepare_typed = λ server query types. some tt;
  query = λ server stmt params. some ((97 ∷ [], bigint) ∷ (98 ∷ [], other_type) ∷ []);
  execute = λ server stmt params. (true, server + 1);
  get = λ row column. if str_eq column "column_name" then some row.0 else some row.1;
  cells = λ row. [];
  cell_bytes = λ cell. none;
  cell_integer = λ cell. none;
  deserialize_val = λ bytes. some (val_u32 3);
  serialize_val = λ val. [];
  serialize_rows = λ rows. [];
}

abbrev types_map : TypesMap
types_map = (98 ∷ [], other_type) ∷ (97 ∷ [], bigint) ∷ []

abbrev cells : List Cell
cells =
    record { cell_name = 97 ∷ []; param = integer 3 }
    ∷ record { cell_name = 98 ∷ []; param = bytes (7 ∷ []) }
    ∷ []

cells-Cells : Cells server_of_one types_map (a ∷ b ∷ []) ((6 ∷ []) ∷ (7 ∷ []) ∷ []) cells
unfolding column_name to_string letters char_of then_letter reverse_onto type_in
cells-Cells =
    one_more a (6 ∷ []) (record { cell_name = 97 ∷ []; param = integer 3 }) bigint (b ∷ [])
      ((7 ∷ []) ∷ []) (record { cell_name = 98 ∷ []; param = bytes (7 ∷ []) } ∷ []) refl refl
      (as_integer (val_u32 3) 3 refl refl refl)
      (one_more b (7 ∷ []) (record { cell_name = 98 ∷ []; param = bytes (7 ∷ []) }) other_type [] []
        [] refl refl (as_bytes refl) no_cell)

write_raw-inserts_example :
    write_raw server_of_one 0 (1 ∷ []) (a ∷ b ∷ []) ((6 ∷ []) ∷ (7 ∷ []) ∷ []) ≡ (ok tt, 1)
unfolding connected get_table_types
write_raw-inserts_example =
    write_raw-inserts server_of_one 0 1 (1 ∷ []) (a ∷ b ∷ []) ((6 ∷ []) ∷ (7 ∷ []) ∷ []) types_map
      cells tt true refl cells-Cells refl refl

-- Of the rows whose column "b" is 7.
update_raw-sets_example :
    update_raw server_of_one 0
      (1 ∷ [])
      (a ∷ b ∷ [])
      ((6 ∷ []) ∷ (7 ∷ []) ∷ [])
      (col_eq b ∷ [])
      ((7 ∷ []) ∷ [])
    ≡ (ok tt, 1)
unfolding connected get_table_types column_name to_string letters char_of then_letter reverse_onto
    type_in
update_raw-sets_example =
    update_raw-sets server_of_one 0 1 (1 ∷ []) (a ∷ b ∷ []) ((6 ∷ []) ∷ (7 ∷ []) ∷ [])
      (col_eq b ∷ []) ((7 ∷ []) ∷ []) types_map cells
      (record { operator = " = "; cell = record { cell_name = 98 ∷ []; param = bytes (7 ∷ []) } }
        ∷ [])
      tt true refl cells-Cells
      (one_compared (col_eq b) (7 ∷ []) (record { cell_name = 98 ∷ []; param = bytes (7 ∷ []) })
        other_type [] [] [] refl refl (as_bytes refl) no_comparison)
      refl refl
