-- ===== src/Tests/Queries.antt =====
-- The queries of the test database at concrete inputs: a table with one column, "a", of type bigint.
use zephyr_vm.Prelude.{
  ℕ, zero, suc, if◌then◌else◌, ⊤, ◌+◌, ◌≡◌, refl, true, none, some, List, [], ◌∷◌, length,
}
use zephyr_vm.Errors.{Result, ok, err, panic, write_error}
use zephyr_vm.Exec.{◌>>=◌}
use zephyr_vm.Database.{col_eq}
use zephyr_vm.Symbol.{
  to_string, try_from_bytes, accumulate, encode_char, from_body, letters, char_of, then_letter,
  reverse_onto,
}
use zephyr_vm.Mercury.{
  Word, integer, as_i64, Postgres, val_u32, TypesMap, bigint, type_in, Built, nothing_built,
  unless_last, native_of, bound_as, bound_param,
}
use zephyr_vm.Mercury.Queries.{
  column_name, where_conditions, column_words, where_clause, select_query,
}
use zephyr_vm.Mercury.Queries.Places.{Bound}
use zephyr_vm.Mercury.Queries.Select.{select_query-Bound}
use zephyr_vm.Mercury.Raw.{connected, get_table_types, write_raw, update_raw}
use zephyr_vm.Mercury.Queries.Written.{Cell, Cells, no_cell, one_more, as_integer}
use text.Mathlib.Text.{◌==◌ as str_eq}
use zephyr_vm.Mercury.Raw.Missing.{raw-missing_column}
use zephyr_vm.Mercury.Setup.{TokioPostgres, table_hash, load_table, close}
use zephyr_vm.Mercury.Setup.Refused.{none_dropped, one_dropped, load_table-refused}

-- A server that has no tables, and counts what it executes; a serialized value is a number.
abbrev server_of_none : Postgres
server_of_none = record {
  Server = ℕ;
  Statement = ⊤;
  Row = ⊤;
  Cell = ⊤;
  connect = λ server. true;
  prepare = λ server query. some tt;
  prepare_typed = λ server query types. some tt;
  query = λ server stmt params. some [];
  execute = λ server stmt params. (true, server + 1);
  get = λ row column. none;
  cells = λ row. [];
  cell_bytes = λ cell. none;
  cell_integer = λ cell. none;
  deserialize_val = λ bytes. some (val_u32 3);
  serialize_val = λ val. [];
  serialize_rows = λ rows. [];
}

-- The name "a".
abbrev column : ℕ
column = 9742

abbrev types_map : TypesMap
types_map = (97 ∷ [], bigint) ∷ []

abbrev selected : Built
selected =
    (select_query server_of_none types_map (1 ∷ []) ((97 ∷ []) ∷ []) (some (col_eq column ∷ []))
      (some ((3 ∷ []) ∷ [])) nothing_built).1

select_query-Bound_example : Bound selected × (length selected.owned_params ≡ 1)
unfolding select_query column_words where_clause where_conditions column_name to_string letters
    char_of then_letter reverse_onto type_in bound_param bound_as native_of unless_last ◌>>=◌
select_query-Bound_example =
    select_query-Bound server_of_none types_map (1 ∷ []) ((97 ∷ []) ∷ [])
      (some (col_eq column ∷ [])) (some ((3 ∷ []) ∷ [])) selected refl

-- The same server, with a table that has the column alone.
abbrev server_of_one : Postgres
server_of_one = record server_of_none {
  query = λ server stmt params. some (tt ∷ []);
  get = λ row column. if str_eq column "column_name" then some (97 ∷ []) else some bigint;
  deserialize_val = λ bytes. some (val_u32 3);
}

-- The name "b".
abbrev lacking : ℕ
lacking = 9998

abbrev the_cell : Cell
the_cell = record { cell_name = 97 ∷ []; param = integer 3 }

one_cell : Cells server_of_one types_map (column ∷ []) ((3 ∷ []) ∷ []) (the_cell ∷ [])
unfolding column_name to_string letters char_of then_letter reverse_onto type_in as_i64
one_cell =
    one_more column (3 ∷ []) the_cell bigint [] [] [] refl refl
      (as_integer (val_u32 3) 3 refl refl refl) no_cell

raw-missing_column_example :
    (write_raw server_of_one 0 (1 ∷ []) (column ∷ lacking ∷ []) ((3 ∷ []) ∷ (4 ∷ []) ∷ [])
      ≡ (panic, 0))
    × (update_raw server_of_one 0 (1 ∷ []) (column ∷ lacking ∷ []) ((3 ∷ []) ∷ (4 ∷ []) ∷ []) [] []
        ≡ (err write_error, 0))
unfolding connected get_table_types column_name to_string letters char_of then_letter reverse_onto
    type_in
raw-missing_column_example =
    raw-missing_column server_of_one 0 (1 ∷ []) (column ∷ []) ((3 ∷ []) ∷ []) (the_cell ∷ [])
      lacking (98 ∷ []) [] (4 ∷ []) [] [] [] types_map refl one_cell refl refl

-- A server that has so many tables to drop, and refuses every statement without one.
abbrev answered : ℕ → List Word → Result ⊤ ⊤ × ℕ
answered zero stmt = (err tt, zero)
answered (suc left) stmt = (ok tt, left)

abbrev refusing : TokioPostgres
refusing = record {
  Server = ℕ;
  Problem = ⊤;
  connect = λ server. true;
  execute = answered;
  query = λ server stmt. err tt;
  md5 = λ bytes. bytes;
}

abbrev hash : List ℕ
hash = table_hash refusing column 7

load_table-refused_example :
    (load_table refusing 7 (97 ∷ []) [] none (record { tables = (5 ∷ []) ∷ []; server = 0 })
      ≡ (err tt, record { tables = (5 ∷ []) ∷ hash ∷ []; server = 0 }))
    × (close refusing (record { tables = (5 ∷ []) ∷ hash ∷ (6 ∷ []) ∷ []; server = 1 })
        ≡ (panic, record { tables = (5 ∷ []) ∷ hash ∷ (6 ∷ []) ∷ []; server = 0 }))
unfolding try_from_bytes accumulate encode_char from_body
load_table-refused_example =
    load_table-refused refusing 7 (97 ∷ []) [] none ((5 ∷ []) ∷ []) ((6 ∷ []) ∷ []) 0 0 1 0 0 column
      tt tt refl refl refl (one_dropped 1 (5 ∷ []) 0 [] 0 refl refl (none_dropped 0)) refl refl
