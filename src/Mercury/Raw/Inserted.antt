-- ===== src/Mercury/Raw/Inserted.antt =====
-- What `write_raw` and `update_raw` of rs-zephyr-env/src/testutils/database.rs ask the server for.
use zephyr_vm.Prelude.{ℕ, ◌≡◌, refl, true, false, Bool, some, List, map, if◌then◌else◌}
use zephyr_vm.Errors.{ok, err, write_error}
use zephyr_vm.Mercury.{Postgres, TypesMap, as_tosql}
use zephyr_vm.Mercury.Queries.Written.{Cell, Cells, insertion, params, insert_query-insertion}
use zephyr_vm.Database.{WhereCond}
use zephyr_vm.Mercury.Queries.Conditions.{Comparison, Comparisons}
use zephyr_vm.Mercury.Queries.Updated.{setting, update_query-setting}
use zephyr_vm.Mercury.Raw.{update_raw, connected, built, run_statement, stated, executed, write_raw}

module _ (pg : Postgres) where
  executed-if :
      (done : Bool) (server : pg.Server)
      → executed pg (done, server) ≡ ((if done then ok tt else err write_error), server)
  unfolding executed
  executed-if true server = refl
  executed-if false server = refl

  -- A write to a table that the server knows, into columns that the table has and with values that
  -- they take, executes the statement `INSERT INTO table (c1, c2, ..) VALUES ($1, $2, ..)`, if the
  -- server prepares it, with the values in order as its parameters: an i64 for a column of type
  -- bigint, the bytes for another. It comes out well where the server executes it, and is a write error where it does
  -- not; the server is as the statement leaves it.
  pub write_raw-inserts :
      (server server' : pg.Server) (hash write_data : List ℕ) (written : List (List ℕ))
      (types_map : TypesMap) (cells : List Cell) (stmt : pg.Statement) (done : Bool)
      → connected pg server hash ≡ ok types_map
      → Cells pg types_map write_data written cells
      → pg.prepare_typed server (insertion hash cells).query (insertion hash cells).types
        ≡ some stmt
      → pg.execute server stmt (map as_tosql (params cells)) ≡ (done, server')
      → write_raw pg server hash write_data written
        ≡ ((if done then ok tt else err write_error), server')
  unfolding write_raw built run_statement stated
  write_raw-inserts server server' hash write_data written types_map cells stmt done knows are
        prepares runs =
      rw
        (
          knows,
          insert_query-insertion pg types_map hash write_data written cells are,
          prepares,
          runs,
        )
        (executed-if done server')

  -- An update of a table that the server knows, of columns that the table has and with conditions on
  -- such columns, with values and arguments that the columns take, executes the statement `UPDATE
  -- table SET c1 = $1, .. WHERE d1 = $n AND ..`, if the server prepares it, with the values and then
  -- the arguments in order as its parameters. It comes out well where the server executes it, and is a write error where it
  -- does not; the server is as the statement leaves it.
  pub update_raw-sets :
      (server server' : pg.Server) (hash write_data : List ℕ) (written : List (List ℕ))
      (condition : List WhereCond) (condition_args : List (List ℕ)) (types_map : TypesMap)
      (cells : List Cell) (cs : List Comparison) (stmt : pg.Statement) (done : Bool)
      → connected pg server hash ≡ ok types_map
      → Cells pg types_map write_data written cells
      → Comparisons pg types_map condition condition_args cs
      → pg.prepare_typed server (setting hash cells cs).query (setting hash cells cs).types
        ≡ some stmt
      → pg.execute server stmt (map as_tosql (setting hash cells cs).owned_params) ≡ (done, server')
      → update_raw pg server hash write_data written condition condition_args
        ≡ ((if done then ok tt else err write_error), server')
  unfolding update_raw built run_statement stated
  update_raw-sets server server' hash write_data written condition condition_args types_map cells cs
        stmt done knows are hold prepares runs =
      rw
        (
          knows,
          update_query-setting pg types_map hash write_data written condition condition_args cells
              cs are hold,
          prepares,
          runs,
        )
        (executed-if done server')
