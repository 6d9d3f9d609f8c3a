-- ===== src/Mercury/Setup/Refused.antt =====
-- What is left of a table that the server refused to create.
use zephyr_vm.Prelude.{ℕ, ◌≡◌, refl, true, Option, List, [], ◌∷◌, ◌++◌}
use zephyr_vm.Errors.{ok, err, panic}
use zephyr_vm.Exec.{unwrapped, ◌>>=◌}
use zephyr_vm.Symbol.{try_from_bytes}
use zephyr_vm.Mercury.Setup.{
  TokioPostgres, new_table_stmt, drop_table_statement, table_hash, executed, connection, load_table,
  dropped_all, close,
}

module _ (pg : TokioPostgres) where
  -- The server, from one state to another, drops these tables one after another.
  pub data Drops : pg.Server → List (List ℕ) → pg.Server → Type 0 where
    none_dropped : (server : pg.Server) → Drops server [] server
    one_dropped :
        (server : pg.Server) (t : List ℕ) (after : pg.Server) (ts : List (List ℕ))
        (last : pg.Server)
        → pg.connect server ≡ true
        → pg.execute server (drop_table_statement t) ≡ (ok tt, after)
        → Drops after ts last
        → Drops server (t ∷ ts) last

  -- The first table that the server refuses to drop.
  dropped_all-stops :
      (noted : List (List ℕ)) (server : pg.Server) (earlier : List (List ℕ)) (at last : pg.Server)
      (t : List ℕ) (later : List (List ℕ)) (e : pg.Problem)
      → Drops server earlier at
      → pg.connect at ≡ true
      → pg.execute at (drop_table_statement t) ≡ (err e, last)
      → dropped_all pg (earlier ++ (t ∷ later)) (record { tables = noted; server = server })
        ≡ (panic, record { tables = noted; server = last })
  unfolding dropped_all connection executed unwrapped ◌>>=◌
  dropped_all-stops noted _ _ _ last t later e (none_dropped server) up refuses =
      rw (up, refuses) refl
  dropped_all-stops noted _ _ at last t later e (one_dropped server t' after ts _ up' drops more) up
        refuses =
      rw (up', drops) (dropped_all-stops noted after ts at last t later e more up refuses)

  -- Where the symbol packs and the server refuses to create the table: `load_table` reports it, and
  -- the table stays noted, behind the tables that the handle had. `close` on a handle with these
  -- tables and others behind, at a server that drops the earlier ones and then refuses to drop this
  -- one, panics there: the server is as these drops leave it, and is not asked to drop the tables
  -- behind.
  pub load_table-refused :
      (id : ℕ) (table_name : List ℕ) (columns : List (List ℕ))
      (native_types : Option (List (ℕ × List ℕ))) (earlier later : List (List ℕ))
      (server after closing at last : pg.Server) (symbol : ℕ) (e e' : pg.Problem)
      → try_from_bytes table_name ≡ ok symbol
      → pg.connect server ≡ true
      → pg.execute server (new_table_stmt (table_hash pg symbol id) columns native_types)
        ≡ (err e, after)
      → Drops closing earlier at
      → pg.connect at ≡ true
      → pg.execute at (drop_table_statement (table_hash pg symbol id)) ≡ (err e', last)
      → (load_table pg id table_name columns native_types
            (record { tables = earlier; server = server })
          ≡ (err e, record { tables = earlier ++ (table_hash pg symbol id ∷ []); server = after }))
        × (close pg
              (record { tables = earlier ++ (table_hash pg symbol id ∷ later); server = closing })
            ≡ (
              panic,
              record { tables = earlier ++ (table_hash pg symbol id ∷ later); server = last },
            ))
  unfolding load_table close connection executed ◌>>=◌
  load_table-refused id table_name columns native_types earlier later server after closing at last
        symbol e e' packs up refused drops again kept =
      (
        rw (packs, up, refused) refl,
        dropped_all-stops (earlier ++ (table_hash pg symbol id ∷ later)) closing earlier at last
            (table_hash pg symbol id) later e' drops again kept,
      )
