-- ===== src/Store/Init.antt =====
-- initDB of db.go: the directory and the tables.
use banco.Prelude.{Bool, true, false, Option}
use banco.Call.{Call, ◌>>=◌, ask, done}
use banco.Result.{ok, db_failed}

-- The statements `CREATE TABLE IF NOT EXISTS` of the two tables.
pub data Table : Type 0 where
  orders order_statuses : Table

-- os.Stat and os.IsNotExist for the directory of the file, os.MkdirAll, sql.Open, Ping and Exec.
pub record InitLib (World : Type 0) : Type 1 where
  pub dir_is_missing : World → Bool
  pub mkdir_all : World → Option (Unit {0}) × World
  pub open_file : World → Option (Unit {0}) × World
  pub ping : World → Option (Unit {0}) × World
  pub create_table : Table → World → Option (Unit {0}) × World

module _ {World : Type 0} (lib : InitLib World) where
  abbrev make_dir : Bool → Call World (Unit {0})
  make_dir true = ask lib.mkdir_all db_failed
  make_dir false = done (ok tt)

  -- `initDB`; the connection that it returns is closed, and main does not use it
  unfoldable pub init_db : Call World (Unit {0})
  init_db = do
    a ← λ w. make_dir (lib.dir_is_missing w) w
    b ← ask lib.open_file db_failed
    c ← ask lib.ping db_failed
    d ← ask (lib.create_table orders) db_failed
    ask (lib.create_table order_statuses) db_failed
