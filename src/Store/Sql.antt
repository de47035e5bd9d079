-- ===== src/Store/Sql.antt =====
-- A connection to the database: what is stored, the copy that an open transaction works on, and which
-- of the calls to come fail.
use banco.Prelude.{Bool, List, [], ◌∷◌, Option, none, some, if◌then◌else◌}
use banco.Result.{Result, ok, err, panic, db_failed}
use banco.Store.Rows.{Db}

pub record Conn : Type 0 where
  pub stored : Db
  pub working : Option Db
  pub faults : List Bool

abbrev pub Sql : Type 0 → Type 0
Sql A = Conn → Result A × Conn

abbrev pub continue : {A B : Type 0} → Result A → (A → Sql B) → Sql B
continue panic f c = (panic, c)
continue (err e) f c = (err e, c)
continue (ok a) f c = f a c

infixr 5 ◌>>=◌ ◌>>◌
abbrev pub ◌>>=◌ : {A B : Type 0} → Sql A → (A → Sql B) → Sql B
◌>>=◌ m f c = let (r, c') = m c in continue r f c'

abbrev pub ◌>>◌ : {A B : Type 0} → Sql A → Sql B → Sql B
m >> k = m >>= λ u. k

-- A call of the driver; each takes the next fault, and all work when there is none left.
abbrev pub with_fault : List Bool → Sql (Unit {0})
with_fault [] c = (ok tt, c)
with_fault (b ∷ rest) c =
    if b then (err db_failed, record c { faults = rest }) else (ok tt, record c { faults = rest })

unfoldable pub call : Sql (Unit {0})
call c = with_fault c.faults c

-- `Begin`, `Commit` and `Rollback`. A commit that fails stores nothing.
abbrev start_tx : Sql (Unit {0})
start_tx c = (ok tt, record c { working = some c.stored })

abbrev pub begin_tx : Sql (Unit {0})
begin_tx = call >> start_tx

abbrev commit_from : Option Db → Sql (Unit {0})
commit_from none c = (err db_failed, c)
commit_from (some db) c = (ok tt, record c { stored = db; working = none })

abbrev pub commit : Sql (Unit {0})
commit = call >> λ c. commit_from c.working c

abbrev pub rollback : Conn → Conn
rollback c = record c { working = none }

-- A statement, which may refuse its arguments: in the open transaction, and outside of one.
abbrev worked : Result Db → Sql (Unit {0})
worked panic c = (panic, c)
worked (err e) c = (err e, c)
worked (ok db) c = (ok tt, record c { working = some db })

abbrev exec_from : Option Db → (Db → Result Db) → Sql (Unit {0})
exec_from none f c = (err db_failed, c)
exec_from (some db) f c = worked (f db) c

abbrev pub exec_tx : (Db → Result Db) → Sql (Unit {0})
exec_tx f = call >> λ c. exec_from c.working f c

abbrev pub stored_by : Result Db → Sql (Unit {0})
stored_by panic c = (panic, c)
stored_by (err e) c = (err e, c)
stored_by (ok db) c = (ok tt, record c { stored = db })

abbrev pub exec : (Db → Result Db) → Sql (Unit {0})
exec f = call >> λ c. stored_by (f c.stored) c

-- A query reads what is stored.
abbrev pub query : {A : Type 0} → (Db → Result A) → Sql A
query f = call >> λ c. (f c.stored, c)

-- `if err != nil { tx.Rollback(); return err }`
abbrev pub undo : Result (Unit {0}) × Conn → Result (Unit {0}) × Conn
undo (ok u, c) = (ok u, c)
undo (err e, c) = (err e, rollback c)
undo (panic, c) = (panic, c)

abbrev pub or_rollback : Sql (Unit {0}) → Sql (Unit {0})
or_rollback m c = undo (m c)
