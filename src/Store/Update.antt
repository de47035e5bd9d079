-- ===== src/Store/Update.antt =====
-- An update of a status when no call of the driver fails.
use banco.Prelude.{ℕ, String, Bool, true, false, [], none, ◌≡◌, refl, ◌&&◌, if◌then◌else◌}
use banco.Store.Rows.{Db, is_status}
use banco.Store.Sql.{call}
use banco.Store.Atomic.{conn}
use banco.Store.Save.{set_status, has_status, update_order_status}
use banco.Result.{ok, err, db_failed}

-- What is stored after the update of a status.
abbrev pub after_status : String → String → String → Db → Db
after_status id status timestamp db = record db {
  statuses = set_status id status timestamp db.statuses;
}

allowed : (b : Bool) (db : Db) → (if b && false then err db_failed else ok db) ≡ ok db
allowed true db = refl
allowed false db = refl

pub updated :
    (format_time : ℕ → String) (id status : String) (now : ℕ) (db : Db)
    → is_status status ≡ true
    → update_order_status format_time id status now (conn db none [])
      ≡ (ok tt, conn (after_status id status (format_time now) db) none [])
unfolding update_order_status call
updated format_time id status now db known =
    rw (known, allowed (has_status id db.statuses) (after_status id status (format_time now) db))
      refl
