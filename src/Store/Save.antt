-- ===== src/Store/Save.antt =====
-- saveOrder and updateOrderStatus of db.go.
use banco.Prelude.{
  ℕ, ◌^◌, Bool, ◌&&◌, not, String, List, [], ◌∷◌, ◌++◌, leb, ◌||◌, if◌then◌else◌, str_eq, map,
}
use banco.Order.{Order}
use banco.Result.{Result, ok, err, db_failed}
use banco.Store.Rows.{OrderRow, StatusRow, Db, is_status, has_order}
use banco.Store.Sql.{Sql, ◌>>◌, call, begin_tx, commit, exec_tx, exec, or_rollback}

abbrev pub order_row : String → Order → OrderRow
order_row timestamp order = record {
  id = order.id;
  timestamp = timestamp;
  fulfill_script = order.fulfill_script;
  refund_script = order.refund_script;
  trader_script = order.trader_script;
  input_asset = order.input.asset;
  input_amount = order.input.amount;
  output_asset = order.output.asset;
  output_amount = order.output.amount;
  address = order.address;
}

abbrev pub pending_row : String → Order → StatusRow
pending_row timestamp order = record {
  order_id = order.id;
  status = "Pending";
  timestamp = timestamp;
}

-- database/sql refuses a uint64 whose high bit is set; the key is to be new.
abbrev pub is_refused : OrderRow → Db → Bool
is_refused row db =
    leb (2 ^ 63) row.input_amount || (leb (2 ^ 63) row.output_amount || has_order row.id db.orders)

abbrev pub insert_order : OrderRow → Db → Result Db
insert_order row db =
    if is_refused row db then err db_failed else ok (record db { orders = db.orders ++ (row ∷ []) })

abbrev pub insert_status : StatusRow → Db → Result Db
insert_status row db = ok (record db { statuses = db.statuses ++ (row ∷ []) })

-- UPDATE order_statuses SET status, timestamp WHERE order_id
abbrev pub set_row : String → String → String → StatusRow → StatusRow
set_row id status timestamp row =
    if str_eq id row.order_id
    then record { order_id = row.order_id; status = status; timestamp = timestamp }
    else row

unfoldable pub set_status : String → String → String → List StatusRow → List StatusRow
set_status id status timestamp rows = map (set_row id status timestamp) rows

-- The CHECK applies to the rows that are updated: with none of them any text passes.
unfoldable pub has_status : String → List StatusRow → Bool
has_status id [] = Bool.false
has_status id (row ∷ rows) = str_eq id row.order_id || has_status id rows

abbrev pub update_status : String → String → String → Db → Result Db
update_status id status timestamp db =
    if has_status id db.statuses && not (is_status status)
    then err db_failed
    else ok (record db { statuses = set_status id status timestamp db.statuses })

-- The format of times in UTC is of the package time.
module _ (format_time : ℕ → String) where
  -- `saveOrder`
  unfoldable pub save_order : Order → Sql (Unit {0})
  save_order order =
      let timestamp = format_time order.timestamp in
      call
      >> begin_tx
      >> or_rollback call
      >> or_rollback (exec_tx (insert_order (order_row timestamp order)))
      >> or_rollback call
      >> or_rollback (exec_tx (insert_status (pending_row timestamp order)))
      >> or_rollback commit

-- `updateOrderStatus` at a time, which is written in the local time zone, and not in UTC as in saveOrder
unfoldable pub update_order_status : (ℕ → String) → String → String → ℕ → Sql (Unit {0})
update_order_status format_local id status now =
    call >> exec (update_status id status (format_local now))
