-- ===== src/Store/View.antt =====
-- The store as a map from the identifiers of the orders to a row and a status.
pub mod Put
pub mod Change
pub mod Refines
use banco.Prelude.{
  ℕ, String, Bool, true, false, List, [], ◌∷◌, ◌++◌, Option, none, some, ◌≡◌, refl, sym, ap, ◌∙◌,
  map, map-append, All, All-append, if◌then◌else◌, str_eq, eq_iff, inl, inr, Bool-cases,
}
use banco.Order.{Order}
use banco.Result.{◌>>=◌, or_error, no_rows}
use banco.Store.Rows.{OrderRow, StatusRow, Db, is_status, has_order}
use banco.Store.Sql.{call}
use banco.Store.Save.{order_row, pending_row, set_row, set_status, is_refused}
use banco.Store.Save.{save_order, update_order_status}
use banco.Store.Query.{
  join_row, join, first_by_id, with_status, find_order_by_id, fetch_order_by_id,
}
use banco.Store.Atomic.{conn}
use banco.Store.Matched.{IsMatched, set_row-order_id}
use banco.Store.Update.{updated}
use banco.Store.RoundTrip.{
  first_by_id-skip, or_false, first_by_id-join, first_by_id-one, join_row-other, saves,
}

abbrev pub View : Type 0
View = String → Option (OrderRow × StatusRow)

-- The row and the status that are found for an identifier.
unfoldable pub view : Db → View
view db id = first_by_id id (join db.orders db.statuses)

-- The abstract operations: an entry is set, or the status of one is changed.
abbrev pub put : OrderRow → StatusRow → View → View
put row s m id = if str_eq id row.id then some (row, s) else m id

abbrev pub restate : String → String → Option (OrderRow × StatusRow) → Option (OrderRow × StatusRow)
restate status timestamp none = none
restate status timestamp (some (row, s)) =
    some (row, record { order_id = s.order_id; status = status; timestamp = timestamp })

abbrev pub change : String → String → String → View → View
change id status timestamp m other =
    if str_eq id other then restate status timestamp (m other) else m other
