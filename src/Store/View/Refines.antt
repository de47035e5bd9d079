-- ===== src/Store/View/Refines.antt =====
-- The functions of db.go on the map that the tables stand for.
use banco.Prelude.{ℕ, String, true, false, [], Option, none, ◌≡◌, refl, ap, ◌∙◌}
use banco.Order.{Order}
use banco.Result.{◌>>=◌, or_error, no_rows}
use banco.Store.Rows.{OrderRow, Db, is_status, has_order}
use banco.Store.Sql.{call}
use banco.Store.Save.{order_row, pending_row, is_refused}
use banco.Store.Save.{save_order, update_order_status}
use banco.Store.Query.{with_status, find_order_by_id, fetch_order_by_id}
use banco.Store.Atomic.{conn}
use banco.Store.Matched.{IsMatched}
use banco.Store.Update.{updated}
use banco.Store.RoundTrip.{or_false, saves}
use banco.Store.View.{view, put, change}
use banco.Store.View.Put.{view-put}
use banco.Store.View.Change.{view-change}

module _ (format_time : ℕ → String) (parse_time : String → Option ℕ) where
  -- In a database in which every order has a status and every status belongs to an order, and when no
  -- call of the driver fails, the functions of db.go do to the map from identifiers to rows what their
  -- names say: saveOrder of an order that is not refused sets the entry of its identifier, with the
  -- status Pending, and no other; updateOrderStatus to a known status changes the status of the entry
  -- of its identifier, if there is one, and of no other; fetchOrderByID reads the entry and changes
  -- nothing.
  pub store_view :
      (db : Db) (order : Order) (id status other : String) (now : ℕ)
      → IsMatched db
      → is_refused (order_row (format_time order.timestamp) order) db ≡ false
      → is_status status ≡ true
      → (view (save_order format_time order (conn db none [])).1.stored other
          ≡ put
              (order_row (format_time order.timestamp) order)
              (pending_row (format_time order.timestamp) order)
              (view db)
              other)
        × (view (update_order_status format_time id status now (conn db none [])).1.stored other
            ≡ change id status (format_time now) (view db) other)
        × (fetch_order_by_id parse_time id (conn db none [])
            ≡ (or_error (view db id) no_rows >>= with_status parse_time, conn db none []))
  unfolding fetch_order_by_id find_order_by_id call view
  store_view db order id status other now m fine known =
      let fresh : has_order order.id db.orders ≡ false = (or_false _ _ (or_false _ _ fine).1).1 in
      let row : OrderRow = order_row (format_time order.timestamp) order in
      (
        ap (λ r. view r.1.stored other) (saves format_time parse_time order db fine)
            ∙ view-put row (pending_row (format_time order.timestamp) order) db other m fresh refl,
        ap (λ r. view r.1.stored other) (updated format_time id status now db known)
            ∙ view-change id status (format_time now) other db,
        refl,
      )
