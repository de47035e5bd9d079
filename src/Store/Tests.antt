-- ===== src/Store/Tests.antt =====
-- Runs of db.go on a database with one order.
use banco.Prelude.{ℕ, String, true, false, [], ◌∷◌, Option, none, some, ◌≡◌, refl, str_eq, All}
use banco.Offer.Funding.{liquid}
use banco.Order.{Order}
use banco.Result.{ok, err, db_failed, ◌>>=◌, or_error, no_rows}
use banco.Store.View.{view, change}
use banco.Store.View.Refines.{store_view}
use banco.Store.Query.{with_status}
use banco.Store.Rows.{Db, has_order}
use banco.Store.Sql.{call}
use banco.Store.Save.{
  has_status, is_refused, order_row, save_order, update_order_status, set_status, pending_row,
}
use banco.Store.Query.{
  fetch_order_by_id, find_orders_to_fulfill, join, join_row, to_fulfill, orders_of_rows,
  order_of_row,
}
use banco.Store.Atomic.{conn, IsAtomic, save_order-IsAtomic}
use banco.Store.Matched.{IsMatched, store-IsMatched}
use banco.Store.Settled.{set_status-unfetched}
use banco.Store.RoundTrip.{reread, fetch_order_by_id-save_order}

-- Times that are written as one text and read as the epoch.
abbrev format_time : ℕ → String
format_time t = "1970-01-01 00:00:00"

abbrev parse_time : String → Option ℕ
parse_time text = some 0

abbrev an_order : Order
an_order = record {
  id = "1";
  timestamp = 5;
  address = "address";
  network = some liquid;
  fulfill_script = 1 ∷ [];
  refund_script = 2 ∷ [];
  trader_script = 3 ∷ [];
  input = record { asset = "a"; amount = 10 };
  output = record { asset = "b"; amount = 20 };
}

abbrev empty : Db
empty = record { orders = []; statuses = [] }

empty-IsMatched : IsMatched empty
unfolding has_order has_status
empty-IsMatched id = refl

fine : is_refused (order_row (format_time 5) an_order) empty ≡ false
unfolding has_order
fine = refl

-- The fifth call fails.
cut :
    (save_order format_time an_order
      (conn empty none (false ∷ false ∷ false ∷ false ∷ true ∷ []))).0
    ≡ err db_failed
unfolding save_order call has_order
cut = refl

save_order-IsAtomic_example :
    IsAtomic format_time an_order empty (
      save_order format_time an_order (conn empty none (false ∷ false ∷ false ∷ false ∷ true ∷ [])))
save_order-IsAtomic_example =
    save_order-IsAtomic format_time an_order empty (false ∷ false ∷ false ∷ false ∷ true ∷ [])

store-IsMatched_example :
    IsMatched (save_order format_time an_order (conn empty none [])).1.stored
    × IsMatched (update_order_status format_time "1" "Funded" 7 (conn empty none [])).1.stored
store-IsMatched_example =
    store-IsMatched format_time format_time an_order "1" "Funded" 7 empty [] empty-IsMatched

fetch_order_by_id-save_order_example :
    let (r, c) = save_order format_time an_order (conn empty none []) in
    (r ≡ ok tt)
    × ((fetch_order_by_id parse_time "1" c).0
        ≡ ok (reread format_time parse_time an_order 0, "Pending"))
fetch_order_by_id-save_order_example =
    fetch_order_by_id-save_order format_time parse_time an_order empty 0 empty-IsMatched fine refl

abbrev second : Order
second = record an_order { id = "2"; network = none; timestamp = 0 }

-- Two orders that are pending.
abbrev two : Db
two = record {
  orders = order_row (format_time 5) an_order ∷ order_row (format_time 0) second ∷ [];
  statuses = pending_row (format_time 5) an_order ∷ pending_row (format_time 0) second ∷ [];
}

second_left :
    find_orders_to_fulfill parse_time
      (record two { statuses = set_status "1" "Fulfilled" "" two.statuses })
    ≡ ok (second ∷ [])
unfolding find_orders_to_fulfill orders_of_rows order_of_row to_fulfill join join_row set_status
second_left = refl

set_status-unfetched_example : All (λ o. str_eq "1" o.id ≡ false) (second ∷ [])
set_status-unfetched_example =
    set_status-unfetched parse_time "1" "Fulfilled" "" two (second ∷ []) refl second_left

store_view_example :
    (view (save_order format_time an_order (conn empty none [])).1.stored "1"
      ≡ some (order_row (format_time 5) an_order, pending_row (format_time 5) an_order))
    × (view (update_order_status format_time "1" "Funded" 7 (conn empty none [])).1.stored "1"
        ≡ change "1" "Funded" (format_time 7) (view empty) "1")
    × (fetch_order_by_id parse_time "1" (conn empty none [])
        ≡ (or_error (view empty "1") no_rows >>= with_status parse_time, conn empty none []))
store_view_example =
    store_view format_time parse_time empty an_order "1" "Funded" "1" 7 empty-IsMatched fine refl
