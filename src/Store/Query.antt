-- ===== src/Store/Query.antt =====
-- The queries of db.go.
use banco.Prelude.{ℕ, String, List, [], ◌∷◌, ◌++◌, Option, none, some, ◌||◌, if◌then◌else◌, str_eq}
use banco.Order.{Order}
use banco.Result.{Result, ok, ◌>>=◌, or_error, no_rows, bad_timestamp}
use banco.Store.Rows.{OrderRow, StatusRow, Db}
use banco.Store.Sql.{Sql, ◌>>◌, call, query}

-- JOIN order_statuses ON o.id = s.order_id
unfoldable pub join_row : OrderRow → List StatusRow → List (OrderRow × StatusRow)
join_row row [] = []
join_row row (s ∷ rest) =
    if str_eq row.id s.order_id then (row, s) ∷ join_row row rest else join_row row rest

unfoldable pub join : List OrderRow → List StatusRow → List (OrderRow × StatusRow)
unfolding join_row
join [] statuses = []
join (row ∷ rows) statuses = join_row row statuses ++ join rows statuses

-- The first row with the identifier, as `QueryRow` and `Scan` take it.
unfoldable pub first_by_id : String → List (OrderRow × StatusRow) → Option (OrderRow × StatusRow)
first_by_id id [] = none
first_by_id id ((row, s) ∷ rest) = if str_eq id row.id then some (row, s) else first_by_id id rest

unfoldable pub first_by_address : String → List OrderRow → Option String
first_by_address address [] = none
first_by_address address (row ∷ rest) =
    if str_eq row.address address then some row.id else first_by_address address rest

-- WHERE os.status = 'Pending' OR os.status = 'Funded'
unfoldable pub to_fulfill : List (OrderRow × StatusRow) → List OrderRow
to_fulfill [] = []
to_fulfill ((row, s) ∷ rest) =
    if str_eq s.status "Pending" || str_eq s.status "Funded"
    then row ∷ to_fulfill rest
    else to_fulfill rest

module _ (parse_time : String → Option ℕ) where
  -- The order of a row: the network is not stored, and is nil.
  unfoldable pub order_of_row : OrderRow → Result Order
  order_of_row row = do
    timestamp ← or_error (parse_time row.timestamp) bad_timestamp
    ok (record {
      id = row.id;
      timestamp = timestamp;
      address = row.address;
      network = none;
      fulfill_script = row.fulfill_script;
      refund_script = row.refund_script;
      trader_script = row.trader_script;
      input = record { asset = row.input_asset; amount = row.input_amount };
      output = record { asset = row.output_asset; amount = row.output_amount };
    })

  -- The loop over the rows ends at the first timestamp that is refused.
  unfoldable pub orders_of_rows : List OrderRow → Result (List Order)
  unfolding order_of_row
  orders_of_rows [] = ok []
  orders_of_rows (row ∷ rows) = do
    order ← order_of_row row
    rest ← orders_of_rows rows
    ok (order ∷ rest)

  unfoldable pub with_status : OrderRow × StatusRow → Result (Order × String)
  with_status (row, s) = do order ← order_of_row row; ok (order, s.status)

  unfoldable pub find_order_by_id : String → Db → Result (Order × String)
  unfolding with_status
  find_order_by_id id db =
      or_error (first_by_id id (join db.orders db.statuses)) no_rows >>= with_status

  -- `fetchOrderByID`: the database is opened, then queried.
  unfoldable pub fetch_order_by_id : String → Sql (Order × String)
  fetch_order_by_id id = call >> query (find_order_by_id id)

  unfoldable pub find_orders_to_fulfill : Db → Result (List Order)
  find_orders_to_fulfill db = orders_of_rows (to_fulfill (join db.orders db.statuses))

  -- `fetchOrdersToFulfill`
  unfoldable pub fetch_orders_to_fulfill : Sql (List Order)
  fetch_orders_to_fulfill = call >> query find_orders_to_fulfill

unfoldable pub find_order_id_by_address : String → Db → Result String
find_order_id_by_address address db = or_error (first_by_address address db.orders) no_rows

-- `fetchOrderIDByAddress`
unfoldable pub fetch_order_id_by_address : String → Sql String
fetch_order_id_by_address address = call >> query (find_order_id_by_address address)
