-- ===== src/Store/RoundTrip.antt =====
-- An order that is saved is found again.
use banco.Prelude.{
  ℕ, String, Bool, false, List, [], ◌∷◌, ◌++◌, append-nil, Option, none, some, ◌≡◌, refl, ap, ◌∙◌,
}
use banco.Prelude.{◌||◌, inl, inr, Bool-cases, str_eq, eq_iff, arith}
use banco.Order.{Order}
use banco.Result.{ok}
use banco.Store.Rows.{OrderRow, StatusRow, Db, has_order}
use banco.Store.Sql.{call}
use banco.Store.Save.{order_row, pending_row, has_status, is_refused, save_order}
use banco.Store.Query.{join_row, join, first_by_id, order_of_row, with_status, find_order_by_id}
use banco.Store.Query.{fetch_order_by_id}
use banco.Store.Atomic.{conn, with_order}
use banco.Store.Matched.{IsMatched}

pub join_row-other :
    (row : OrderRow) (statuses : List StatusRow) (s : StatusRow)
    → has_status row.id statuses ≡ false
    → s.order_id ≡ row.id
    → join_row row (statuses ++ (s ∷ [])) ≡ (row, s) ∷ []
unfolding join_row has_status
join_row-other row [] s h e = rw (e, (eq_iff row.id row.id).1 refl) refl
join_row-other row (t ∷ rest) s h e = elim (Bool-cases (str_eq row.id t.order_id)) [
  | inl same ↦ absurd (cc (rw same at h))
  | inr other ↦ rw other (join_row-other row rest s (rw other at h) e)
]

pub first_by_id-skip :
    (id : String) (row : OrderRow) (statuses : List StatusRow) (rest : List (OrderRow × StatusRow))
    → str_eq id row.id ≡ false
    → first_by_id id (join_row row statuses ++ rest) ≡ first_by_id id rest
unfolding join_row first_by_id
first_by_id-skip id row [] rest h = refl
first_by_id-skip id row (s ∷ ss) rest h = elim (Bool-cases (str_eq row.id s.order_id)) [
  | inl same ↦ rw (same, h) (first_by_id-skip id row ss rest h)
  | inr other ↦ rw other (first_by_id-skip id row ss rest h)
]

pub or_false : (a b : Bool) → (a || b) ≡ false → (a ≡ false) × (b ≡ false)
or_false a b h = ground arith

-- A new order behind the others is the one that is found.
pub first_by_id-join :
    (rows : List OrderRow) (row : OrderRow) (statuses : List StatusRow)
    → has_order row.id rows ≡ false
    → first_by_id row.id (join (rows ++ (row ∷ [])) statuses)
      ≡ first_by_id row.id (join_row row statuses)
unfolding has_order join
first_by_id-join [] row statuses h = ap (first_by_id row.id) (append-nil (join_row row statuses))
first_by_id-join (r ∷ rows) row statuses h =
    let (other, rest) = or_false (str_eq row.id r.id) (has_order row.id rows) h in
    first_by_id-skip row.id r statuses (join (rows ++ (row ∷ [])) statuses) other
    ∙ first_by_id-join rows row statuses rest

pub first_by_id-one :
    (row : OrderRow) (s : StatusRow) → first_by_id row.id ((row, s) ∷ []) ≡ some (row, s)
unfolding first_by_id
first_by_id-one row s = rw ((eq_iff row.id row.id).1 refl) refl

module _ (format_time : ℕ → String) (parse_time : String → Option ℕ) where
  -- The order as it is read again: without a network, and with the time that its text has.
  abbrev pub reread : Order → ℕ → Order
  reread order time = record order { network = none; timestamp = time }

  pub find_new :
      (order : Order) (db : Db) (time : ℕ)
      → IsMatched db
      → is_refused (order_row (format_time order.timestamp) order) db ≡ false
      → parse_time (format_time order.timestamp) ≡ some time
      → find_order_by_id parse_time order.id (with_order format_time order db)
        ≡ ok (reread order time, "Pending")
  unfolding find_order_by_id with_status order_of_row
  find_new order db time m fine parsed =
      let row : OrderRow = order_row (format_time order.timestamp) order in
      let s : StatusRow = pending_row (format_time order.timestamp) order in
      let fresh : has_order order.id db.orders ≡ false = (or_false _ _ (or_false _ _ fine).1).1 in
      let found =
        first_by_id-join db.orders row (db.statuses ++ (s ∷ [])) fresh
        ∙ ap (first_by_id row.id) (join_row-other row db.statuses s (m order.id ∙ fresh) refl)
        ∙ first_by_id-one row s in
      rw (found, parsed) refl

  pub saves :
      (order : Order) (db : Db)
      → is_refused (order_row (format_time order.timestamp) order) db ≡ false
      → save_order format_time order (conn db none [])
        ≡ (ok tt, conn (with_order format_time order db) none [])
  unfolding save_order call
  saves order db fine = rw fine refl

  -- When no call of the driver fails, an order that is not stored yet and whose amounts are below
  -- 2 ^ 63 is saved, and fetchOrderByID returns it, with the status Pending, with the time that the
  -- text of its time stands for, and without its network. The database is one in which every order
  -- has a status and every status belongs to an order.
  pub fetch_order_by_id-save_order :
      (order : Order) (db : Db) (time : ℕ)
      → IsMatched db
      → is_refused (order_row (format_time order.timestamp) order) db ≡ false
      → parse_time (format_time order.timestamp) ≡ some time
      → let (r, c) = save_order format_time order (conn db none []) in
        (r ≡ ok tt)
        × ((fetch_order_by_id parse_time order.id c).0 ≡ ok (reread order time, "Pending"))
  unfolding fetch_order_by_id call
  fetch_order_by_id-save_order order db time m fine parsed =
      rw (saves order db fine) (refl, find_new order db time m fine parsed)
