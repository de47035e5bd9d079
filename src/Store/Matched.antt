-- ===== src/Store/Matched.antt =====
-- The two tables of the database stay matched.
use banco.Prelude.{ℕ, String, Bool, List, [], ◌∷◌, ◌++◌, none, ◌≡◌, refl, sym, ap, ◌∙◌}
use banco.Prelude.{◌||◌, ◌&&◌, not, inl, inr, Bool-cases, str_eq, subst, arith}
use banco.Order.{Order}
use banco.Result.{Result, ok, err, panic, ok-injective}
use banco.Store.Rows.{OrderRow, StatusRow, Db, is_status, has_order}
use banco.Store.Sql.{Conn, stored_by}
use banco.Store.Save.{order_row, pending_row, set_row, set_status, has_status, update_status}
use banco.Store.Save.{save_order, update_order_status}
use banco.Store.Atomic.{conn, with_order, IsAtomic, call_rule, save_order-IsAtomic}

-- Every order has a status, and every status belongs to an order.
abbrev pub IsMatched : Db → Type 0
IsMatched db = (id : String) → has_status id db.statuses ≡ has_order id db.orders

has_order-append :
    (id : String) (rows : List OrderRow) (row : OrderRow)
    → has_order id (rows ++ (row ∷ [])) ≡ (has_order id rows || str_eq id row.id)
unfolding has_order
has_order-append id [] row = ground arith
has_order-append id (r ∷ rows) row = rw (has_order-append id rows row) (ground arith)

has_status-append :
    (id : String) (rows : List StatusRow) (row : StatusRow)
    → has_status id (rows ++ (row ∷ [])) ≡ (has_status id rows || str_eq id row.order_id)
unfolding has_status
has_status-append id [] row = ground arith
has_status-append id (r ∷ rows) row = rw (has_status-append id rows row) (ground arith)

pub set_row-order_id :
    (id status timestamp : String) (row : StatusRow)
    → (set_row id status timestamp row).order_id ≡ row.order_id
set_row-order_id id status timestamp row = ground arith

has_status-set_status :
    (id' id status timestamp : String) (rows : List StatusRow)
    → has_status id' (set_status id status timestamp rows) ≡ has_status id' rows
unfolding has_status set_status
has_status-set_status id' id status timestamp [] = refl
has_status-set_status id' id status timestamp (row ∷ rows) =
    rw
      (set_row-order_id id status timestamp row, has_status-set_status id' id status timestamp rows)
      refl

module _ (format_time : ℕ → String) where
  with_order-IsMatched :
      (order : Order) (db : Db) → IsMatched db → IsMatched (with_order format_time order db)
  with_order-IsMatched order db m id =
      has_status-append id db.statuses (pending_row (format_time order.timestamp) order)
      ∙ ap (λ b. b || str_eq id order.id) (m id)
      ∙ sym (has_order-append id db.orders (order_row (format_time order.timestamp) order))

  saved-IsMatched :
      (order : Order) (db : Db) (out : Result (Unit {0}) × Conn)
      → IsMatched db
      → IsAtomic format_time order db out
      → IsMatched out.1.stored
  saved-IsMatched order db out m (closed, inl (r, same, fine)) =
      subst IsMatched (sym same) (with_order-IsMatched order db m)
  saved-IsMatched order db out m (closed, inr (r, same)) = subst IsMatched (sym same) m

  set_status-IsMatched :
      (id status timestamp : String) (db : Db)
      → IsMatched db
      → IsMatched (record db { statuses = set_status id status timestamp db.statuses })
  set_status-IsMatched id status timestamp db m id' =
      has_status-set_status id' id status timestamp db.statuses ∙ m id'

  stored_by-IsMatched :
      (r : Result Db) (c : Conn)
      → IsMatched c.stored
      → ((db : Db) → r ≡ ok db → IsMatched db)
      → IsMatched (stored_by r c).1.stored
  stored_by-IsMatched (ok db) c m h = h db refl
  stored_by-IsMatched (err e) c m h = m
  stored_by-IsMatched panic c m h = m

  update_status-IsMatched :
      (id status timestamp : String) (db db' : Db)
      → IsMatched db
      → update_status id status timestamp db ≡ ok db'
      → IsMatched db'
  update_status-IsMatched id status timestamp db db' m e =
      elim (Bool-cases (has_status id db.statuses && not (is_status status))) [
        | inl refused ↦ absurd (cc (rw refused at e))
        | inr fine ↦
            subst IsMatched (ok-injective (rw fine at e))
              (set_status-IsMatched id status timestamp db m)
      ]

  -- From a database in which every order has a status and every status belongs to an order, saveOrder
  -- and updateOrderStatus leave such a database, whichever calls of the driver fail.
  pub store-IsMatched :
      (format_local : ℕ → String) (order : Order) (id status : String) (now : ℕ) (db : Db)
      (faults : List Bool)
      → IsMatched db
      → IsMatched (save_order format_time order (conn db none faults)).1.stored
        × IsMatched (update_order_status format_local id status now (conn db none faults)).1.stored
  unfolding update_order_status
  store-IsMatched format_local order id status now db faults m = (
    saved-IsMatched order db (save_order format_time order (conn db none faults)) m
        (save_order-IsAtomic format_time order db faults),
    call_rule (λ out. IsMatched out.1.stored) _ (conn db none faults) (λ rest. m)
        (λ fs₁.
          call_rule (λ out. IsMatched out.1.stored) _ (conn db none fs₁) (λ rest. m)
            (λ fs₂.
              stored_by-IsMatched (update_status id status (format_local now) db) (conn db none fs₂)
                m (λ db' e. update_status-IsMatched id status (format_local now) db db' m e))),
  )
