-- ===== src/Store/Settled.antt =====
-- Orders that are settled are not fetched again.
use banco.Prelude.{
  ℕ, String, Bool, false, List, [], ◌∷◌, ◌++◌, Option, ◌≡◌, sym, ap, ◌∙◌, ◌||◌, inl, inr,
  Bool-cases, str_eq, eq_iff, subst, All,
}
use banco.Order.{Order}
use banco.Result.{ok, >>=_ok, ok-injective, or_error, bad_timestamp}
use banco.Store.Rows.{OrderRow, StatusRow, Db}
use banco.Store.Save.{set_row, set_status}
use banco.Store.Matched.{set_row-order_id}
use banco.Store.Query.{
  join_row, join, to_fulfill, order_of_row, orders_of_rows, find_orders_to_fulfill,
}

-- The status is not one that the watcher looks for.
abbrev pub is_watched : String → Bool
is_watched status = str_eq status "Pending" || str_eq status "Funded"

-- The identifier is not that of the row.
abbrev Other : String → OrderRow → Type 0
Other id row = str_eq id row.id ≡ false

module _ (id status timestamp : String) (unwatched : is_watched status ≡ false) where
  kept :
      (row : OrderRow) (s : StatusRow) (rest : List (OrderRow × StatusRow))
      → row.id ≡ s.order_id
      → All (Other id) (to_fulfill rest)
      → All (Other id) (to_fulfill ((row, set_row id status timestamp s) ∷ rest))
  unfolding to_fulfill
  kept row s rest same h = elim (Bool-cases (str_eq id s.order_id)) [
    | inl mine ↦ rw (mine, unwatched) h
    | inr other ↦ elim (Bool-cases (is_watched s.status)) [
      | inl watched ↦ rw (other, watched) (subst (λ i. str_eq id i ≡ false) (sym same) other, h)
      | inr not_watched ↦ rw (other, not_watched) h
    ]
  ]

  row_settled :
      (row : OrderRow) (statuses : List StatusRow) (rest : List (OrderRow × StatusRow))
      → All (Other id) (to_fulfill rest)
      → All (Other id) (to_fulfill (join_row row (set_status id status timestamp statuses) ++ rest))
  unfolding join_row set_status
  row_settled row [] rest h = h
  row_settled row (s ∷ ss) rest h =
      elim (Bool-cases (str_eq row.id (set_row id status timestamp s).order_id)) [
        | inl same ↦ rw same (
            kept row s _ ((eq_iff _ _).0 same ∙ set_row-order_id id status timestamp s)
              (row_settled row ss rest h))
        | inr other ↦ rw other (row_settled row ss rest h)
      ]

  join_settled :
      (rows : List OrderRow) (statuses : List StatusRow)
      → All (Other id) (to_fulfill (join rows (set_status id status timestamp statuses)))
  unfolding join
  join_settled [] statuses = unfold to_fulfill in tt
  join_settled (row ∷ rows) statuses =
      row_settled row statuses (join rows (set_status id status timestamp statuses))
        (join_settled rows statuses)

module _ (parse_time : String → Option ℕ) where
  order_of_row-id :
      (row : OrderRow) (o : Order) → order_of_row parse_time row ≡ ok o → o.id ≡ row.id
  unfolding order_of_row
  order_of_row-id row o e =
      let (time, e₁, e₂) = >>=_ok (or_error (parse_time row.timestamp) bad_timestamp) _ e in
      ap (λ x. x.id) (sym (ok-injective e₂))

  orders_of_rows-Other :
      (id : String) (rows : List OrderRow) (os : List Order)
      → All (Other id) rows
      → orders_of_rows parse_time rows ≡ ok os
      → All (λ o. str_eq id o.id ≡ false) os
  unfolding orders_of_rows
  orders_of_rows-Other id [] os h e = subst (All (λ o. str_eq id o.id ≡ false)) (ok-injective e) tt
  orders_of_rows-Other id (row ∷ rows) os (h, hs) e =
      let (o, e₁, f₁) = >>=_ok (order_of_row parse_time row) _ e in
      let (rest, e₂, f₂) = >>=_ok (orders_of_rows parse_time rows) _ f₁ in
      subst (All (λ o. str_eq id o.id ≡ false)) (ok-injective f₂) (
        subst (λ i. str_eq id i ≡ false) (sym (order_of_row-id row o e₁)) h,
        orders_of_rows-Other id rows rest hs e₂,
      )

  -- After an update of an order's status to one that is neither Pending nor Funded, the orders that
  -- fetchOrdersToFulfill finds in what is stored do not have its identifier.
  pub set_status-unfetched :
      (id status timestamp : String) (db : Db) (os : List Order)
      → is_watched status ≡ false
      → find_orders_to_fulfill parse_time
          (record db { statuses = set_status id status timestamp db.statuses })
        ≡ ok os
      → All (λ o. str_eq id o.id ≡ false) os
  unfolding find_orders_to_fulfill
  set_status-unfetched id status timestamp db os unwatched e =
      orders_of_rows-Other id _ os
        (join_settled id status timestamp unwatched db.orders db.statuses) e
