-- ===== src/Store/View/Put.antt =====
-- An entry of the map that is set.
use banco.Prelude.{
  String, false, List, [], ◌∷◌, ◌++◌, some, ◌≡◌, refl, sym, ap, ◌∙◌, if◌then◌else◌, str_eq, eq_iff,
  inl, inr, Bool-cases,
}
use banco.Store.Rows.{OrderRow, StatusRow, Db, has_order}
use banco.Store.Query.{join_row, join, first_by_id}
use banco.Store.Matched.{IsMatched}
use banco.Store.RoundTrip.{first_by_id-skip, first_by_id-join, first_by_id-one, join_row-other}
use banco.Store.View.{view, put}

-- A status of another order is not joined.
join_row-end :
    (row : OrderRow) (statuses : List StatusRow) (s : StatusRow)
    → str_eq row.id s.order_id ≡ false
    → join_row row (statuses ++ (s ∷ [])) ≡ join_row row statuses
unfolding join_row
join_row-end row [] s h = rw h refl
join_row-end row (t ∷ rest) s h =
    ap (λ more. if str_eq row.id t.order_id then (row, t) ∷ more else more)
      (join_row-end row rest s h)

-- What comes behind the same joined rows.
first_by_id-behind :
    (id : String) (xs ys ys' : List (OrderRow × StatusRow))
    → first_by_id id ys ≡ first_by_id id ys'
    → first_by_id id (xs ++ ys) ≡ first_by_id id (xs ++ ys')
unfolding first_by_id
first_by_id-behind id [] ys ys' h = h
first_by_id-behind id ((row, s) ∷ xs) ys ys' h =
    ap (λ r. if str_eq id row.id then some (row, s) else r) (first_by_id-behind id xs ys ys' h)

-- A new order behind the others is not found for another identifier.
first_by_id-other :
    (id : String) (rows : List OrderRow) (row : OrderRow) (statuses : List StatusRow)
    (s : StatusRow)
    → str_eq id row.id ≡ false
    → s.order_id ≡ row.id
    → first_by_id id (join (rows ++ (row ∷ [])) (statuses ++ (s ∷ [])))
      ≡ first_by_id id (join rows statuses)
unfolding join
first_by_id-other id [] row statuses s other same =
    first_by_id-skip id row (statuses ++ (s ∷ [])) [] other
first_by_id-other id (r ∷ rows) row statuses s other same =
    let more = first_by_id-other id rows row statuses s other same in
    elim (Bool-cases (str_eq id r.id)) [
      | inl named ↦
          let apart : str_eq r.id s.order_id ≡ false =
            ap (str_eq r.id) same
            ∙ ap (λ i. str_eq i row.id) (sym ((eq_iff id r.id).0 named))
            ∙ other in
          ap (λ xs. first_by_id id (xs ++ join (rows ++ (row ∷ [])) (statuses ++ (s ∷ []))))
            (join_row-end r statuses s apart)
          ∙ first_by_id-behind id (join_row r statuses) _ _ more
      | inr differs ↦
          first_by_id-skip id r (statuses ++ (s ∷ [])) _ differs
          ∙ more
          ∙ sym (first_by_id-skip id r statuses (join rows statuses) differs)
    ]

pub view-put :
    (row : OrderRow) (s : StatusRow) (db : Db) (id : String)
    → IsMatched db
    → has_order row.id db.orders ≡ false
    → s.order_id ≡ row.id
    → view (record { orders = db.orders ++ (row ∷ []); statuses = db.statuses ++ (s ∷ []) }) id
      ≡ put row s (view db) id
unfolding view
view-put row s db id m fresh same = elim (Bool-cases (str_eq id row.id)) [
  | inl named ↦
      let is_row : id ≡ row.id = (eq_iff id row.id).0 named in
      rw (named, is_row)
        (first_by_id-join db.orders row (db.statuses ++ (s ∷ [])) fresh
          ∙ ap (first_by_id row.id) (join_row-other row db.statuses s (m row.id ∙ fresh) same)
          ∙ first_by_id-one row s)
  | inr other ↦ rw other (first_by_id-other id db.orders row db.statuses s other same)
]
