-- ===== src/Store/View/Change.antt =====
-- An entry of the map whose status is changed.
use banco.Prelude.{
  String, Bool, true, false, List, [], ◌∷◌, ◌++◌, Option, none, some, ◌≡◌, refl, sym, ap, ◌∙◌, map,
  map-append, All, All-append, if◌then◌else◌, str_eq, eq_iff, inl, inr, Bool-cases,
}
use banco.Store.Rows.{OrderRow, StatusRow, Db}
use banco.Store.Save.{set_row, set_status}
use banco.Store.Query.{join_row, join, first_by_id}
use banco.Store.Matched.{set_row-order_id}
use banco.Store.View.{view, restate, change}

-- The pairs after the update of a status.
abbrev pub set_pair : String → String → String → OrderRow × StatusRow → OrderRow × StatusRow
set_pair id status timestamp (row, s) = (row, set_row id status timestamp s)

join_row-set_status :
    (id status timestamp : String) (row : OrderRow) (statuses : List StatusRow)
    → join_row row (set_status id status timestamp statuses)
      ≡ map (set_pair id status timestamp) (join_row row statuses)
unfolding join_row set_status
join_row-set_status id status timestamp row [] = refl
join_row-set_status id status timestamp row (s ∷ rest) =
    let more = join_row-set_status id status timestamp row rest in
    elim (Bool-cases (str_eq row.id s.order_id)) [
      | inl same ↦
          rw (set_row-order_id id status timestamp s, same)
            (ap (λ ps. (row, set_row id status timestamp s) ∷ ps) more)
      | inr other ↦ rw (set_row-order_id id status timestamp s, other) more
    ]

pub map-join :
    (id status timestamp : String) (rows : List OrderRow) (statuses : List StatusRow)
    → join rows (set_status id status timestamp statuses)
      ≡ map (set_pair id status timestamp) (join rows statuses)
unfolding join
map-join id status timestamp [] statuses = refl
map-join id status timestamp (row ∷ rows) statuses =
    ap (λ ps. ps ++ join rows (set_status id status timestamp statuses))
      (join_row-set_status id status timestamp row statuses)
    ∙ ap (λ ps. map (set_pair id status timestamp) (join_row row statuses) ++ ps)
        (map-join id status timestamp rows statuses)
    ∙ sym (map-append (set_pair id status timestamp) (join_row row statuses) (join rows statuses))

-- The two rows of a pair belong to one order.
abbrev pub Joined : OrderRow × StatusRow → Type 0
Joined (row, s) = row.id ≡ s.order_id

join_row-Joined : (row : OrderRow) (statuses : List StatusRow) → All Joined (join_row row statuses)
unfolding join_row
join_row-Joined row [] = tt
join_row-Joined row (s ∷ rest) = elim (Bool-cases (str_eq row.id s.order_id)) [
  | inl same ↦ rw same ((eq_iff row.id s.order_id).0 same, join_row-Joined row rest)
  | inr other ↦ rw other (join_row-Joined row rest)
]

pub join-Joined :
    (rows : List OrderRow) (statuses : List StatusRow) → All Joined (join rows statuses)
unfolding join
join-Joined [] statuses = tt
join-Joined (row ∷ rows) statuses =
    All-append Joined (join_row row statuses) (join rows statuses) (join_row-Joined row statuses)
      (join-Joined rows statuses)

-- One pair after the update, where it is the one that is found.
restated :
    (b : Bool) (id status timestamp : String) (row : OrderRow) (s : StatusRow)
    → str_eq id s.order_id ≡ b
    → some (row, set_row id status timestamp s)
      ≡ (if b then restate status timestamp (some (row, s)) else some (row, s))
restated true id status timestamp row s h = rw h refl
restated false id status timestamp row s h = rw h refl

nothing : (b : Bool) → ◌≡◌ {A = Option (OrderRow × StatusRow)} none (if b then none else none)
nothing true = refl
nothing false = refl

pub change-pairs :
    (id status timestamp other : String) (ps : List (OrderRow × StatusRow))
    → All Joined ps
    → first_by_id other (map (set_pair id status timestamp) ps)
      ≡ change id status timestamp (λ i. first_by_id i ps) other
unfolding first_by_id
change-pairs id status timestamp other [] h = nothing (str_eq id other)
change-pairs id status timestamp other ((row, s) ∷ ps) (joined, h) =
    elim (Bool-cases (str_eq other row.id)) [
      | inl found ↦
          let is_order : other ≡ s.order_id = (eq_iff other row.id).0 found ∙ joined in
          rw found
            (restated (str_eq id other) id status timestamp row s (ap (str_eq id) (sym is_order)))
      | inr no_match ↦ rw no_match (change-pairs id status timestamp other ps h)
    ]

pub view-change :
    (id status timestamp other : String) (db : Db)
    → view (record db { statuses = set_status id status timestamp db.statuses }) other
      ≡ change id status timestamp (view db) other
unfolding view
view-change id status timestamp other db =
    ap (first_by_id other) (map-join id status timestamp db.orders db.statuses)
    ∙ change-pairs id status timestamp other (join db.orders db.statuses)
        (join-Joined db.orders db.statuses)
