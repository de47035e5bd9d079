-- ===== src/Store/Rows.antt =====
-- The tables of db.go.
use banco.Prelude.{ℕ, String, Bool, List, [], ◌∷◌, ◌||◌, str_eq}

-- `OrderAndStatusRow` without the status of the joined row.
pub record OrderRow : Type 0 where
  pub id : String
  pub timestamp : String
  pub fulfill_script : List ℕ
  pub refund_script : List ℕ
  pub trader_script : List ℕ
  pub input_asset : String
  pub input_amount : ℕ
  pub output_asset : String
  pub output_amount : ℕ
  pub address : String

-- The key of a status row and its transaction hash, which no statement names, are left out.
pub record StatusRow : Type 0 where
  pub order_id : String
  pub status : String
  pub timestamp : String

pub record Db : Type 0 where
  pub orders : List OrderRow
  pub statuses : List StatusRow

-- The CHECK of the column `status`.
abbrev pub is_status : String → Bool
is_status s =
    str_eq s "Pending"
    || (str_eq s "Funded" || (str_eq s "Fulfilled" || (str_eq s "Cancelled" || str_eq s "Expired")))

-- The PRIMARY KEY of the table `orders`.
unfoldable pub has_order : String → List OrderRow → Bool
has_order id [] = Bool.false
has_order id (row ∷ rows) = str_eq id row.id || has_order id rows
