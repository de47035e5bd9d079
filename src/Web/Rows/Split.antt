-- ===== src/Web/Rows/Split.antt =====
-- The two lists of the page of an offer.
use banco.Prelude.{String, Bool, true, false, List, [], ◌∷◌, ◌++◌, ◌≡◌, refl, sym, ap, ◌∙◌}
use banco.Prelude.{not, subst, append_assoc, append-nil, map}
use banco.Prelude.Int.{ℤ}
use banco.Esplora.Client.{Transaction}
use banco.Result.{ok, >>=_ok, ok-injective}
use banco.Web.Response.{TxRow, TxLists}
use banco.Web.Rows.{tx_row, added, add_row, split_transactions, no_rows, tx_id_short}

-- The transactions that are confirmed, or that are not, in their order.
abbrev pub keep : Bool → Transaction → List Transaction → List Transaction
keep true tx rest = tx ∷ rest
keep false tx rest = rest

unfoldable pub with_confirmed : Bool → List Transaction → List Transaction
with_confirmed b [] = []
with_confirmed true (tx ∷ rest) = keep tx.confirmed tx (with_confirmed true rest)
with_confirmed false (tx ∷ rest) = keep (not tx.confirmed) tx (with_confirmed false rest)

abbrev pub shown_ids : List TxRow → List String
shown_ids rows = map (λ row. row.tx_id) rows

abbrev pub ids : List Transaction → List String
ids txs = map (λ tx. tx.tx_id) txs

shown_ids-append :
    (rows : List TxRow) (row : TxRow)
    → shown_ids (rows ++ (row ∷ [])) ≡ shown_ids rows ++ (row.tx_id ∷ [])
shown_ids-append [] row = refl
shown_ids-append (r ∷ rows) row = ap (λ is. r.tx_id ∷ is) (shown_ids-append rows row)

tx_row_ok :
    (format_unix : ℤ → String) (network_name txid : String) (confirmed : Bool) (time : ℤ)
    (row : TxRow)
    → tx_row format_unix network_name txid confirmed time ≡ ok row
    → (row.tx_id ≡ txid) × (row.confirmed ≡ confirmed)
unfolding tx_row
tx_row_ok format_unix network_name txid confirmed time row h =
    let (short, found, made) = >>=_ok (tx_id_short txid) _ h in
    let is_row = ok-injective made in
    (ap (λ r. r.tx_id) (sym is_row), ap (λ r. r.confirmed) (sym is_row))

-- What a list has after the entries of the transactions that belong to it.
abbrev Grown : List TxRow → List TxRow → List Transaction → Type 0
Grown before after txs = shown_ids after ≡ shown_ids before ++ ids txs

-- One entry more, in the list that it belongs to.
one_more :
    (before after : List TxRow) (row : TxRow) (tx : Transaction) (txs : List Transaction)
    → row.tx_id ≡ tx.tx_id
    → Grown (before ++ (row ∷ [])) after txs
    → Grown before after (tx ∷ txs)
one_more before after row tx txs same h =
    h
    ∙ ap (λ is. is ++ ids txs) (shown_ids-append before row)
    ∙ append_assoc (shown_ids before) (row.tx_id ∷ []) (ids txs)
    ∙ ap (λ i. shown_ids before ++ (i ∷ ids txs)) same

module _ (format_unix : ℤ → String) (network_name : String) where
  Splits : TxLists → TxLists → List Transaction → Type 0
  Splits before after txs =
      Grown before.confirmed after.confirmed (with_confirmed true txs)
      × Grown before.pending after.pending (with_confirmed false txs)

  placed :
      (b : Bool) (tx : Transaction) (rest : List Transaction) (row : TxRow) (before after : TxLists)
      → row.tx_id ≡ tx.tx_id
      → Splits (added b row before) after rest
      → Grown before.confirmed after.confirmed (keep b tx (with_confirmed true rest))
        × Grown before.pending after.pending (keep (not b) tx (with_confirmed false rest))
  unfolding Splits
  placed true tx rest row before after same (confirmed, pending) = (
    one_more before.confirmed after.confirmed row tx (with_confirmed true rest) same confirmed,
    pending,
  )
  placed false tx rest row before after same (confirmed, pending) = (
    confirmed,
    one_more before.pending after.pending row tx (with_confirmed false rest) same pending,
  )

  splits :
      (txs : List Transaction) (before after : TxLists)
      → split_transactions format_unix network_name txs before ≡ ok after
      → Splits before after txs
  unfolding split_transactions with_confirmed add_row Splits
  splits [] before after h =
      let same = ok-injective h in
      (
        ap (λ l. shown_ids l.confirmed) (sym same) ∙ sym (append-nil (shown_ids before.confirmed)),
        ap (λ l. shown_ids l.pending) (sym same) ∙ sym (append-nil (shown_ids before.pending)),
      )
  splits (tx ∷ rest) before after h =
      let (row, made, more) =
        >>=_ok (tx_row format_unix network_name tx.tx_id tx.confirmed tx.block_time) _ h in
      let (same, confirmed) =
        tx_row_ok format_unix network_name tx.tx_id tx.confirmed tx.block_time row made in
      placed tx.confirmed tx rest row before after same (
        subst (λ b. Splits (added b row before) after rest) confirmed
          (splits rest (add_row row before) after more))

  -- Where the page of an offer is shown, its first list has the transactions of the explorer that are
  -- confirmed, its second list the others, each in the explorer's order and with none left out.
  pub split_transactions-with_confirmed :
      (txs : List Transaction) (lists : TxLists)
      → split_transactions format_unix network_name txs no_rows ≡ ok lists
      → (shown_ids lists.confirmed ≡ ids (with_confirmed true txs))
        × (shown_ids lists.pending ≡ ids (with_confirmed false txs))
  unfolding Splits
  split_transactions-with_confirmed txs lists h = splits txs no_rows lists h
