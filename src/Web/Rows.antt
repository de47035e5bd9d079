-- ===== src/Web/Rows.antt =====
-- The entries of the transactions on the page of an offer.
use banco.Prelude.{
  ℕ, ◌-◌, String, Bool, true, false, List, [], ◌∷◌, ◌++◌, Option, none, some, ltb, if◌then◌else◌,
}
use banco.Prelude.{lookup, text_append, len, slice}
use banco.Prelude.Int.{ℤ}
use banco.Esplora.Client.{Transaction, esplora_urls}
use banco.Result.{Result, ok, panic, ◌>>=◌}
use banco.Web.Response.{TxRow, TxLists}
pub mod Split

-- The value of a missing key is the empty text.
abbrev url_or_empty : Option String → String
url_or_empty none = ""
url_or_empty (some url) = url

-- `txid[:6] + "..." + txid[len(txid)-6:]`, which panics for fewer than six bytes
unfoldable pub tx_id_short : String → Result String
tx_id_short txid =
    if ltb (len txid) 6
    then panic
    else ok
        (text_append (slice txid 0 6) (text_append "..." (slice txid (len txid - 6) (len txid))))

-- The entry of a transaction; the format of a time in seconds is of the package time.
unfoldable pub tx_row : (ℤ → String) → String → String → Bool → ℤ → Result TxRow
tx_row format_unix network_name txid confirmed time = do
  short ← tx_id_short txid
  ok (record {
    tx_id = txid;
    tx_id_short = short;
    confirmed = confirmed;
    date = format_unix time;
    explorer_tx_url =
        text_append (url_or_empty (lookup network_name esplora_urls)) (text_append "/tx/" txid);
  })

-- The two branches that append an entry to one of the lists.
abbrev pub added : Bool → TxRow → TxLists → TxLists
added true row lists = record lists { confirmed = lists.confirmed ++ (row ∷ []) }
added false row lists = record lists { pending = lists.pending ++ (row ∷ []) }

unfoldable pub add_row : TxRow → TxLists → TxLists
add_row row lists = added row.confirmed row lists

-- The loop over the transactions of the explorer.
unfoldable pub split_transactions :
    (ℤ → String) → String → List Transaction → TxLists → Result TxLists
unfolding tx_row add_row
split_transactions format_unix network_name [] lists = ok lists
split_transactions format_unix network_name (tx ∷ rest) lists = do
  row ← tx_row format_unix network_name tx.tx_id tx.confirmed tx.block_time
  split_transactions format_unix network_name rest (add_row row lists)

abbrev pub no_rows : TxLists
no_rows = record { confirmed = []; pending = [] }
