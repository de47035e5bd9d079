-- ===== src/Esplora/Client.antt =====
-- The explorer's client: its tables of addresses, and its three requests.
use banco.Prelude.{
  ℕ, String, Bool, List, [], ◌∷◌, Option, none, some, lookup, get_elem?, text_append,
}
use banco.Prelude.Int.{ℤ, pos, negsuc, pos_part}
use banco.Call.{Call, ◌>>=◌, ask, done}
use banco.Result.{Result, ok, err, panic, or_error, or_panic, unknown_network, history_failed}
use banco.Result.{fetch_failed}
use banco.Trade.Types.{Utxo}

unfoldable pub esplora_api_urls : List (String × String)
esplora_api_urls =
    ("liquid", "https://blockstream.info/liquid/api")
    ∷ ("testnet", "https://blockstream.info/liquidtestnet/api")
    ∷ ("regtest", "http://localhost:3001")
    ∷ []

unfoldable pub esplora_urls : List (String × String)
esplora_urls =
    ("liquid", "https://blockstream.info/liquid")
    ∷ ("testnet", "https://blockstream.info/liquidtestnet")
    ∷ ("regtest", "http://localhost:5001")
    ∷ []

pub record Esplora : Type 0 where
  pub base_api_url : String
  pub network_name : String

abbrev client_for : String → Option String → Result Esplora
client_for network_name none = err unknown_network
client_for network_name (some url) = ok (record { base_api_url = url; network_name = network_name })

-- `NewEsplora`
unfoldable pub new_esplora : String → Result Esplora
unfolding esplora_api_urls
new_esplora network_name = client_for network_name (lookup network_name esplora_api_urls)

-- The addresses of the three requests.
unfoldable pub history_url : Esplora → String → String
history_url e address =
    text_append e.base_api_url (text_append "/address/" (text_append address "/txs"))

unfoldable pub prevout_url : Esplora → String → String
prevout_url e tx_hash = text_append e.base_api_url (text_append "/tx/" (text_append tx_hash "/hex"))

unfoldable pub unspents_url : Esplora → String → String
unspents_url e address =
    text_append e.base_api_url (text_append "/address/" (text_append address "/utxo"))

-- A transaction of a history: the fields that are read.
pub record Transaction : Type 0 where
  pub tx_id : String
  pub confirmed : Bool
  pub block_time : ℤ

-- An unspent output, as the JSON text has it.
pub record Unspent : Type 0 where
  pub txid : String
  pub index : ℤ
  pub value : ℕ
  pub confirmed : Bool

-- http.Get, io.ReadAll of the body, json.Unmarshal for the two types, in which an element `null` of
-- the second is a nil pointer, and transaction.NewTxFromHex, for the outputs of the transaction.
pub record Http (Prevout World : Type 0) : Type 1 where
  pub Response : Type 0
  pub get : String → World → Option Response × World
  pub read_all : Response → World → Option String × World
  pub parse_transactions : String → Option (List Transaction)
  pub parse_unspents : String → Option (List (Option Unspent))
  pub new_tx_from_hex : String → Option (List Prevout)

module _ {Prevout World : Type 0} (http : Http Prevout World) where
  open http use {Response}

  -- The request with which each method begins.
  unfoldable pub fetch_body : String → Call World String
  fetch_body url = do
    response ← ask (http.get url) fetch_failed
    ask (http.read_all response) fetch_failed

  -- `FetchTransactionHistory`
  unfoldable pub fetch_transaction_history : Esplora → String → Call World (List Transaction)
  unfolding fetch_body history_url
  fetch_transaction_history e address = do
    body ← fetch_body (history_url e address)
    done (or_error (http.parse_transactions body) history_failed)

  -- `tx.Outputs[txIndex]` panics for an index that is negative or out of range.
  abbrev pub output_at : ℤ → List Prevout → Result Prevout
  output_at (pos i) outputs = or_panic (get_elem? outputs i)
  output_at (negsuc i) outputs = panic

  -- `FetchPrevout`
  unfoldable pub fetch_prevout : Esplora → String → ℤ → Call World Prevout
  unfolding fetch_body prevout_url
  fetch_prevout e tx_hash index = do
    body ← fetch_body (prevout_url e tx_hash)
    outputs ← done (or_error (http.new_tx_from_hex body) fetch_failed)
    done (output_at index outputs)

  -- The coin with its previous output, which is there only for an index that is not negative.
  abbrev pub with_prevout : Unspent → Prevout → Utxo Prevout
  with_prevout u prevout = record {
    txid = u.txid;
    index = pos_part u.index;
    value = u.value;
    prevout = prevout;
    confirmed = u.confirmed;
  }

  -- The loop over the coins ends at the first error, and panics at a nil pointer.
  unfoldable pub add_prevouts : Esplora → List (Option Unspent) → Call World (List (Utxo Prevout))
  unfolding fetch_prevout
  add_prevouts e [] = done (ok [])
  add_prevouts e (none ∷ rest) = done panic
  add_prevouts e (some u ∷ rest) = do
    prevout ← fetch_prevout e u.txid u.index
    utxos ← add_prevouts e rest
    done (ok (with_prevout u prevout ∷ utxos))

  -- `FetchUnspents`
  unfoldable pub fetch_unspents : Esplora → String → Call World (List (Utxo Prevout))
  unfolding fetch_body add_prevouts unspents_url
  fetch_unspents e address = do
    body ← fetch_body (unspents_url e address)
    unspents ← done (or_error (http.parse_unspents body) fetch_failed)
    add_prevouts e unspents
