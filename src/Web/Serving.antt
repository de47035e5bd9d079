-- ===== src/Web/Serving.antt =====
-- The start, a round of the poll, and the pages, over the libraries of the other tests.
use banco.Prelude.{
  ℕ, String, Bool, List, [], ◌∷◌, Option, none, some, true, false, ◌≡◌, refl, lookup,
}
use banco.Prelude.{◌↔◌}
use banco.Prelude.Int.{ℤ, pos}
use banco.App.{supported_networks}
use banco.App.Networks.{supported-new_esplora}
use banco.Float.Model.{scaled}
use banco.Offer.Funding.{Network, testnet}
use banco.Ocean.Start.{has_label, new_wallet_service, connect, accounts_of, ensure_account}
use banco.Ocean.Service.{status}
use banco.Ocean.Ready.{WasReady}
use banco.Ocean.Tests.{State, client, account_laws}
use banco.Ocean.Notify.{TransactionNotification}
use banco.Esplora.Client.{Esplora, Transaction, new_esplora, esplora_api_urls, esplora_urls}
use banco.Rates.{Websocket, new_kraken_client, subscribe}
use banco.Result.{Result, ok, panic}
use banco.Store.Init.{InitLib, init_db}
use banco.Store.Query.{
  fetch_orders_to_fulfill, find_orders_to_fulfill, to_fulfill, join, join_row, orders_of_rows,
  order_of_row,
}
use banco.Store.Save.{order_row, pending_row}
use banco.Store.Sql.{call}
use banco.Trade.Model.{simple_taproot, simple_lib, simple_wallet, simple_wallet_laws}
use banco.Watch.Act.{Net}
use banco.Watch.Tests.{an_order, start as start_env, start-IsFree, explorer, clock, format_time}
use banco.Web.Response.{TxRow, TxLists}
use banco.Web.Rows.{tx_row, tx_id_short, add_row, split_transactions, no_rows}
use banco.Web.Rows.Split.{shown_ids, ids, with_confirmed, split_transactions-with_confirmed}
use banco.Web.Poll.{poll}
use banco.Web.Poll.Round.{RoundFor, poll-RoundFor}
use banco.Web.Start.{Config, Server, start}
use banco.Web.Start.Ready.{start-Ready}
use banco.Web.Stream.{stream, send_notification, over, notified, transactions}

abbrev format_unix : ℤ → String
format_unix time = "1970-01-01 00:00:00"

abbrev history : List Transaction
history =
    record { tx_id = "aaaaaaaaaaaaa1"; confirmed = false; block_time = pos 0 }
    ∷ record { tx_id = "bbbbbbbbbbbbb2"; confirmed = true; block_time = pos 9 }
    ∷ []

abbrev row : String → String → String → Bool → TxRow
row tx_id short url confirmed = record {
  tx_id = tx_id;
  tx_id_short = short;
  confirmed = confirmed;
  date = "1970-01-01 00:00:00";
  explorer_tx_url = url;
}

abbrev lists : TxLists
lists = record {
  confirmed =
      row "bbbbbbbbbbbbb2" "bbbbbb...bbbbb2" "http://localhost:5001/tx/bbbbbbbbbbbbb2" true ∷ [];
  pending =
      row "aaaaaaaaaaaaa1" "aaaaaa...aaaaa1" "http://localhost:5001/tx/aaaaaaaaaaaaa1" false ∷ [];
}

split : split_transactions format_unix "regtest" history no_rows ≡ ok lists
unfolding split_transactions tx_row tx_id_short add_row esplora_urls
split = refl

split_transactions-with_confirmed_example :
    (shown_ids lists.confirmed ≡ ids (with_confirmed true history))
    × (shown_ids lists.pending ≡ ids (with_confirmed false history))
split_transactions-with_confirmed_example =
    split_transactions-with_confirmed format_unix "regtest" history lists split

-- A transaction identifier of five bytes.
too_short : tx_id_short "aaaaa" ≡ panic
unfolding tx_id_short
too_short = refl

abbrev note : TransactionNotification
note = record { tx_id = "bbbbbbbbbbbbb2"; confirmed = true; timestamp = pos 9 }

-- The stream ends with the request.
streamed :
    stream (λ ls. some "html") format_unix "regtest" (notified note ∷ over ∷ notified note ∷ [])
    ≡ transactions "html" ∷ []
unfolding stream send_notification tx_row tx_id_short add_row esplora_urls
streamed = refl

testnet_is_served :
    (((net : Network) × (lookup "testnet" supported_networks ≡ some net))
      ↔ ((e : Esplora) × (new_esplora "testnet" ≡ ok e)))
    × (((net : Network) × (lookup "testnet" supported_networks ≡ some net))
        ↔ ((url : String) × (lookup "testnet" esplora_urls ≡ some url)))
testnet_is_served = supported-new_esplora "testnet"

abbrev files : InitLib State
files = record {
  dir_is_missing = λ w. true;
  mkdir_all = λ w. (some tt, w);
  open_file = λ w. (some tt, w);
  ping = λ w. (some tt, w);
  create_table = λ table w. (some tt, w);
}

abbrev ws : Websocket State
ws = record { connect = λ w. (some tt, w); subscribe_ticker = λ w. (some tt, w) }

abbrev config : Config
config = record {
  web_dir = none;
  ocean_url = none;
  ocean_account_name = none;
  watch_interval_seconds = some (pos 5);
  network = some "testnet";
}

abbrev server : Server ℕ
server = record {
  net = testnet;
  net_name = "testnet";
  esplora = record {
    base_api_url = "https://blockstream.info/liquidtestnet/api";
    network_name = "testnet";
  };
  is_watching = true;
  rates = record {
    last_prices = [];
    listening = true;
    sending = none;
    ticking = true;
    held_usdt = none;
    held_par = none;
  };
}

started : start scaled client ws files config ([], []) ≡ (ok server, ([], "default" ∷ []))
unfolding start supported_networks init_db new_wallet_service connect status accounts_of
    ensure_account has_label new_esplora esplora_api_urls new_kraken_client subscribe
started = refl

start-Ready_example :
    (lookup "testnet" supported_networks ≡ some testnet)
    × (new_esplora "testnet" ≡ ok server.esplora)
    × (server.net_name ≡ "testnet")
    × (server.is_watching ≡ true)
    × WasReady client account_laws
    × ((w₁ : State) × (has_label "default" w₁.1 ≡ true))
start-Ready_example =
    start-Ready scaled client account_laws ws files config ([], []) ([], "default" ∷ []) server
      started

abbrev parse_time : String → Option ℕ
parse_time text = some 0

-- One order is stored, and pending.
abbrev net : Net (List String)
net = record {
  env = start_env;
  conn = record {
    stored = record {
      orders = order_row "1970-01-01 00:00:00" an_order ∷ [];
      statuses = pending_row "1970-01-01 00:00:00" an_order ∷ [];
    };
    working = none;
    faults = [];
  };
}

abbrev round : Result (Unit {0}) × Net (List String)
round =
    poll simple_taproot simple_lib simple_wallet explorer format_time parse_time (λ order. clock)
      net

poll-RoundFor_example :
    RoundFor simple_taproot simple_lib simple_wallet simple_wallet_laws explorer format_time
      parse_time
      (λ order. clock)
      (an_order ∷ [])
      net
      round
unfolding fetch_orders_to_fulfill find_orders_to_fulfill to_fulfill join join_row orders_of_rows
    order_of_row call
poll-RoundFor_example =
    poll-RoundFor simple_taproot simple_lib simple_wallet simple_wallet_laws explorer format_time
      parse_time (λ order. clock) (λ address w. refl) net start-IsFree
