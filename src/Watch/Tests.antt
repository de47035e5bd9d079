-- ===== src/Watch/Tests.antt =====
-- The watcher over the library and the wallet service of Trade/Model.
use banco.Prelude.{
  ℕ, ◌*◌, ◌^◌, ◌≤◌, ◌≡◌, ◌↔◌, refl, arith, String, true, List, [], ◌∷◌, none, some, replicate,
}
use banco.Order.{Order}
use banco.Buffer.Rules.{IsFree}
use banco.Trade.Types.{Utxo, Trade}
use banco.Trade.Step.{Env}
use banco.Trade.Model.{simple_taproot, simple_lib, coin, simple_wallet, simple_wallet_laws}
use banco.Watch.Coins.{coins_are_more_than, total_value, worth, coins_are_more_than-worth}
use banco.Watch.Execute.{execute_trades, execute_one}
use banco.Watch.Sends.{EachOnce, execute_trades-EachOnce}
use banco.Watch.Act.{Net}
use banco.Watch.Order.{Clock, Explorer, watch_for_trades, mark_expired, fetch_unspents, settle}
use banco.Watch.Order.{fulfil_order}
use banco.Currency.{l_btc_hash, asset_of, currency_to_asset}
use banco.Result.{Result, ok, err, panic}
use banco.Prelude.{Option, false, ap, All, str_eq}
use banco.Store.Rows.{Db}
use banco.Store.Atomic.{conn}
use banco.Store.Query.{find_orders_to_fulfill, to_fulfill, join, join_row, orders_of_rows}
use banco.Watch.Settles.{watch_for_trades_settles}
use banco.Hex.{decode_string, decode_codes}
use banco.Offer.Funding.{create_funding_output}
use banco.Store.Sql.{call}
use banco.Store.Save.{order_row, pending_row, update_order_status, has_status, set_status}
use banco.Buffer.Serializer.{write_vector, write_vector_loop, write_var_slice, write_slice}
use banco.Buffer.Serializer.{new_serializer, bytes}
use banco.Buffer.VarInt.{write_var_int}
use banco.Buffer.FreeList.{put_uint8, write_uint, borrow, copy, give_back}
use banco.Trade.Types.{from_funded_order}
use banco.Trade.Prepare.{
  prepare_fulfill_transaction, prepare_from, prepare_funded, add_spend, add_spends,
}
use banco.Trade.Prepare.{add_leaves, add_trade_change, add_fee_change, add_fee}
use banco.Trade.Witness.{finalize_from, fulfil_leaf, find_leaf}
use banco.Trade.Execute.{execute_trade, fulfil, gather, sign, send, serialize_witness}
use banco.Watch.Only.{OnlyFor, watch_for_trades-OnlyFor}

abbrev pub an_order : Order
an_order = record {
  id = "1";
  timestamp = 0;
  address = "address";
  network = none;
  fulfill_script = 0xd1 ∷ [];
  refund_script = 0xd2 ∷ [];
  trader_script = 0x51 ∷ [];
  input = record { asset = "a"; amount = 1000 };
  output = record { asset = "b"; amount = 2000 };
}

abbrev pub two_coins : List (Utxo (Unit {0}))
two_coins = coin "first" 600 ∷ coin "second" 500 ∷ []

abbrev pub start : Env (List String)
start = record { world = []; free = replicate 8 0 ∷ [] }

pub start-IsFree : IsFree start.free
start-IsFree = record { capped = omega arith; eight = (refl, tt) }

enough_iff : (coins_are_more_than two_coins 1000 ≡ true) ↔ (1000 ≤ worth two_coins)
enough_iff = coins_are_more_than-worth two_coins 1000 (unfold worth in omega arith)

execute_trades-EachOnce_example :
    EachOnce simple_taproot simple_lib simple_wallet simple_wallet_laws an_order two_coins start
      (execute_trades simple_taproot simple_lib simple_wallet an_order two_coins start)
execute_trades-EachOnce_example =
    execute_trades-EachOnce simple_taproot simple_lib simple_wallet simple_wallet_laws an_order
      two_coins start start-IsFree

abbrev pub explorer : Explorer (Unit {0}) (List String)
explorer address w = (ok two_coins, w)

abbrev pub clock : Clock
clock = record {
  start = 601 * 10 ^ 9;
  at_expiry = 601 * 10 ^ 9;
  at_funding = 602 * 10 ^ 9;
  at_fulfilment = 603 * 10 ^ 9;
}

abbrev pub format_time : ℕ → String
format_time t = "1970-01-01 00:10:00"

abbrev net : Net (List String)
net = record {
  env = start;
  conn = record { stored = record { orders = []; statuses = [] }; working = none; faults = [] };
}

watch_for_trades-OnlyFor_example :
    OnlyFor simple_taproot simple_lib simple_wallet simple_wallet_laws explorer format_time an_order
      net
      (watch_for_trades simple_taproot simple_lib simple_wallet explorer format_time an_order clock
        net).1
watch_for_trades-OnlyFor_example =
    watch_for_trades-OnlyFor simple_taproot simple_lib simple_wallet simple_wallet_laws explorer
      format_time (λ address w. refl) an_order clock net start-IsFree

-- The order is ten minutes old and its two coins reach its amount only together: both are spent all
-- the same, each by a transaction that fulfils the order.
expired_twice :
    (watch_for_trades simple_taproot simple_lib simple_wallet explorer format_time an_order clock
      net).1.env.world
    ≡ "00" ∷ "00" ∷ []
unfolding watch_for_trades mark_expired fetch_unspents settle fulfil_order coins_are_more_than
    total_value execute_trades execute_one from_funded_order create_funding_output decode_string
    decode_codes update_order_status call has_status set_status execute_trade fulfil gather sign
    send serialize_witness finalize_from fulfil_leaf find_leaf prepare_fulfill_transaction
    prepare_from prepare_funded add_spend add_spends add_leaves add_trade_change add_fee_change
    add_fee l_btc_hash asset_of currency_to_asset write_vector write_vector_loop write_var_slice
    write_slice write_var_int put_uint8 write_uint borrow copy give_back new_serializer bytes
expired_twice = refl

abbrev T : Type 0
T = Trade (Unit {0}) (List (List ℕ))

abbrev trades_of : Result (List T) → List T
trades_of (ok ts) = ts
trades_of (err e) = []
trades_of panic = []

abbrev executed : Result (List T) × Env (List String)
executed = execute_trades simple_taproot simple_lib simple_wallet an_order two_coins start

all_executed : executed.0 ≡ ok (trades_of executed.0)
unfolding execute_trades execute_one from_funded_order create_funding_output decode_string
    decode_codes execute_trade fulfil gather sign send serialize_witness finalize_from fulfil_leaf
    find_leaf prepare_fulfill_transaction prepare_from prepare_funded add_spend add_spends
    add_leaves add_trade_change add_fee_change add_fee l_btc_hash asset_of currency_to_asset
    write_vector write_vector_loop write_var_slice write_slice write_var_int put_uint8 write_uint
    borrow copy give_back new_serializer bytes
all_executed = refl

abbrev one_order : Db
one_order = record {
  orders = order_row "1970-01-01 00:00:00" an_order ∷ [];
  statuses = pending_row "1970-01-01 00:00:00" an_order ∷ [];
}

abbrev parse_time : String → Option ℕ
parse_time text = some 0

abbrev watched : Result (Unit {0}) × Net (List String)
watched =
    watch_for_trades simple_taproot simple_lib simple_wallet explorer format_time an_order clock
      (record { env = start; conn = conn one_order none [] })

-- The order was pending, and is not listed any more.
unlisted : find_orders_to_fulfill parse_time watched.1.conn.stored ≡ ok []
unfolding watch_for_trades mark_expired fetch_unspents settle fulfil_order coins_are_more_than
    total_value execute_trades execute_one from_funded_order create_funding_output decode_string
    decode_codes update_order_status call has_status set_status execute_trade fulfil gather sign
    send serialize_witness finalize_from fulfil_leaf find_leaf prepare_fulfill_transaction
    prepare_from prepare_funded add_spend add_spends add_leaves add_trade_change add_fee_change
    add_fee l_btc_hash asset_of currency_to_asset write_vector write_vector_loop write_var_slice
    write_slice write_var_int put_uint8 write_uint borrow copy give_back new_serializer bytes
    find_orders_to_fulfill to_fulfill join join_row orders_of_rows
unlisted = refl

enough : coins_are_more_than two_coins an_order.input.amount ≡ true
unfolding coins_are_more_than total_value
enough = refl

watch_for_trades_settles_example :
    (watched.0 ≡ ok tt) × All (λ (o : Order). str_eq an_order.id o.id ≡ false) []
watch_for_trades_settles_example =
    watch_for_trades_settles simple_taproot simple_lib simple_wallet explorer format_time parse_time
      an_order clock two_coins start executed.1 start.world one_order (trades_of executed.0) [] refl
      enough (ap (λ r. (r, executed.1)) all_executed) unlisted
