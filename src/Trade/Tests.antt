-- ===== src/Trade/Tests.antt =====
-- A trade over the library and the wallet service of Trade/Model.
use banco.Prelude.{
  ℕ, ◌<◌, ◌≤◌, ◌≡◌, refl, ap, arith, String, List, [], ◌∷◌, ◌++◌, some, replicate, ◌⊎◌, All,
}
use banco.Currency.{l_btc_hash, asset_of, currency_to_asset}
use banco.Order.{Order}
use banco.Offer.Funding.{testnet}
use banco.Buffer.Rules.{IsFree}
use banco.Trade.Types.{Trade, funded, executed}
use banco.Trade.Libs.{OutputArgs}
use banco.Trade.Prepare.{Supplies, prepare_fulfill_transaction, prepare_from, prepare_funded}
use banco.Trade.Prepare.{
  add_spend, add_spends, add_leaves, add_trade_change, add_fee_change, add_fee,
}
use banco.Trade.Outputs.{outputs-prepare, fulfil_outputs}
use banco.Trade.Conservation.{total, owed, total-prepare, fee_output_bounds}
use banco.Trade.Step.{Env}
use banco.Trade.Execute.{execute_trade, fulfil, gather, sign, send, serialize_witness}
use banco.Trade.Witness.{finalize_from, fulfil_leaf, find_leaf}
use banco.Buffer.Serializer.{
  write_vector, write_vector_loop, write_var_slice, write_slice, new_serializer, bytes,
}
use banco.Buffer.VarInt.{write_var_int}
use banco.Buffer.FreeList.{put_uint8, write_uint, borrow, copy, give_back}
use banco.Trade.Outcome.{Outcome, WasBroadcast, execute_trade-Outcome, executed_once}
use banco.Trade.Model.{simple_taproot, Draft, simple_lib, simple_laws, coin, simple_wallet}
use banco.Trade.Model.{simple_wallet_laws}
use banco.Result.{ok, err, trade_over}

-- An order for L-BTC, and a funding output of its input.
abbrev an_order : Order
an_order = record {
  id = "1";
  timestamp = 0;
  address = "address";
  network = some testnet;
  fulfill_script = 0xd1 ∷ [];
  refund_script = 0xd2 ∷ [];
  trader_script = 0x51 ∷ [];
  input = record { asset = "a"; amount = 1000 };
  output = record {
    asset = "144c654344aa716d6f3abcc1ca90e5641e4e2a7f633bc09fe3baf64585819a49";
    amount = 2000;
  };
}

abbrev a_trade : Trade (Unit {0}) (List (List ℕ))
a_trade = record {
  status = funded;
  order = an_order;
  funding_unspent = some (coin "funding" 1000);
  funding_payment = some ((0xd2 ∷ []) ∷ (0xd1 ∷ []) ∷ []);
}

-- A change of 300, which is too little, and one of 500.
abbrev supplies : Supplies (Unit {0})
supplies = record {
  for_trade = coin "trade" 2300 ∷ [];
  for_fees = coin "fees" 1000 ∷ [];
  provider_script = 0x52 ∷ [];
  trade_change_script = 0x53 ∷ [];
  fee_change_script = 0x54 ∷ [];
  trade_change = 300;
  fee_change = 500;
}

abbrev l_btc : String
l_btc = "144c654344aa716d6f3abcc1ca90e5641e4e2a7f633bc09fe3baf64585819a49"

abbrev draft : Draft
draft = record {
  outputs =
      record { asset = l_btc; amount = 2000; script = 0x51 ∷ [] }
      ∷ record { asset = "a"; amount = 1000; script = 0x52 ∷ [] }
      ∷ record { asset = l_btc; amount = 500; script = 0x54 ∷ [] }
      ∷ record { asset = l_btc; amount = 800; script = [] }
      ∷ [];
  inputs = ("funding", 1) ∷ ("trade", 1) ∷ ("fees", 1) ∷ [];
  witness = [];
}

prepared : prepare_fulfill_transaction simple_taproot simple_lib a_trade supplies ≡ ok draft
unfolding prepare_fulfill_transaction prepare_from prepare_funded add_spend add_spends add_leaves
    add_trade_change add_fee_change add_fee l_btc_hash asset_of currency_to_asset
prepared = refl

accepted : All simple_laws.Accepted (fulfil_outputs an_order supplies)
unfolding fulfil_outputs l_btc_hash asset_of currency_to_asset
accepted = (tt, (tt, (tt, (tt, tt))))

outputs-prepare_example : simple_laws.outputs draft ≡ fulfil_outputs an_order supplies
outputs-prepare_example =
    outputs-prepare simple_taproot simple_lib simple_laws a_trade supplies draft prepared accepted

total-prepare_example : total l_btc (simple_laws.outputs draft) ≡ owed an_order supplies l_btc
total-prepare_example =
    total-prepare simple_taproot simple_lib simple_laws a_trade supplies l_btc draft prepared
      accepted

fee_output_bounds_example :
    (before : List OutputArgs) × (fee : ℕ) × (simple_laws.outputs draft
      ≡ before ++ (record { asset = l_btc_hash; amount = fee; script = [] } ∷ []))
    × (500 ≤ fee)
    × (fee < 1499)
fee_output_bounds_example =
    fee_output_bounds simple_taproot simple_lib simple_laws a_trade supplies draft prepared accepted

abbrev start : Env (List String)
start = record { world = []; free = replicate 8 0 ∷ [] }

start-IsFree : IsFree start.free
start-IsFree = record { capped = omega arith; eight = (refl, tt) }

execute_trade-Outcome_example :
    Outcome simple_taproot simple_lib simple_wallet simple_wallet_laws a_trade start
      (execute_trade simple_taproot simple_lib simple_wallet a_trade start)
execute_trade-Outcome_example =
    execute_trade-Outcome simple_taproot simple_lib simple_wallet simple_wallet_laws a_trade start
      start-IsFree

abbrev done : Trade (Unit {0}) (List (List ℕ))
done = record a_trade { status = executed }

-- The log of the world after the run, and the trade.
runs :
    let ((r, t), e) = execute_trade simple_taproot simple_lib simple_wallet a_trade start in
    (r ≡ ok tt) × (t ≡ done) × (e.world ≡ "00" ∷ [])
unfolding execute_trade fulfil gather sign send serialize_witness finalize_from fulfil_leaf
    find_leaf prepare_fulfill_transaction prepare_from prepare_funded add_spend add_spends
    add_leaves add_trade_change add_fee_change add_fee l_btc_hash asset_of currency_to_asset
    write_vector write_vector_loop write_var_slice write_slice write_var_int put_uint8 write_uint
    borrow copy give_back new_serializer bytes
runs = (refl, refl, refl)

executed_once_example :
    let ((r, t'), e') = execute_trade simple_taproot simple_lib simple_wallet a_trade start in
    ((a_trade.status ≡ executed)
      ⊎ WasBroadcast simple_taproot simple_lib simple_wallet simple_wallet_laws a_trade start e')
    × (execute_trade simple_taproot simple_lib simple_wallet t' start
        ≡ ((err trade_over, t'), start))
executed_once_example =
    executed_once simple_taproot simple_lib simple_wallet simple_wallet_laws a_trade start start
      start-IsFree (ap (λ t. t.status) runs.1)
