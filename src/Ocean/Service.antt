-- ===== src/Ocean/Service.antt =====
-- The methods of the service.
use banco.Prelude.{
  ℕ, String, Bool, true, List, [], ◌∷◌, Option, none, some, map, lookup, if◌then◌else◌,
}
use banco.Hex.{decoded_string}
use banco.Result.{Result, ◌>>=◌, ok, err, panic, or_error, rpc_failed, asset_not_found}
use banco.Trade.Types.{Utxo}
use banco.Trade.Libs.{Wallet}
use banco.Ocean.Client.{StatusReply, BalanceInfo, Coin, Receiver, Client}

abbrev msats_per_byte : ℕ
msats_per_byte = 110

-- The balance of one asset.
pub record Balance : Type 0 where
  pub available_balance : ℕ
  pub pending_balance : ℕ

-- An output of a transfer, as its getters show it.
pub record TxOutput : Type 0 where
  pub amount : ℕ
  pub asset : String
  pub script : String

-- `toProto`: the loop over the outputs.
unfoldable pub to_proto : List TxOutput → List Receiver
to_proto [] = []
to_proto (out ∷ rest) =
    record { amount = out.amount; script = out.script; asset = out.asset } ∷ to_proto rest

abbrev pub balance_of : Option BalanceInfo → Result Balance
balance_of none = err asset_not_found
balance_of (some info) =
    ok (record { available_balance = info.confirmed; pending_balance = info.unconfirmed })

abbrev pub balance_in : String → Option (List (String × BalanceInfo)) → Result Balance
balance_in asset_hash none = err rpc_failed
balance_in asset_hash (some balances) = balance_of (lookup asset_hash balances)

-- The libraries' address.ToOutputScript, elementsutil.AssetHashToBytes and ValueToBytes, whose errors
-- are not looked at, and transaction.NewTxOutput.
pub record OutputLib : Type 1 where
  pub Prevout : Type 0
  pub to_output_script : String → Option (List ℕ)
  pub asset_hash_to_bytes : String → List ℕ
  pub value_to_bytes : ℕ → List ℕ
  pub new_tx_output : List ℕ → List ℕ → List ℕ → Prevout

module _ (client : Client) where
  open client use {World}

  -- `Status`
  unfoldable pub status : World → Result StatusReply × World
  status w = let (r, w') = client.status w in (or_error r rpc_failed, w')

  -- `Balance` of the account
  unfoldable pub balance : String → String → World → Result Balance × World
  balance account_name asset_hash w =
      let (r, w') = client.balance account_name w in (balance_in asset_hash r, w')

  -- `SignPset`, which does not pass on whether the transaction is to be extracted
  unfoldable pub sign_pset : String → Bool → World → Result String × World
  sign_pset pset extract_raw_tx w =
      let (r, w') = client.sign_pset pset w in (or_error r rpc_failed, w')

  -- `Transfer`
  unfoldable pub transfer : String → List TxOutput → World → Result String × World
  transfer account_name outs w =
      let (r, w') = client.transfer account_name (to_proto outs) msats_per_byte w in
      (or_error r rpc_failed, w')

  -- `BroadcastTransaction`
  unfoldable pub broadcast_transaction : String → World → Result String × World
  broadcast_transaction tx_hex w =
      let (r, w') = client.broadcast_transaction tx_hex w in (or_error r rpc_failed, w')

  -- `WatchScript`
  unfoldable pub watch_script : String → World → Result (Unit {0}) × World
  watch_script script w =
      let (r, w') = client.watch_external_script script w in (or_error r rpc_failed, w')

  -- `TransactionNotifications`, up to the goroutine, which is in Notify
  unfoldable pub transaction_notifications : World → Result (Unit {0}) × World
  transaction_notifications w =
      let (r, w') = client.transaction_notifications w in (or_error r rpc_failed, w')

  -- `Close`
  unfoldable pub close : World → World
  close w = client.close w

  module _ (lib : OutputLib) where
    open lib use {Prevout}

    -- The address that was derived, with its script. Where the daemon gives none, the code returns
    -- the error of the call, which is nil.
    abbrev pub first_address : Option (List String) → Result (String × List ℕ)
    first_address none = err rpc_failed
    first_address (some []) = ok ("", [])
    first_address (some (addr ∷ more)) =
        or_error (lib.to_output_script addr) rpc_failed >>= λ script. ok (addr, script)

    -- `GetAddress`
    unfoldable pub get_address : String → Bool → World → Result (String × List ℕ) × World
    get_address account_name is_change w =
        let (r, w') =
          if is_change
          then client.derive_change_addresses account_name 1 w
          else client.derive_addresses account_name 1 w in
        (first_address r, w')

    -- The body of the loop of SelectUtxos.
    unfoldable pub utxo_of_coin : Coin → Utxo Prevout
    utxo_of_coin c = record {
      txid = c.txid;
      index = c.index;
      value = c.value;
      prevout =
          lib.new_tx_output (lib.asset_hash_to_bytes c.asset) (lib.value_to_bytes c.value)
            (decoded_string c.script);
      confirmed = true;
    }

    abbrev pub selected : Option (List Coin × ℕ) → Result (List (Utxo Prevout) × ℕ)
    selected none = err rpc_failed
    selected (some (coins, change)) = ok (map utxo_of_coin coins, change)

    -- `SelectUtxos`
    unfoldable pub select_utxos :
        String → String → ℕ → World → Result (List (Utxo Prevout) × ℕ) × World
    unfolding utxo_of_coin
    select_utxos account_name asset amount w =
        let (r, w') = client.select_utxos account_name asset amount w in (selected r, w')

    -- Whether there is an error is what a trade looks at.
    abbrev pub without_error : {A : Type 0} → Result A × World → Option A × World
    without_error (ok a, w) = (some a, w)
    without_error (err e, w) = (none, w)
    without_error (panic, w) = (none, w)

    -- The service as the wallet of a trade.
    abbrev pub ocean_wallet : String → Wallet Prevout
    ocean_wallet account_name = record {
      World = World;
      get_address = λ is_change w. without_error (get_address account_name is_change w);
      select_utxos = λ asset amount w. without_error (select_utxos account_name asset amount w);
      sign_pset = λ pset extract_raw_tx w. without_error (sign_pset pset extract_raw_tx w);
      broadcast_transaction = λ hex w. without_error (broadcast_transaction hex w);
    }
