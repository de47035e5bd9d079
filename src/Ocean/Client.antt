-- ===== src/Ocean/Client.antt =====
-- The clients of the wallet daemon: each call takes the state of the world, and gives none on an error.
use banco.Prelude.{ℕ, String, Bool, Option, List}
use banco.Prelude.Int.{ℤ}

pub record StatusReply : Type 0 where
  pub initialized : Bool
  pub unlocked : Bool
  pub synced : Bool

pub record BalanceInfo : Type 0 where
  pub confirmed : ℕ
  pub unconfirmed : ℕ

-- A coin of the daemon: the fields that the code reads.
pub record Coin : Type 0 where
  pub txid : String
  pub index : ℕ
  pub asset : String
  pub value : ℕ
  pub script : String

-- A receiver of a transfer.
pub record Receiver : Type 0 where
  pub amount : ℕ
  pub script : String
  pub asset : String

-- One message of the notification stream, with the time of its block if there is one.
pub record TxEvent : Type 0 where
  pub txid : String
  pub block_time : Option ℤ

pub record Client : Type 1 where
  pub World : Type 0
  -- grpc.Dial, once an address is given
  pub dial : String → World → Option (Unit {0}) × World
  pub status : World → Option StatusReply × World
  -- the labels of the accounts
  pub get_info : World → Option (List String) × World
  pub create_account : String → World → Option (Unit {0}) × World
  -- by account: the balance by asset, and so many new addresses
  pub balance : String → World → Option (List (String × BalanceInfo)) × World
  pub derive_addresses : String → ℕ → World → Option (List String) × World
  pub derive_change_addresses : String → ℕ → World → Option (List String) × World
  -- by account, asset and amount: the coins and the change
  pub select_utxos : String → String → ℕ → World → Option (List Coin × ℕ) × World
  pub sign_pset : String → World → Option String × World
  -- by account, receivers and fee rate
  pub transfer : String → List Receiver → ℕ → World → Option String × World
  pub broadcast_transaction : String → World → Option String × World
  pub watch_external_script : String → World → Option (Unit {0}) × World
  -- the request that opens the stream of notifications, and the end of the connection
  pub transaction_notifications : World → Option (Unit {0}) × World
  pub close : World → World
