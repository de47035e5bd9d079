-- ===== src/Ocean/Broadcasts.antt =====
-- What the methods of the service broadcast.
use banco.Prelude.{ℕ, String, Bool, true, false, List, [], ◌∷◌, ◌++◌, ◌≡◌, refl, ap, ◌∙◌}
use banco.Trade.Sends.{WalletLaws}
use banco.Ocean.Client.{Client}
use banco.Ocean.Service.{OutputLib, ocean_wallet, get_address, select_utxos, sign_pset}
use banco.Ocean.Service.{broadcast_transaction, without_error}
use banco.Result.{Result, ok, err, panic}

-- The log of the transactions that the daemon was asked to broadcast.
pub record ClientLaws (client : Client) : Type 1 where
  pub sent : client.World → List String
  pub sent-derive_addresses :
      (account : String) (n : ℕ) (w : client.World)
      → sent (client.derive_addresses account n w).1 ≡ sent w
  pub sent-derive_change_addresses :
      (account : String) (n : ℕ) (w : client.World)
      → sent (client.derive_change_addresses account n w).1 ≡ sent w
  pub sent-select_utxos :
      (account asset : String) (amount : ℕ) (w : client.World)
      → sent (client.select_utxos account asset amount w).1 ≡ sent w
  pub sent-sign_pset :
      (pset : String) (w : client.World) → sent (client.sign_pset pset w).1 ≡ sent w
  pub sent-broadcast_transaction :
      (hex : String) (w : client.World)
      → sent (client.broadcast_transaction hex w).1 ≡ sent w ++ (hex ∷ [])

module _ (client : Client) (lib : OutputLib) (laws : ClientLaws client) (account : String) where
  open client use {World}

  same_world : {A : Type 0} (r : Result A × World) → (without_error client lib r).1 ≡ r.1
  same_world (ok a, w) = refl
  same_world (err e, w) = refl
  same_world (panic, w) = refl

  sent-get_address :
      (is_change : Bool) (w : World)
      → laws.sent ((ocean_wallet client lib account).get_address is_change w).1 ≡ laws.sent w
  unfolding get_address
  sent-get_address true w =
      ap laws.sent (same_world (get_address client lib account true w))
      ∙ laws.sent-derive_change_addresses account 1 w
  sent-get_address false w =
      ap laws.sent (same_world (get_address client lib account false w))
      ∙ laws.sent-derive_addresses account 1 w

  sent-select_utxos :
      (asset : String) (amount : ℕ) (w : World)
      → laws.sent ((ocean_wallet client lib account).select_utxos asset amount w).1 ≡ laws.sent w
  unfolding select_utxos
  sent-select_utxos asset amount w =
      ap laws.sent (same_world (select_utxos client lib account asset amount w))
      ∙ laws.sent-select_utxos account asset amount w

  sent-sign_pset :
      (pset : String) (extract_raw_tx : Bool) (w : World)
      → laws.sent ((ocean_wallet client lib account).sign_pset pset extract_raw_tx w).1
        ≡ laws.sent w
  unfolding sign_pset
  sent-sign_pset pset extract_raw_tx w =
      ap laws.sent (same_world (sign_pset client pset extract_raw_tx w))
      ∙ laws.sent-sign_pset pset w

  sent-broadcast_transaction :
      (hex : String) (w : World)
      → laws.sent ((ocean_wallet client lib account).broadcast_transaction hex w).1
        ≡ laws.sent w ++ (hex ∷ [])
  unfolding broadcast_transaction
  sent-broadcast_transaction hex w =
      ap laws.sent (same_world (broadcast_transaction client hex w))
      ∙ laws.sent-broadcast_transaction hex w

  -- The service keeps what a trade asks of a wallet.
  pub ocean_laws : WalletLaws (ocean_wallet client lib account)
  ocean_laws = record {
    sent = laws.sent;
    sent-get_address = sent-get_address;
    sent-select_utxos = sent-select_utxos;
    sent-sign_pset = sent-sign_pset;
    sent-broadcast_transaction = sent-broadcast_transaction;
  }
