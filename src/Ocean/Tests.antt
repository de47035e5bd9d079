-- ===== src/Ocean/Tests.antt =====
-- The service over a daemon whose state is what it was asked to broadcast and the labels of its
-- accounts.
use banco.Prelude.{ℕ, String, true, false, List, [], ◌∷◌, ◌++◌, ◌≡◌, refl, none, some, sym}
use banco.Prelude.{eq_iff}
use banco.Prelude.Int.{pos}
use banco.Result.{ok}
use banco.Ocean.Client.{StatusReply, Client}
use banco.Ocean.Service.{OutputLib, ocean_wallet, get_address, select_utxos, utxo_of_coin, status}
use banco.Ocean.Service.{balance, to_proto, transfer}
use banco.Ocean.Start.{has_label, new_wallet_service, connect, accounts_of, ensure_account}
use banco.Ocean.Notify.{forward, notification}
use banco.Ocean.Broadcasts.{ClientLaws, ocean_laws}
use banco.Trade.Sends.{WalletLaws}
use banco.Ocean.Answers.{IsFirst, derived, get_address-IsFirst}
use banco.Ocean.Ready.{AccountLaws, WasReady, new_wallet_service-WasReady}
use banco.Hex.{decoded_string, decoded_codes}

abbrev pub State : Type 0
State = List String × List String

abbrev ready_reply : StatusReply
ready_reply = record { initialized = true; unlocked = true; synced = false }

-- A daemon that gives the addresses of its argument.
abbrev pub daemon : List String → Client
daemon addresses = record {
  World = State;
  dial = λ addr w. (some tt, w);
  status = λ w. (some ready_reply, w);
  get_info = λ w. (some w.1, w);
  create_account = λ label w. (some tt, (w.0, label ∷ w.1));
  balance = λ account w. (some (("b", record { confirmed = 7; unconfirmed = 1 }) ∷ []), w);
  derive_addresses = λ account n w. (some addresses, w);
  derive_change_addresses = λ account n w. (some addresses, w);
  select_utxos = λ account asset amount w. (
    some (record { txid = "t"; index = 1; asset = asset; value = amount; script = "51zz" } ∷ [], 0),
    w,
  );
  sign_pset = λ pset w. (some pset, w);
  transfer = λ account outs rate w. (some "00", w);
  broadcast_transaction = λ hex w. (some "id", (w.0 ++ (hex ∷ []), w.1));
  watch_external_script = λ script w. (some tt, w);
  transaction_notifications = λ w. (some tt, w);
  close = λ w. w;
}

abbrev pub client : Client
client = daemon ("ex1q" ∷ [])

abbrev lib : OutputLib
lib = record {
  Prevout = (List ℕ × List ℕ) × List ℕ;
  to_output_script = λ addr. some (0x51 ∷ []);
  asset_hash_to_bytes = λ asset. 1 ∷ [];
  value_to_bytes = λ value. value ∷ [];
  new_tx_output = λ asset value script. ((asset, value), script);
}

abbrev client_laws : ClientLaws client
client_laws = record {
  sent = λ w. w.0;
  sent-derive_addresses = λ account n w. refl;
  sent-derive_change_addresses = λ account n w. refl;
  sent-select_utxos = λ account asset amount w. refl;
  sent-sign_pset = λ pset w. refl;
  sent-broadcast_transaction = λ hex w. refl;
}

abbrev nothing : State
nothing = ([], [])

-- The service over this daemon is a wallet that a trade can use.
client_wallet_laws : WalletLaws (ocean_wallet client lib "default")
client_wallet_laws = ocean_laws client lib client_laws "default"

first_address : (get_address client lib "default" false nothing).0 ≡ ok ("ex1q", 0x51 ∷ [])
unfolding get_address
first_address = refl

daemon_address :
    IsFirst client lib (derived client lib "default" false nothing).0 ("ex1q", 0x51 ∷ [])
daemon_address =
    get_address-IsFirst client lib "default" false nothing ("ex1q", 0x51 ∷ []) first_address

-- A daemon that gives no address: the service gives an empty one, and no error.
no_address : (get_address (daemon []) lib "default" true nothing).0 ≡ ok ("", [])
unfolding get_address
no_address = refl

pub new_label :
    (label : String) (w : State) (u : Unit {0})
    → (client.create_account label w).0 ≡ some u
    → has_label label (client.create_account label w).1.1 ≡ true
unfolding has_label
new_label label w u e = rw ((eq_iff label label).1 refl) refl

pub some_eq : {A : Type 0} {x y : A} → some x ≡ some y → x ≡ y
some_eq e = cc

abbrev pub account_laws : AccountLaws client
account_laws = record {
  labels = λ w. w.1;
  get_info-labels = λ w ls e. sym (some_eq e);
  labels-create_account = new_label;
}

started :
    new_wallet_service client "localhost:18000" "default" nothing ≡ (ok tt, ([], "default" ∷ []))
unfolding new_wallet_service connect status accounts_of ensure_account has_label
started = refl

ready_service : WasReady client account_laws × (has_label "default" ("default" ∷ []) ≡ true)
ready_service =
    new_wallet_service-WasReady client account_laws "localhost:18000" "default" nothing
      ([], "default" ∷ []) started

-- The script of a coin that is no hex text is what stands before the first bad pair.
cut_script :
    (select_utxos client lib "default" "b" 5 nothing).0
    ≡ ok (
      record {
        txid = "t";
        index = 1;
        value = 5;
        prevout = ((1 ∷ [], 5 ∷ []), 0x51 ∷ []);
        confirmed = true;
      }
          ∷ [],
      0,
    )
unfolding select_utxos utxo_of_coin decoded_string decoded_codes
cut_script = refl

balance_of_asset :
    (balance client "default" "b" nothing).0
    ≡ ok (record { available_balance = 7; pending_balance = 1 })
unfolding balance
balance_of_asset = refl

paid_out :
    (transfer client "default" (record { amount = 3; asset = "b"; script = "51" } ∷ []) nothing).0
    ≡ ok "00"
unfolding transfer to_proto
paid_out = refl

-- The loop ends at the first error: the event behind it is lost.
cut_stream :
    forward (
      some (record { txid = "t"; block_time = some (pos 9) })
      ∷ none
      ∷ some (record { txid = "u"; block_time = none })
      ∷ [])
    ≡ record { tx_id = "t"; confirmed = true; timestamp = pos 9 } ∷ []
unfolding forward notification
cut_stream = refl
