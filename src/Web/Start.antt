-- ===== src/Web/Start.antt =====
-- The start of the program: main up to the router.
use banco.Prelude.{ℕ, zero, suc, String, Bool, Option, none, some, lookup, ltb, ◌||◌, not}
use banco.Prelude.Int.{ℤ, pos, negsuc}
use banco.App.{supported_networks}
use banco.Call.{Call, ◌>>=◌, done}
use banco.Esplora.Client.{Esplora, new_esplora}
use banco.Float.{Float64}
use banco.Ocean.Client.{Client}
use banco.Ocean.Start.{new_wallet_service}
use banco.Offer.Funding.{Network}
use banco.Rates.{Kraken, Websocket, new_kraken_client, subscribe}
use banco.Store.Init.{InitLib, init_db}
use banco.Result.{Result, ok, err, panic}
pub mod Ready

-- The environment's variables; where one is not set, the default holds.
pub record Config : Type 0 where
  pub web_dir : Option String
  pub ocean_url : Option String
  pub ocean_account_name : Option String
  pub watch_interval_seconds : Option ℤ
  pub network : Option String

abbrev pub or_default {ℓ} : {A : Type ℓ} → Option A → A → A
or_default none d = d
or_default (some a) d = a

abbrev pub network_name : Config → String
network_name c = or_default c.network "liquid"

abbrev pub account_name : Config → String
account_name c = or_default c.ocean_account_name "default"

-- `watchInterval > 0`; the default is -1
abbrev pub is_positive : ℤ → Bool
is_positive (pos n) = ltb 0 n
is_positive (negsuc n) = Bool.false

-- log.Fatal ends the process where there is an error.
abbrev pub or_fatal : {A : Type 0} → Result A → Result A
or_fatal (ok a) = ok a
or_fatal (err e) = panic
or_fatal panic = panic

abbrev pub fatal {ℓ} : {A : Type ℓ} → Option A → Result A
fatal none = panic
fatal (some a) = ok a

-- What the router serves with.
pub record Server (Price : Type 0) : Type 0 where
  pub net : Network
  pub net_name : String
  pub esplora : Esplora
  pub is_watching : Bool
  pub rates : Kraken Price

module _ (float : Float64) (client : Client) (ws : Websocket client.World)
    (files : InitLib client.World) where
  open float use {Float}
  open client use {World}

  abbrev pub fatally : {A : Type 0} → Call World A → Call World A
  fatally m w = let (r, w') = m w in (or_fatal r, w')

  -- NewKrakenClient and Subscribe
  abbrev pub client_of : Result (Unit {0}) × Kraken Float → Result (Kraken Float)
  client_of (ok u, kc) = ok kc
  client_of (err e, kc) = panic
  client_of (panic, kc) = panic

  abbrev pub subscribed : Kraken Float → Call World (Kraken Float)
  subscribed kc w = let (r, w') = subscribe float ws kc w in (client_of r, w')

  -- `main`, until the router is made
  unfoldable pub start : Config → Call World (Server Float)
  start config = do
    net ← done (fatal (lookup (network_name config) supported_networks))
    u ← fatally (init_db files)
    v ← fatally (
        new_wallet_service client (or_default config.ocean_url "localhost:18000")
          (account_name config))
    esplora ← done (or_fatal (new_esplora (network_name config)))
    kc ← new_kraken_client float ws
    rates ← subscribed kc
    done (
        ok (record {
          net = net;
          net_name = network_name config;
          esplora = esplora;
          is_watching = is_positive (or_default config.watch_interval_seconds (negsuc 0));
          rates = rates;
        }))
