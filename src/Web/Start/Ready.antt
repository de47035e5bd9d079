-- ===== src/Web/Start/Ready.antt =====
-- What holds when the router starts to serve.
use banco.Prelude.{true, Option, none, some, lookup, ◌≡◌, sym, ap, ◌∙◌}
use banco.App.{supported_networks}
use banco.Call.{>>=_ok, done}
use banco.Esplora.Client.{new_esplora}
use banco.Float.{Float64}
use banco.Ocean.Client.{Client}
use banco.Ocean.Start.{has_label, new_wallet_service}
use banco.Ocean.Ready.{AccountLaws, WasReady, new_wallet_service-WasReady}
use banco.Prelude.Int.{negsuc}
use banco.Rates.{Websocket, new_kraken_client}
use banco.Store.Init.{InitLib, init_db}
use banco.Result.{Result, ok, err, panic, ok-injective}
use banco.Web.Start.{
  Config, Server, or_default, network_name, account_name, is_positive, or_fatal, fatal,
}
use banco.Web.Start.{fatally, subscribed, start}

fatal_ok : {A : Type 0} (o : Option A) (a : A) → fatal o ≡ ok a → o ≡ some a
fatal_ok none a h = cc h
fatal_ok (some x) a h = cc h

or_fatal_ok : {A : Type 0} (r : Result A) (a : A) → or_fatal r ≡ ok a → r ≡ ok a
or_fatal_ok (ok x) a h = h
or_fatal_ok (err e) a h = cc h
or_fatal_ok panic a h = cc h

module _ (float : Float64) (client : Client) (laws : AccountLaws client)
    (ws : Websocket client.World) (files : InitLib client.World) where
  open float use {Float}
  open client use {World}

  -- The router serves only where the configured network is supported; then it has that network's
  -- parameters and a client of its explorer, the wallet was initialized and unlocked and had the
  -- account of the configured name, and the poll runs exactly if the interval is positive.
  pub start-Ready :
      (config : Config) (w w' : World) (server : Server Float)
      → start float client ws files config w ≡ (ok server, w')
      → (lookup (network_name config) supported_networks ≡ some server.net)
        × (new_esplora (network_name config) ≡ ok server.esplora)
        × (server.net_name ≡ network_name config)
        × (server.is_watching ≡ is_positive (or_default config.watch_interval_seconds (negsuc 0)))
        × WasReady client laws
        × ((w₁ : World) × (has_label (account_name config) (laws.labels w₁) ≡ true))
  unfolding start
  start-Ready config w w' server h =
      let name = network_name config in
      let url = or_default config.ocean_url "localhost:18000" in
      let (net, known, h₁) =
        >>=_ok (done (fatal (lookup name supported_networks))) _ w w' server h in
      let db = fatally float client ws files (init_db files) in
      let (u, made, h₂) = >>=_ok db _ w w' server h₁ in
      let w₁ = (db w).1 in
      let service = new_wallet_service client url (account_name config) in
      let (v, ready, h₃) = >>=_ok (fatally float client ws files service) _ w₁ w' server h₂ in
      let w₂ = (service w₁).1 in
      let (esplora, found, h₄) = >>=_ok (done (or_fatal (new_esplora name))) _ w₂ w' server h₃ in
      let (kc, connected, h₅) = >>=_ok (new_kraken_client float ws) _ w₂ w' server h₄ in
      let w₃ = (new_kraken_client float ws w₂).1 in
      let (rates, listens, h₆) = >>=_ok (subscribed float client ws files kc) _ w₃ w' server h₅ in
      let is_server = ok-injective (ap (λ q. q.0) h₆) in
      let (was_ready, labelled) =
        new_wallet_service-WasReady client laws url (account_name config) w₁ w₂
          (ap (λ r. (r, w₂)) (or_fatal_ok (service w₁).0 v ready)) in
      (
        fatal_ok (lookup name supported_networks) net known ∙ ap (λ s. some s.net) is_server,
        or_fatal_ok (new_esplora name) esplora found ∙ ap (λ s. ok s.esplora) is_server,
        ap (λ s. s.net_name) (sym is_server),
        ap (λ s. s.is_watching) (sym is_server),
        was_ready,
        (w₂, labelled),
      )
