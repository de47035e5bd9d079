-- ===== src/Esplora/Tests.antt =====
-- An explorer that serves the same answer for every request of a kind.
use banco.Prelude.{ℕ, String, true, List, [], ◌∷◌, Option, some, ◌≡◌, ◌↔◌, refl}
use banco.Prelude.Int.{pos, negsuc}
use banco.Trade.Types.{Utxo}
use banco.Result.{ok, err, panic, unknown_network}
use banco.Esplora.Client.{Esplora, Unspent, Http, new_esplora, esplora_api_urls, fetch_body}
use banco.Esplora.Client.{fetch_prevout, prevout_url, unspents_url, history_url, add_prevouts}
use banco.Esplora.Client.{fetch_unspents, fetch_transaction_history}
use banco.Esplora.Panics.{LacksOutput, fetch_prevout_panics}
use banco.Esplora.Unspents.{AllFetched, fetch_unspents-AllFetched}

abbrev an_unspent : Unspent
an_unspent = record { txid = "t"; index = pos 1; value = 5; confirmed = true }

-- The body is the address of the request; the outputs of a transaction are numbers.
abbrev http : Http ℕ (List String)
http = record {
  Response = String;
  get = λ url w. (some url, url ∷ w);
  read_all = λ response w. (some response, w);
  parse_transactions =
      λ body. some (record { tx_id = body; confirmed = true; block_time = pos 0 } ∷ []);
  parse_unspents = λ body. some (some an_unspent ∷ []);
  new_tx_from_hex = λ body. some (7 ∷ 8 ∷ []);
}

abbrev regtest : Esplora
regtest = record { base_api_url = "http://localhost:3001"; network_name = "regtest" }

known : new_esplora "regtest" ≡ ok regtest
unfolding new_esplora esplora_api_urls
known = refl

unknown : new_esplora "mainnet" ≡ err unknown_network
unfolding new_esplora esplora_api_urls
unknown = refl

abbrev the_coin : Utxo ℕ
the_coin = record { txid = "t"; index = 1; value = 5; prevout = 8; confirmed = true }

abbrev requests : List String
requests = "http://localhost:3001/tx/t/hex" ∷ "http://localhost:3001/address/a/utxo" ∷ []

coins_of_address : fetch_unspents http regtest "a" [] ≡ (ok (the_coin ∷ []), requests)
unfolding fetch_unspents add_prevouts fetch_prevout fetch_body prevout_url unspents_url
coins_of_address = refl

fetch_unspents-AllFetched_example :
    (body : String) × (us : List (Option Unspent)) × ((fetch_body http
        (unspents_url regtest "a")
        []).0
      ≡ ok body)
    × (http.parse_unspents body ≡ some us)
    × AllFetched http regtest us (the_coin ∷ [])
fetch_unspents-AllFetched_example =
    fetch_unspents-AllFetched http regtest "a" [] requests (the_coin ∷ []) coins_of_address

fetch_prevout_panics_example :
    ((fetch_prevout http regtest "t" (negsuc 0) []).0 ≡ panic)
    ↔ LacksOutput http (negsuc 0) (fetch_body http (prevout_url regtest "t") []).0
fetch_prevout_panics_example = fetch_prevout_panics http regtest "t" (negsuc 0) []

-- The transaction has two outputs.
out_of_range : (fetch_prevout http regtest "t" (pos 2) []).0 ≡ panic
unfolding fetch_prevout fetch_body prevout_url
out_of_range = refl

history :
    (fetch_transaction_history http regtest "a" []).0
    ≡ ok (
        record {
          tx_id = "http://localhost:3001/address/a/txs";
          confirmed = true;
          block_time = pos 0;
        }
        ∷ [])
unfolding fetch_transaction_history fetch_body history_url
history = refl
