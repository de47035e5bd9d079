-- ===== src/App.antt =====
-- The helpers of app.go on networks and addresses.
use banco.Prelude.{
  ℕ, String, List, [], ◌∷◌, Option, none, some, lookup, ◌≡◌, refl, str_eq, if◌then◌else◌,
}
use banco.Offer.Funding.{Network, liquid, testnet, regtest}
use banco.Call.{Call, ◌>>=◌, done}
use banco.Result.{Result, ok, ◌>>=◌ as then_result, or_error, address_failed}
use banco.Esplora.Client.{Transaction, Http, new_esplora, fetch_transaction_history}
pub mod Networks

unfoldable pub supported_networks : List (String × Network)
supported_networks = ("liquid", liquid) ∷ ("testnet", testnet) ∷ ("regtest", regtest) ∷ []

-- address.ToOutputScript, sha256.Sum256, and NewHash and String of chainhash.
pub record HashLib : Type 1 where
  pub Hash : Type 0
  pub to_output_script : String → Option (List ℕ)
  pub sum256 : List ℕ → List ℕ
  pub new_hash : List ℕ → Option Hash
  pub hash_string : Hash → String

-- `ScriptHashFromAddress`
unfoldable pub script_hash_from_address : HashLib → String → Result String
script_hash_from_address lib addr =
    then_result (or_error (lib.to_output_script addr) address_failed) λ script.
      then_result (or_error (lib.new_hash (lib.sum256 script)) address_failed)
        λ hash. ok (lib.hash_string hash)

-- `getTransactionsForAddress`
unfoldable pub get_transactions_for_address :
    {Prevout World : Type 0} → Http Prevout World → String → String → Call World (List Transaction)
get_transactions_for_address http addr network_name = do
  esplora ← done (new_esplora network_name)
  fetch_transaction_history http esplora addr
