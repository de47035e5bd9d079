-- ===== src/Ocean/Start.antt =====
-- NewWalletService.
use banco.Prelude.{String, Bool, false, List, [], ◌∷◌, ◌||◌, ◌&&◌, if◌then◌else◌, str_eq}
use banco.Call.{Call, ◌>>=◌, ask, done}
use banco.Result.{ok, err, rpc_failed, wallet_not_ready}
use banco.Ocean.Client.{StatusReply, Client}
use banco.Ocean.Service.{status}

-- The loop over the accounts, which ends at the first with the label.
unfoldable pub has_label : String → List String → Bool
has_label label [] = false
has_label label (l ∷ ls) = str_eq l label || has_label label ls

module _ (client : Client) where
  open client use {World}

  abbrev pub require_ready : StatusReply → Call World (Unit {0})
  require_ready reply =
      done (if reply.initialized && reply.unlocked then ok tt else err wallet_not_ready)

  unfoldable pub accounts_of : Call World (List String)
  accounts_of = ask client.get_info rpc_failed

  abbrev pub created : String → Call World (Unit {0})
  created label = ask (client.create_account label) rpc_failed

  -- The account is made where no label is its own.
  unfoldable pub ensure_account : String → List String → Call World (Unit {0})
  ensure_account label labels = if has_label label labels then done (ok tt) else created label

  unfoldable pub connect : String → Call World (Unit {0})
  connect addr = ask (client.dial addr) rpc_failed

  -- `NewWalletService`, for the service that has the address and the account name
  unfoldable pub new_wallet_service : String → String → Call World (Unit {0})
  unfolding connect accounts_of
  new_wallet_service addr account_name = do
    u ← connect addr
    reply ← status client
    v ← require_ready reply
    labels ← accounts_of
    ensure_account account_name labels
