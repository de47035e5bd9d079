-- ===== src/Ocean/Notify.antt =====
-- TransactionNotifications: what the goroutine sends on for what the stream gives.
use banco.Prelude.{String, Bool, true, false, List, [], ◌∷◌, Option, none, some}
use banco.Prelude.Int.{ℤ, pos}
use banco.Ocean.Client.{TxEvent}

pub record TransactionNotification : Type 0 where
  pub tx_id : String
  pub confirmed : Bool
  pub timestamp : ℤ

abbrev notification_at : String → Option ℤ → TransactionNotification
notification_at tx_id none = record { tx_id = tx_id; confirmed = false; timestamp = pos 0 }
notification_at tx_id (some time) = record { tx_id = tx_id; confirmed = true; timestamp = time }

unfoldable pub notification : TxEvent → TransactionNotification
notification event = notification_at event.txid event.block_time

-- The loop of the goroutine over the answers of `Recv`: it ends at the first error, for good.
unfoldable pub forward : List (Option TxEvent) → List TransactionNotification
unfolding notification
forward [] = []
forward (none ∷ rest) = []
forward (some event ∷ rest) = notification event ∷ forward rest
