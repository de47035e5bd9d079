-- ===== src/Web/Stream.antt =====
-- The handler of /offer/:id/transactions: a stream of events, one for each notification.
use banco.Prelude.{String, Bool, true, false, List, [], ◌∷◌, Option, none, some}
use banco.Prelude.Int.{ℤ}
use banco.Ocean.Notify.{TransactionNotification}
use banco.Result.{Result, ok, err, panic}
use banco.Call.{Call}
use banco.Float.{Float64}
use banco.Web.Response.{TxRow, TxLists, error_json, answer}
use banco.Web.Handler.{Handler, ◌>>=◌, going, or_reply, on_world}
use banco.Web.Rows.{tx_row, add_row, no_rows}

-- What the `select` of a round gives: the request is over, or there is a notification.
pub data Signal : Type 0 where
  over : Signal
  notified : TransactionNotification → Signal

-- What a round sends: the lists as text, or an error.
pub data Event : Type 0 where
  transactions : String → Event
  failure : Event

-- html/template, with the template's file read in each round, and the newlines replaced.
module _ (render : TxLists → Option String) (format_unix : ℤ → String) (network_name : String) where
  -- The event, and whether the stream goes on.
  abbrev event_of : Option String → Event × Bool
  event_of none = (failure, false)
  event_of (some html) = (transactions html, true)

  abbrev shown : Result TxRow → Result (Event × Bool)
  shown panic = panic
  shown (err e) = err e
  shown (ok row) = ok (event_of (render (add_row row no_rows)))

  -- A round for a notification, with lists that are empty at its start.
  unfoldable pub send_notification : TransactionNotification → Result (Event × Bool)
  unfolding add_row
  send_notification n = shown (tx_row format_unix network_name n.tx_id n.confirmed n.timestamp)

  abbrev ended : Result (Event × Bool) → List Event → List Event
  ended (ok (event, true)) later = event ∷ later
  ended (ok (event, false)) later = event ∷ []
  ended (err e) later = []
  ended panic later = []

  -- The events of a stream, for what the rounds are given.
  unfoldable pub stream : List Signal → List Event
  unfolding send_notification
  stream [] = []
  stream (over ∷ rest) = []
  stream (notified n ∷ rest) = ended (send_notification n) (stream rest)

  -- GET /offer/:id/transactions, over the method TransactionNotifications of the wallet service
  unfoldable pub get_transactions :
      {float : Float64} {World : Type 0}
      → Call World (Unit {0})
      → List Signal
      → Handler float World (List Event)
  unfolding stream
  get_transactions transaction_notifications signals =
      or_reply (on_world transaction_notifications) (λ e. answer 500 (error_json e)) >>= λ u n.
      (going (stream signals), n)
