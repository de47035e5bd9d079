-- ===== src/Rates/Feed.antt =====
-- The steps of the goroutines that Subscribe starts, in any order.
use banco.Prelude.{List, [], ◌∷◌, ◌++◌, none, some, true, false, ◌≡◌}
use banco.Float.{Float64}
use banco.Rates.{Kraken, insert, usdt_pair, par_pair, par}

module _ (float : Float64) where
  open float use {Float}

  -- The listener hears messages of the exchange only while it waits for none to be taken; its
  -- messages are the prices that it could parse.
  pub data Step : Kraken Float → List Float → Kraken Float → Type 0 where
    -- a ticker update, with a price that parses
    heard :
        (kc : Kraken Float) (price : Float)
        → kc.listening ≡ true
        → kc.sending ≡ none
        → Step kc (price ∷ []) (record kc { sending = some price })
    -- a ticker update with a price that does not parse: `continue`
    misheard : (kc : Kraken Float) → kc.listening ≡ true → kc.sending ≡ none → Step kc [] kc
    -- any other message: `return`; or the end of the feed
    left :
        (kc : Kraken Float)
        → kc.listening ≡ true
        → kc.sending ≡ none
        → Step kc [] (record kc { listening = false })
    -- the reader of L-BTC/USDT takes the price, and writes it
    taken :
        (kc : Kraken Float) (price : Float)
        → kc.sending ≡ some price
        → kc.held_usdt ≡ none
        → Step kc [] (record kc { sending = none; held_usdt = some price })
    written :
        (kc : Kraken Float) (price : Float)
        → kc.held_usdt ≡ some price
        → Step kc []
            (record kc { last_prices = insert usdt_pair price kc.last_prices; held_usdt = none })
    -- the reader of L-BTC/L-BTC takes 1.00, and writes what it took
    ticked :
        (kc : Kraken Float)
        → kc.ticking ≡ true
        → kc.held_par ≡ none
        → Step kc [] (record kc { held_par = some (par float) })
    par_written :
        (kc : Kraken Float) (price : Float)
        → kc.held_par ≡ some price
        → Step kc []
            (record kc { last_prices = insert par_pair price kc.last_prices; held_par = none })

  -- A run, with the prices that were heard in it.
  pub data Run (start : Kraken Float) : List Float → Kraken Float → Type 0 where
    stopped : Run start [] start
    after :
        {prices more : List Float} {kc kc' : Kraken Float}
        → Run start prices kc
        → Step kc more kc'
        → Run start (prices ++ more) kc'
