-- ===== src/Rates/Stale.antt =====
-- The price after the listener has left its loop.
use banco.Prelude.{List, [], ◌++◌, none, false, ◌≡◌, refl, ap, ◌∙◌}
use banco.Prelude.{lookup, eq_iff}
use banco.Float.{Float64}
use banco.Result.{or_error, price_missing}
use banco.Rates.{Kraken, usdt_pair, par_pair, market_price}
use banco.Rates.Lookup.{lookup-insert_other}
use banco.Rates.Feed.{Step, heard, misheard, left, taken, written, ticked, par_written}
use banco.Rates.Feed.{Run, stopped, after}

module _ (float : Float64) where
  open float use {Float}

  -- Nothing is to come on the channel of L-BTC/USDT, and the price shown is that of `from`.
  record IsOver (from : Kraken Float) (prices : List Float) (kc : Kraken Float) : Type 0 where
    unheard : prices ≡ []
    deaf : kc.listening ≡ false
    sent : kc.sending ≡ none
    stored : kc.held_usdt ≡ none
    shown : lookup usdt_pair kc.last_prices ≡ lookup usdt_pair from.last_prices

  names_differ : ¬ (par_pair ≡ usdt_pair)
  names_differ e = cc ((eq_iff par_pair usdt_pair).1 e)

  Step-IsOver :
      {from kc kc' : Kraken Float} {prices more : List Float}
      → Step float kc more kc'
      → IsOver from prices kc
      → IsOver from (prices ++ more) kc'
  Step-IsOver (heard kc price l s) h = absurd (cc (l, h.deaf))
  Step-IsOver (misheard kc l s) h = absurd (cc (l, h.deaf))
  Step-IsOver (left kc l s) h = absurd (cc (l, h.deaf))
  Step-IsOver (taken kc price s n) h = absurd (cc (s, h.sent))
  Step-IsOver (written kc price s) h = absurd (cc (s, h.stored))
  Step-IsOver (ticked kc t n) h = record {
    unheard = ap (λ ps. ps ++ []) h.unheard;
    deaf = h.deaf;
    sent = h.sent;
    stored = h.stored;
    shown = h.shown;
  }
  Step-IsOver (par_written kc price s) h = record {
    unheard = ap (λ ps. ps ++ []) h.unheard;
    deaf = h.deaf;
    sent = h.sent;
    stored = h.stored;
    shown = lookup-insert_other usdt_pair par_pair price kc.last_prices names_differ ∙ h.shown;
  }

  Run-IsOver :
      {start kc : Kraken Float} {prices : List Float}
      → Run float start prices kc
      → IsOver start [] start
      → IsOver start prices kc
  Run-IsOver stopped h = h
  Run-IsOver (after run step) h = Step-IsOver step (Run-IsOver run h)

  -- Once the listener has left its loop and its last price is written, no run of the goroutines hears
  -- a price again, and MarketPrice of L-BTC in USDT answers the same for ever.
  pub market_price_stale :
      (start kc : Kraken Float) (prices : List Float)
      → start.listening ≡ false
      → start.sending ≡ none
      → start.held_usdt ≡ none
      → Run float start prices kc
      → (prices ≡ [])
        × (market_price float kc "L-BTC" "USDT" ≡ market_price float start "L-BTC" "USDT")
  unfolding market_price
  market_price_stale start kc prices l s n run =
      let over : IsOver start prices kc =
        Run-IsOver run (record { unheard = refl; deaf = l; sent = s; stored = n; shown = refl }) in
      (over.unheard, ap (λ o. or_error o price_missing) over.shown)
