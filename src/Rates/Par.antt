-- ===== src/Rates/Par.antt =====
-- The price of L-BTC in L-BTC.
use banco.Prelude.{List, [], Option, none, some, ◌≡◌, refl, sym, ◌⊎◌, inl, inr, lookup}
use banco.Prelude.{eq_iff, subst}
use banco.Float.{Float64}
use banco.Result.{ok, err, price_missing}
use banco.Rates.{Kraken, usdt_pair, par_pair, par, market_price}
use banco.Rates.Lookup.{lookup-insert, lookup-insert_other}
use banco.Rates.Feed.{Step, heard, misheard, left, taken, written, ticked, par_written}
use banco.Rates.Feed.{Run, stopped, after}

module _ (float : Float64) where
  open float use {Float}

  abbrev pub IsParOrNone : Option Float → Type 0
  IsParOrNone o = (o ≡ none) ⊎ (o ≡ some (par float))

  record AtPar (kc : Kraken Float) : Type 0 where
    shown : IsParOrNone (lookup par_pair kc.last_prices)
    held : IsParOrNone kc.held_par

  names_differ : ¬ (usdt_pair ≡ par_pair)
  names_differ e = cc ((eq_iff usdt_pair par_pair).1 e)

  taken_price : (o : Option Float) (p : Float) → o ≡ some p → IsParOrNone o → IsParOrNone (some p)
  taken_price o p e h = subst IsParOrNone e h

  Step-AtPar :
      {kc kc' : Kraken Float} {prices : List Float}
      → Step float kc prices kc'
      → AtPar kc
      → AtPar kc'
  Step-AtPar (heard kc price l s) h = record { shown = h.shown; held = h.held }
  Step-AtPar (misheard kc l s) h = h
  Step-AtPar (left kc l s) h = record { shown = h.shown; held = h.held }
  Step-AtPar (taken kc price s n) h = record { shown = h.shown; held = h.held }
  Step-AtPar (written kc price s) h = record {
    shown =
        subst IsParOrNone
          (sym (lookup-insert_other par_pair usdt_pair price kc.last_prices names_differ)) h.shown;
    held = h.held;
  }
  Step-AtPar (ticked kc t n) h = record { shown = h.shown; held = inr refl }
  Step-AtPar (par_written kc price s) h = record {
    shown =
        subst IsParOrNone (sym (lookup-insert par_pair price kc.last_prices))
          (taken_price kc.held_par price s h.held);
    held = inl refl;
  }

  Run-AtPar :
      {start kc : Kraken Float} {prices : List Float}
      → Run float start prices kc
      → AtPar start
      → AtPar kc
  Run-AtPar stopped h = h
  Run-AtPar (after run step) h = Step-AtPar step (Run-AtPar run h)

  -- From a client without prices, in every run of the goroutines, whatever the exchange sends, the
  -- price of L-BTC in L-BTC is missing or it is 1.00.
  pub market_price-par :
      (start kc : Kraken Float) (prices : List Float)
      → start.last_prices ≡ []
      → start.held_par ≡ none
      → Run float start prices kc
      → (market_price float kc "L-BTC" "L-BTC" ≡ err price_missing)
        ⊎ (market_price float kc "L-BTC" "L-BTC" ≡ ok (par float))
  unfolding market_price
  market_price-par start kc prices e n run =
      let fresh : AtPar start = record { shown = inl (rw e refl); held = inl n } in
      elim ((Run-AtPar run fresh).shown) [
        | inl missing ↦ inl (rw missing refl)
        | inr there ↦ inr (rw there refl)
      ]
