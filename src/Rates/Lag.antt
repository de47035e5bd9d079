-- ===== src/Rates/Lag.antt =====
-- How far the price that is shown lies behind the prices of the exchange.
use banco.Prelude.{◌≤◌, List, [], ◌∷◌, ◌++◌, Option, none, some, ◌≡◌, refl, sym, ap, ◌∙◌}
use banco.Prelude.{lookup, length, append_assoc, append-nil, arith, eq_iff}
use banco.Float.{Float64}
use banco.Result.{or_error, price_missing}
use banco.Rates.{Kraken, usdt_pair, par_pair, market_price}
use banco.Rates.Lookup.{lookup-insert, lookup-insert_other}
use banco.Rates.Feed.{Step, heard, misheard, left, taken, written, ticked, par_written}
use banco.Rates.Feed.{Run, stopped, after}

unfoldable pub last {ℓ} : {A : Type ℓ} → List A → Option A
last [] = none
last (x ∷ []) = some x
last (x ∷ y ∷ xs) = last (y ∷ xs)

last-append {ℓ} : {A : Type ℓ} (xs : List A) (x : A) → last (xs ++ (x ∷ [])) ≡ some x
unfolding last
last-append [] x = refl
last-append (y ∷ []) x = refl
last-append (y ∷ z ∷ xs) x = last-append (z ∷ xs) x

abbrev pub to_list {ℓ} : {A : Type ℓ} → Option A → List A
to_list none = []
to_list (some a) = a ∷ []

module _ (float : Float64) where
  open float use {Float}

  -- The prices that were heard are those that were written, then the one that the reader holds, then
  -- the one that the listener sends; the last that was written is shown.
  record IsBehind (prices : List Float) (kc : Kraken Float) : Type 0 where
    stored : List Float
    split : prices ≡ stored ++ (to_list kc.held_usdt ++ to_list kc.sending)
    shown : lookup usdt_pair kc.last_prices ≡ last stored

  names_differ : ¬ (par_pair ≡ usdt_pair)
  names_differ e = cc ((eq_iff par_pair usdt_pair).1 e)

  same_split :
      (prices stored : List Float) (held sending : Option Float)
      → prices ≡ stored ++ (to_list held ++ to_list sending)
      → prices ++ [] ≡ stored ++ (to_list held ++ to_list sending)
  same_split prices stored held sending e = append-nil prices ∙ e

  heard_split :
      (prices stored : List Float) (held sending : Option Float) (price : Float)
      → sending ≡ none
      → prices ≡ stored ++ (to_list held ++ to_list sending)
      → prices ++ (price ∷ []) ≡ stored ++ (to_list held ++ (price ∷ []))
  heard_split prices stored held sending price n e =
      ap (λ ps. ps ++ (price ∷ []))
        (e
          ∙ ap (λ s. stored ++ (to_list held ++ to_list s)) n
          ∙ ap (λ hs. stored ++ hs) (append-nil (to_list held)))
      ∙ append_assoc stored (to_list held) (price ∷ [])

  Step-IsBehind :
      {kc kc' : Kraken Float} {prices more : List Float}
      → Step float kc more kc'
      → IsBehind prices kc
      → IsBehind (prices ++ more) kc'
  Step-IsBehind {prices = prices} (heard kc price l s) h = record {
    stored = h.stored;
    split = heard_split prices h.stored kc.held_usdt kc.sending price s h.split;
    shown = h.shown;
  }
  Step-IsBehind {prices = prices} (misheard kc l s) h = record {
    stored = h.stored;
    split = same_split prices h.stored kc.held_usdt kc.sending h.split;
    shown = h.shown;
  }
  Step-IsBehind {prices = prices} (left kc l s) h = record {
    stored = h.stored;
    split = same_split prices h.stored kc.held_usdt kc.sending h.split;
    shown = h.shown;
  }
  Step-IsBehind {prices = prices} (taken kc price s n) h = record {
    stored = h.stored;
    split =
        append-nil prices
        ∙ h.split
        ∙ ap (λ o. h.stored ++ (to_list o ++ to_list kc.sending)) n
        ∙ ap (λ o. h.stored ++ to_list o) s;
    shown = h.shown;
  }
  Step-IsBehind {prices = prices} (written kc price s) h = record {
    stored = h.stored ++ (price ∷ []);
    split =
        append-nil prices
        ∙ h.split
        ∙ ap (λ o. h.stored ++ (to_list o ++ to_list kc.sending)) s
        ∙ sym (append_assoc h.stored (price ∷ []) (to_list kc.sending));
    shown = lookup-insert usdt_pair price kc.last_prices ∙ sym (last-append h.stored price);
  }
  Step-IsBehind {prices = prices} (ticked kc t n) h = record {
    stored = h.stored;
    split = same_split prices h.stored kc.held_usdt kc.sending h.split;
    shown = h.shown;
  }
  Step-IsBehind {prices = prices} (par_written kc price s) h = record {
    stored = h.stored;
    split = same_split prices h.stored kc.held_usdt kc.sending h.split;
    shown = lookup-insert_other usdt_pair par_pair price kc.last_prices names_differ ∙ h.shown;
  }

  Run-IsBehind :
      {start kc : Kraken Float} {prices : List Float}
      → Run float start prices kc
      → IsBehind [] start
      → IsBehind prices kc
  Run-IsBehind stopped h = h
  Run-IsBehind (after run step) h = Step-IsBehind step (Run-IsBehind run h)

  two_at_most : (held sending : Option Float) → length (to_list held ++ to_list sending) ≤ 2
  two_at_most none none = omega arith
  two_at_most none (some s) = omega arith
  two_at_most (some h) none = omega arith
  two_at_most (some h) (some s) = omega arith

  -- From a client without prices, in every run of the goroutines, the prices that were heard from the
  -- exchange are some of them and then at most two more, and MarketPrice of L-BTC in USDT is the last
  -- of the former, or the error that there is none.
  pub market_price_lag :
      (start kc : Kraken Float) (prices : List Float)
      → start.last_prices ≡ []
      → start.held_usdt ≡ none
      → start.sending ≡ none
      → Run float start prices kc
      → (stored : List Float) × (waiting : List Float) × (prices ≡ stored ++ waiting)
        × (length waiting ≤ 2)
        × (market_price float kc "L-BTC" "USDT" ≡ or_error (last stored) price_missing)
  unfolding market_price last
  market_price_lag start kc prices e n s run =
      let fresh : IsBehind [] start = record {
        stored = [];
        split = rw (n, s) refl;
        shown = rw e refl;
      } in
      let behind = Run-IsBehind run fresh in
      (
        behind.stored,
        to_list kc.held_usdt ++ to_list kc.sending,
        behind.split,
        two_at_most kc.held_usdt kc.sending,
        ap (λ o. or_error o price_missing) behind.shown,
      )
