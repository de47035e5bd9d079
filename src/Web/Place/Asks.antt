-- ===== src/Web/Place/Asks.antt =====
-- What the form of POST /trade asks NewOrder for.
use banco.Prelude.{String, true, false, List, Option, some, ◌≡◌, refl, ap, ◌∙◌, lookup}
use banco.Prelude.{str_eq, eq_iff, Bool-cases, inl, inr, ◌||◌, Bool, sym, ℕ}
use banco.Currency.{currency_to_asset}
use banco.Float.{Float64}
use banco.Offer.Builder.{ScriptBuilder}
use banco.Offer.Funding.{Network, Taproot}
use banco.Order.{Order}
use banco.Order.New.{Request}
use banco.Order.Placed.{IsPlaced}
use banco.Market.{Market, get_markets, get_trading_pair}
use banco.Market.Pair.{IsAnswer, get_trading_pair-IsAnswer}
use banco.Rates.{Kraken, market_price, fee_percentage}
use banco.Web.Quote.{with_fee, without_fee}
use banco.Web.Place.{Form, is_incomplete, sides_of, request_of}
use banco.Result.{ok, or_error_ok, price_missing}

-- No field of the form is empty.
pub record IsComplete (form : Form) : Type 0 where
  pub amount_given : ¬ (form.amount ≡ "")
  pub pair_given : ¬ (form.pair ≡ "")
  pub type_given : ¬ (form.type ≡ "")
  pub script_given : ¬ (form.trader_script ≡ "")

or_false : (a b : Bool) → (a || b) ≡ false → (a ≡ false) × (b ≡ false)
or_false true b h = cc
or_false false b h = (refl, h)

is_given : (a : String) → str_eq a "" ≡ false → ¬ (a ≡ "")
is_given a h e = cc (h, (eq_iff a "").1 e)

pub is_incomplete-IsComplete : (form : Form) → is_incomplete form ≡ false → IsComplete form
is_incomplete-IsComplete form h =
    let (amount, h₁) = or_false (str_eq form.amount "") _ h in
    let (pair, h₂) = or_false (str_eq form.pair "") _ h₁ in
    let (type, script) = or_false (str_eq form.type "") _ h₂ in
    record {
      amount_given = is_given form.amount amount;
      pair_given = is_given form.pair pair;
      type_given = is_given form.type type;
      script_given = is_given form.trader_script script;
    }

module _ (float : Float64) where
  open float use {Float}

  -- What the amount is worth in the quote asset at the price.
  abbrev value_at : Float → Float → Float
  value_at amount price = float.mul amount price

  -- One, and one percent.
  abbrev pub one : Float
  one = float.literal 1 0

  abbrev pub one_percent : Float
  one_percent = float.div one (float.literal 100 0)

  -- Of a form with an amount, on a market with a price: a buyer gives the value at the price and one
  -- percent more, in the quote asset, for the amount of the base asset; a seller gives the amount of
  -- the base asset for the value and one percent less, in the quote asset. Nothing is asked by
  -- a form of another type.
  pub data Asks (mkt : Market float) (form : Form) (amount price : Float) (net : Option Network)
      : Request Float → Type 0 where
    buys :
        form.type ≡ "Buy"
        → Asks mkt form amount price net (record {
          trader_script_hex = form.trader_script;
          input_currency = mkt.quote_asset;
          input_value =
              float.format_v (float.mul (value_at amount price) (float.add one one_percent));
          output_currency = mkt.base_asset;
          output_value = float.format_v amount;
          rate = price;
          net = net;
        })
    sells :
        form.type ≡ "Sell"
        → Asks mkt form amount price net (record {
          trader_script_hex = form.trader_script;
          input_currency = mkt.base_asset;
          input_value = float.format_v amount;
          output_currency = mkt.quote_asset;
          output_value =
              float.format_v (float.mul (value_at amount price) (float.sub one one_percent));
          rate = price;
          net = net;
        })

  pub Asks-net :
      (mkt : Market float) (form : Form) (amount price : Float) (net : Option Network)
      (r : Request Float)
      → Asks mkt form amount price net r
      → r.net ≡ net
  Asks-net mkt form amount price net r (buys e) = refl
  Asks-net mkt form amount price net r (sells e) = refl

  -- The price of the market is the one under the name of the pair.
  pub price_of_pair :
      (kc : Kraken Float) (pair : String) (mkt : Market float) (price : Float)
      → get_trading_pair float (get_markets float) pair ≡ some mkt
      → market_price float kc mkt.base_asset mkt.quote_asset ≡ ok price
      → IsAnswer float (get_markets float) pair (some mkt)
        × (lookup pair kc.last_prices ≡ some price)
  unfolding market_price
  price_of_pair kc pair mkt price named priced =
      let answer = (get_trading_pair-IsAnswer float (get_markets float) pair (some mkt)).0 named in
      (
        answer,
        ap (λ p. lookup p kc.last_prices) (sym (answer.0)) ∙ or_error_ok _ price_missing priced,
      )

  module _ (asset_hash_to_bytes : String → Option (List ℕ)) (builder : ScriptBuilder)
      (tap : Taproot) (taproot_address : tap.Payment → Option String) where
    -- An order that is placed by the handler's sides is one that the form asks for: without a type
    -- that is known there is no currency, and no order.
    pub sides_of-Asks :
        (mkt : Market float) (form : Form) (amount price : Float) (net : Option Network)
        (order : Order)
        → IsPlaced float asset_hash_to_bytes builder tap taproot_address
            (request_of float form
              (sides_of float mkt form.type amount price
                (fee_percentage float mkt.base_asset mkt.quote_asset))
              price
              net)
            order
        → (r : Request Float) × Asks mkt form amount price net r
          × IsPlaced float asset_hash_to_bytes builder tap taproot_address r order
    unfolding sides_of with_fee without_fee fee_percentage currency_to_asset
    sides_of-Asks mkt form amount price net order placed =
        elim (Bool-cases (str_eq form.type "Buy")) [
          | inl buy ↦ (_, buys ((eq_iff form.type "Buy").0 buy), rw buy at placed)
          | inr other ↦ elim (Bool-cases (str_eq form.type "Sell")) [
            | inl sell ↦ (_, sells ((eq_iff form.type "Sell").0 sell), rw (other, sell) at placed)
            | inr neither ↦
                let listed = (rw (other, neither) at placed).inp_side.listed in absurd (cc listed)
          ]
        ]
