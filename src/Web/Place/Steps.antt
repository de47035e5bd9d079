-- ===== src/Web/Place/Steps.antt =====
-- What has happened when POST /trade answers.
use banco.Prelude.{
  ℕ, String, Bool, true, false, List, Option, some, ◌≡◌, refl, sym, ap, ◌∙◌, text_append, lookup,
}
use banco.Float.{Float64}
use banco.Hex.{encode_to_string}
use banco.Offer.Builder.{ScriptBuilder}
use banco.Offer.Funding.{Network, Taproot}
use banco.Order.{Order}
use banco.Order.New.{Request, new_order}
use banco.Order.Placed.{IsPlaced, new_order-IsPlaced}
use banco.Market.{Market, get_markets, get_trading_pair}
use banco.Store.Save.{save_order}
use banco.Rates.{Kraken, market_price, fee_percentage}
use banco.Call.{Call}
use banco.Result.{Error, ok, or_error, or_error_ok, bad_number, address_failed, unknown_currency}
use banco.Watch.Act.{Net, on_store}
use banco.Web.Response.{Body, Response, error_page, invalid_input, invalid_pair, price_error}
use banco.Web.Response.{answer, redirect}
use banco.Web.Handler.{Handler, Outcome, replied, ◌>>=◌, on_world}
use banco.Web.Replies.{pure_passed, or_reply_passed}
use banco.Market.Pair.{IsAnswer}
use banco.Web.Place.Asks.{Asks, IsComplete, is_incomplete-IsComplete, price_of_pair, sides_of-Asks}
use banco.Web.Place.{
  Form, is_incomplete, sides_of, failed, require_form, request_of, publish, post_trade,
}

module _ (float : Float64) {World : Type 0} (builder : ScriptBuilder) (tap : Taproot)
    (asset_hash_to_bytes : String → Option (List ℕ)) (taproot_address : tap.Payment → Option String)
    (to_output_script : String → Option (List ℕ)) (watch_script : String → Call World (Unit {0}))
    (format_time : ℕ → String) where
  open float use {Float}

  -- The order was saved, the daemon watches the script of its address, and nothing else was done.
  pub record IsPublished (order : Order) (n n' : Net World) : Type 0 where
    pub saved : save_order format_time order n.conn ≡ (ok tt, n'.conn)
    pub script : List ℕ
    pub script_eq : to_output_script order.address ≡ some script
    pub watched : watch_script (encode_to_string script) n.env.world ≡ (ok tt, n'.env.world)
    pub same_free : n'.env.free ≡ n.env.free

  -- The order is placed by NewOrder as the form asks: the form is complete, its amount is a number,
  -- its pair names the market, the price is the latest of that pair, and the two sides are those of
  -- the form's type.
  pub record IsOrdered (kc : Kraken Float) (net : Option Network) (form : Form) (order : Order)
      : Type 0 where
    pub complete : IsComplete form
    pub amount : Float
    pub amount_eq : float.parse form.amount ≡ some amount
    pub mkt : Market float
    pub found : IsAnswer float (get_markets float) form.pair (some mkt)
    pub price : Float
    pub priced : lookup form.pair kc.last_prices ≡ some price
    pub request : Request Float
    pub asked : Asks float mkt form amount price net request
    pub placed : IsPlaced float asset_hash_to_bytes builder tap taproot_address request order

  not_redirect :
      (status : ℕ) (body : Body float) (c : ℕ) (url : String)
      → ¬ (answer status body ≡ redirect c url)
  not_redirect status body c url h = cc h

  same_redirect :
      (a b : ℕ) (s t : String)
      → ◌≡◌ {A = Outcome float (Response float)} (replied (redirect a s)) (replied (redirect b t))
      → (b ≡ a) × (t ≡ s)
  same_redirect a b s t h = (cc h, cc h)

  published :
      (order : Order) (n n' : Net World) (c : ℕ) (url : String)
      → publish float builder tap asset_hash_to_bytes taproot_address to_output_script watch_script
          format_time order n
        ≡ (replied (redirect c url), n')
      → (c ≡ 303) × (url ≡ text_append "/offer/" order.id) × IsPublished order n n'
  unfolding publish
  published order n n' c url h =
      let no = λ (e : Error). not_redirect 500 (error_page e) c url in
      let save = on_store (save_order format_time order) in
      let (u, saved, h₁) = or_reply_passed save (failed float) _ n n' _ no h in
      let n₁ = (save n).1 in
      let (script, found, h₂) =
        pure_passed (or_error (to_output_script order.address) address_failed) (failed float) _ n₁
          n' _ no h₁ in
      let watch = on_world (watch_script (encode_to_string script)) in
      let (v, watched, h₃) = or_reply_passed watch (failed float) _ n₁ n' _ no h₂ in
      let last = ap (λ q. q.1) h₃ in
      let (code, to) =
        same_redirect 303 c (text_append "/offer/" order.id) url (ap (λ q. q.0) h₃) in
      (
        code,
        to,
        record {
          saved = ap (λ r. (r, n₁.conn)) saved ∙ ap (λ m. (ok tt, m.conn)) last;
          script = script;
          script_eq = or_error_ok (to_output_script order.address) address_failed found;
          watched =
              ap (λ r. (r, (watch n₁).1.env.world)) watched ∙ ap (λ m. (ok tt, m.env.world)) last;
          same_free = ap (λ m. m.env.free) (sym last);
        },
      )

  complete_form :
      {A : Type 0} (b : Bool) (form : Form) (f : Unit {0} → Handler float World A)
      (n n' : Net World) (c : ℕ) (url : String)
      → is_incomplete form ≡ b
      → (require_form float form >>= f) n ≡ (replied (redirect c url), n')
      → (is_incomplete form ≡ false) × (f tt n ≡ (replied (redirect c url), n'))
  complete_form true form f n n' c url e h = absurd (cc (ap (λ q. q.0) (rw e at h)))
  complete_form false form f n n' c url e h = (e, rw e at h)

  -- Where POST /trade answers with a redirection, no field of the form was empty, its pair is that of
  -- a market, its type is Buy or Sell, and NewOrder placed an order at the latest price of the pair. For
  -- Buy the input is the amount times the price and one percent more, in the quote asset, and the output
  -- the amount in the base asset; for Sell the input is the amount in the base asset, and the output
  -- the amount times the price less one percent, in the quote asset. The redirection is to the page of
  -- that order; the order was saved without an error, and the daemon was asked, without an error, to
  -- watch the script of its address.
  pub post_trade-IsPublished :
      (kc : Kraken Float) (net : Option Network) (id : String) (now : ℕ) (form : Form)
      (n n' : Net World) (c : ℕ) (url : String)
      → post_trade float builder tap asset_hash_to_bytes taproot_address to_output_script
          watch_script format_time kc net id now form n
        ≡ (replied (redirect c url), n')
      → (order : Order) × IsOrdered kc net form order
        × (order.id ≡ id)
        × (order.timestamp ≡ now)
        × (c ≡ 303)
        × (url ≡ text_append "/offer/" id)
        × IsPublished order n n'
  unfolding post_trade
  post_trade-IsPublished kc net id now form n n' c url h =
      let (complete, h₁) = complete_form (is_incomplete form) form _ n n' c url refl h in
      let (amount, parsed, h₂) =
        pure_passed (or_error (float.parse form.amount) bad_number) (λ e. answer 400 invalid_input)
          _ n n' _ (λ e. not_redirect 400 invalid_input c url) h₁ in
      let (mkt, named, h₃) =
        pure_passed
          (or_error (get_trading_pair float (get_markets float) form.pair) unknown_currency)
          (λ e. answer 400 invalid_pair) _ n n' _ (λ e. not_redirect 400 invalid_pair c url) h₂ in
      let (price, priced, h₄) =
        pure_passed (market_price float kc mkt.base_asset mkt.quote_asset)
          (λ e. answer 500 (price_error e)) _ n n' _ (λ e. not_redirect 500 (price_error e) c url)
          h₃ in
      let request =
        request_of float form
          (sides_of float mkt form.type amount price
            (fee_percentage float mkt.base_asset mkt.quote_asset))
          price net in
      let (order, made, h₅) =
        pure_passed (new_order float builder tap asset_hash_to_bytes taproot_address request id now)
          (failed float) _ n n' _ (λ e. not_redirect 500 (error_page e) c url) h₄ in
      let (placed, same_id, same_time) =
        new_order-IsPlaced float asset_hash_to_bytes builder tap taproot_address request id now
          order made in
      let (code, to, done) = published order n n' c url h₅ in
      let (asked_for, asked, as_asked) =
        sides_of-Asks float asset_hash_to_bytes builder tap taproot_address mkt form amount price
          net order placed in
      let (named_so, latest) =
        price_of_pair float kc form.pair mkt price
          (or_error_ok (get_trading_pair float (get_markets float) form.pair) unknown_currency
            named)
          priced in
      (
        order,
        record {
          complete = is_incomplete-IsComplete form complete;
          amount = amount;
          amount_eq = or_error_ok (float.parse form.amount) bad_number parsed;
          mkt = mkt;
          found = named_so;
          price = price;
          priced = latest;
          request = asked_for;
          asked = asked;
          placed = as_asked;
        },
        same_id,
        same_time,
        code,
        to ∙ ap (text_append "/offer/") same_id,
        done,
      )
