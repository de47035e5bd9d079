-- ===== src/Web/Place/Refused.antt =====
-- What POST /trade leaves as it was.
use banco.Prelude.{ℕ, String, Bool, true, false, List, Option, ◌≡◌, refl, sym, ap, arith}
use banco.Float.{Float64}
use banco.Hex.{encode_to_string}
use banco.Offer.Builder.{ScriptBuilder}
use banco.Offer.Funding.{Network, Taproot}
use banco.Order.{Order}
use banco.Order.New.{new_order}
use banco.Market.{get_markets, get_trading_pair}
use banco.Store.Save.{save_order}
use banco.Rates.{Kraken, market_price, fee_percentage}
use banco.Call.{Call}
use banco.Result.{Error, or_error, bad_number, address_failed, unknown_currency}
use banco.Watch.Act.{Net, on_store}
use banco.Web.Response.{Body, Response, invalid_input, invalid_pair, price_error}
use banco.Web.Response.{answer, status_of}
use banco.Web.Handler.{Handler, replied, ◌>>=◌, on_world}
use banco.Web.Replies.{pure_passed, or_reply_passed, pure_kept}
use banco.Web.Place.{
  Form, is_incomplete, sides_of, failed, require_form, request_of, publish, post_trade,
}

module _ (float : Float64) {World : Type 0} (builder : ScriptBuilder) (tap : Taproot)
    (asset_hash_to_bytes : String → Option (List ℕ)) (taproot_address : tap.Payment → Option String)
    (to_output_script : String → Option (List ℕ)) (watch_script : String → Call World (Unit {0}))
    (format_time : ℕ → String) where
  open float use {Float}

  apart : ¬ (◌≡◌ {A = ℕ} 500 400)
  apart h = omega arith

  not_bad : (e : Error) (body : Body float) → ¬ (failed float e ≡ answer 400 body)
  unfolding status_of
  not_bad e body h = apart (ap (status_of float) h)

  not_refused :
      (order : Order) (n n' : Net World) (body : Body float)
      → ¬ (
          publish float builder tap asset_hash_to_bytes taproot_address to_output_script
            watch_script format_time order n
          ≡ (replied (answer 400 body), n'))
  unfolding publish
  not_refused order n n' body h =
      let no = λ (e : Error). not_bad e body in
      let save = on_store (save_order format_time order) in
      let (u, saved, h₁) = or_reply_passed save (failed float) _ n n' _ no h in
      let n₁ = (save n).1 in
      let (script, found, h₂) =
        pure_passed (or_error (to_output_script order.address) address_failed) (failed float) _ n₁
          n' _ no h₁ in
      let watch = on_world (watch_script (encode_to_string script)) in
      let (v, watched, h₃) = or_reply_passed watch (failed float) _ n₁ n' _ no h₂ in
      cc (ap (λ q. q.0) h₃)

  kept_form :
      {A : Type 0} (b : Bool) (form : Form) (f : Unit {0} → Handler float World A)
      (n n' : Net World) (x : Response float)
      → is_incomplete form ≡ b
      → (f tt n ≡ (replied x, n') → n' ≡ n)
      → (require_form float form >>= f) n ≡ (replied x, n')
      → n' ≡ n
  kept_form true form f n n' x e rest h = ap (λ q. q.1) (sym (rw e at h))
  kept_form false form f n n' x e rest h = rest (rw e at h)

  -- Where POST /trade answers that the request is bad, it changed nothing: no order is saved, the
  -- daemon was not asked for anything, and the state is as it was.
  pub post_trade_refused :
      (kc : Kraken Float) (net : Option Network) (id : String) (now : ℕ) (form : Form)
      (n n' : Net World) (body : Body float)
      → post_trade float builder tap asset_hash_to_bytes taproot_address to_output_script
          watch_script format_time kc net id now form n
        ≡ (replied (answer 400 body), n')
      → n' ≡ n
  unfolding post_trade
  post_trade_refused kc net id now form n n' body =
      kept_form (is_incomplete form) form _ n n' _ refl (
        pure_kept (or_error (float.parse form.amount) bad_number) (λ e. answer 400 invalid_input) _
          n n' _
          λ amount parsed.
            pure_kept
              (or_error (get_trading_pair float (get_markets float) form.pair) unknown_currency)
              (λ e. answer 400 invalid_pair) _ n n' _
              λ mkt named.
                pure_kept (market_price float kc mkt.base_asset mkt.quote_asset)
                  (λ e. answer 500 (price_error e)) _ n n' _
                  λ price priced.
                    pure_kept
                      (new_order float builder tap asset_hash_to_bytes taproot_address
                        (request_of float form
                          (sides_of float mkt form.type amount price
                            (fee_percentage float mkt.base_asset mkt.quote_asset))
                          price net)
                        id now)
                      (failed float) _ n n' _
                      λ order made h. absurd (not_refused order n n' body h))
