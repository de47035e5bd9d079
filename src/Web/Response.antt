-- ===== src/Web/Response.antt =====
-- What the handlers answer. The markup around the values is left out, and so are the words around an
-- error.
use banco.Prelude.{ℕ, String, Bool, List}
use banco.Float.{Float64}
use banco.Market.{Market}
use banco.Result.{Error}

-- The entry of a transaction on the page of an offer.
pub record TxRow : Type 0 where
  pub tx_id : String
  pub tx_id_short : String
  pub confirmed : Bool
  pub date : String
  pub explorer_tx_url : String

-- The two lists that the page of an offer shows.
pub record TxLists : Type 0 where
  pub confirmed : List TxRow
  pub pending : List TxRow

module _ (float : Float64) where
  open float use {Float}

  pub record PairBox : Type 0 where
    pub limit : Float
    pub currency : String
    pub rate : Float
    pub quote_asset : String

  -- `action` of the preview
  pub data Action : Type 0 where
    you_send you_receive : Action

  pub record RecapBox : Type 0 where
    pub action : Action
    pub preview_amt : Float
    pub quote_asset : String

  pub record OfferPage : Type 0 where
    pub id : String
    pub address : String
    pub input_value : Float
    pub input_currency : String
    pub output_value : Float
    pub output_currency : String
    pub transactions : TxLists
    pub input_asset_hash : String
    pub input_amount : ℕ
    pub status : String
    pub date : String

  pub data Body : Type 0 where
    -- the templates error.html, 404.html, trade.html and offer.html
    error_page : Error → Body
    missing_page : Body
    trade_page : List (Market float) → String → Body
    offer_page : OfferPage → Body
    -- plain texts
    pair_box : PairBox → Body
    recap_box : RecapBox → Body
    invalid_input : Body
    invalid_pair : Body
    price_error : Error → Body
    script_hex : String → Body
    -- JSON with an error
    error_json : Error → Body
    invalid_address : Body

  -- A response has a status and a body, or it goes on to another page, or it is empty.
  pub data Response : Type 0 where
    answer : ℕ → Body → Response
    redirect : ℕ → String → Response
    nothing : Response

  -- The status; net/http answers 200 where a handler gives none.
  unfoldable pub status_of : Response → ℕ
  status_of (answer status body) = status
  status_of (redirect status url) = status
  status_of nothing = 200
