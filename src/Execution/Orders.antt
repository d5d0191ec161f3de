-- ===== src/Execution/Orders.antt =====
-- execution/order_manager.py, with OrderRequest of core/execution_types.py. The client of the exchange
-- is the argument `ex`: each of its requests answers and changes the outside world `X`. A number in a
-- request is the text that `_format_float` makes of it, and the text of an error is its constructor.
-- The literals of a request are in capitals already, so only its symbol is put in them.
pub mod Registry
pub mod Amend
use text.Mathlib.Text.{◌==◌ as same_text}
use btc_bot.Prelude.{
  ℕ, suc, ◌+◌, String, Bool, true, false, not, ◌&&◌, ◌||◌, Option, none, some, List, [], ◌∷◌, any,
  keep, is_some, ◌⊎◌, inl, inr, ◌==◌, if◌then◌else◌,
}
use btc_bot.Prelude.Double.{Double, nought}
use btc_bot.Prelude.Fixed.{ℤ}
use btc_bot.Core.Models.{Time}
use btc_bot.Execution.Paper.{OrderSide, OrderType}

pub data TimeInForce : Type 0 where
  gtc ioc fok : TimeInForce

pub record OrderRequest (W : Type 0) : Type 0 where
  pub client_order_id : String
  pub symbol : String
  pub side : OrderSide
  pub order_type : OrderType
  pub qty : W
  pub price : Option W
  pub stop_price : Option W
  pub time_in_force : TimeInForce

-- What a request may raise: a BinanceRequestError with its code, another RestClientError, or another
-- exception
pub data RequestError : Type 0 where
  binance : Option ℤ → RequestError
  rest_client : RequestError
  unexpected : String → RequestError

pub data OrderReason : Type 0 where
  insufficient_margin invalid_price unknown_order exchange_rejected : OrderReason
  transport_error unexpected_error symbol_mismatch invalid_qty invalid_stop_price : OrderReason

pub record OrderManagerError : Type 0 where
  pub code : Option ℤ
  pub reason : OrderReason

-- What `submit` may raise: an OrderManagerError, or a ValueError from `_build_submit_params`
pub data SubmitError : Type 0 where
  order_error : OrderManagerError → SubmitError
  value_error : SubmitError

-- `price` comes with `timeInForce`, and `stopPrice` with `reduceOnly`.
pub record SubmitParams (W : Type 0) : Type 0 where
  pub symbol : String
  pub side : OrderSide
  pub order_type : OrderType
  pub quantity : W
  pub new_client_order_id : String
  pub price : Option (W × TimeInForce)
  pub stop_price : Option W

-- An order as the exchange shows it; a missing or empty number is `none`, and so is a time that
-- cannot be read.
pub record OrderPayload (W : Type 0) : Type 0 where
  pub status : Option String
  pub executed_qty : Option W
  pub orig_qty : Option W
  pub avg_price : Option W
  pub commission : Option W
  pub client_order_id : Option String
  pub side : Option OrderSide
  pub update_time : Option Time

-- The requests that execution makes, and what it takes from the system: the monotonic clock, the
-- time, random ids, and the sleep. An order that is shown is `none` if the answer is no dict.
pub record Exchange (W X : Type 0) : Type 0 where
  pub post_leverage : String → ℕ → X → Option RequestError × X
  pub post_order : SubmitParams W → X → (RequestError ⊎ Option String) × X
  pub delete_order : String → String → X → Option RequestError × X
  pub get_order : String → String → X → (RequestError ⊎ Option (OrderPayload W)) × X
  pub monotonic : X → ℕ
  pub now : X → Time
  pub new_id : X → String
  pub sleep : X → X

-- `_submitted_orders`, in the order of insertion
abbrev pub Orders : Type 0 → Type 0
Orders W = List (String × OrderRequest W)

pub record Manager (W X : Type 0) : Type 0 where
  pub submitted_orders : Orders W
  pub outside : X

-- `code in codes`, of the negative codes without their sign
abbrev is_code : List ℕ → Option ℤ → Bool
is_code codes none = false
is_code codes (some (ℤ.pos n)) = false
is_code codes (some (ℤ.negsuc n)) = any (λ c. c == suc n) codes

unfoldable pub to_order_error : RequestError → OrderManagerError
to_order_error (RequestError.binance code) = record {
  code = code;
  reason =
      if is_code (2019 ∷ 2027 ∷ 2028 ∷ []) code
      then OrderReason.insufficient_margin
      else if is_code (1013 ∷ 1111 ∷ 4001 ∷ 4003 ∷ 4014 ∷ []) code
      then OrderReason.invalid_price
      else if is_code (2011 ∷ []) code
      then OrderReason.unknown_order
      else OrderReason.exchange_rejected;
}
to_order_error RequestError.rest_client = record {
  code = none;
  reason = OrderReason.transport_error;
}
to_order_error (RequestError.unexpected _) = record {
  code = none;
  reason = OrderReason.unexpected_error;
}

abbrev pub raised : OrderReason → OrderManagerError
raised reason = record { code = none; reason = reason }

abbrev pub is_limit : OrderType → Bool
is_limit OrderType.limit = true
is_limit _ = false

-- `STOP_MARKET` or `TAKE_PROFIT_MARKET`
abbrev pub is_trigger : OrderType → Bool
is_trigger OrderType.stop_market = true
is_trigger OrderType.take_profit_market = true
is_trigger _ = false

-- The dict: a key that is there keeps its place.
unfoldable pub set_order : {W : Type 0} → String → OrderRequest W → Orders W → Orders W
set_order id r [] = (id, r) ∷ []
set_order id r (o ∷ os) =
    let rest = set_order id r os in if same_text o.0 id then (id, r) ∷ os else o ∷ rest

unfoldable pub pop_order : {W : Type 0} → String → Orders W → Orders W
pop_order id = keep (λ o. not (same_text o.0 id))

unfoldable pub get_order : {W : Type 0} → String → Orders W → Option (OrderRequest W)
get_order id [] = none
get_order id (o ∷ os) = let rest = get_order id os in if same_text o.0 id then some o.1 else rest

abbrev pub error_of :
    {W X : Type 0} → (SubmitError ⊎ String) × Manager W X → Option SubmitError × Manager W X
error_of (inl e, m) = (some e, m)
error_of (inr _, m) = (none, m)

abbrev pub given_or : {A : Type 0} → Option A → A → A
given_or none a = a
given_or (some b) a = b

abbrev pub amended_order : {W : Type 0} → OrderRequest W → Option W → Option W → OrderRequest W
amended_order existing qty price = record existing {
  qty = given_or qty existing.qty;
  price = elim price [ none ↦ existing.price | some p ↦ some p ];
}

-- `response.get("clientOrderId") or normalized.client_order_id`
abbrev pub order_id_of : {W : Type 0} → OrderRequest W → Option String → String
order_id_of r none = r.client_order_id
order_id_of r (some id) = id

module _ {W : Type 0} ⦃d : Double W⦄ where
  open d use {le}

  -- `value is None or value <= 0`
  abbrev pub is_missing : Option W → Bool
  is_missing none = true
  is_missing (some w) = le w nought

  unfoldable pub normalize_request :
      (String → String) → String → OrderRequest W → OrderManagerError ⊎ OrderRequest W
  normalize_request upper symbol request =
      let r = record request { symbol = upper request.symbol } in
      if not (same_text r.symbol symbol)
      then inl (raised OrderReason.symbol_mismatch)
      else if le r.qty nought
      then inl (raised OrderReason.invalid_qty)
      else if is_limit r.order_type && is_missing r.price
      then inl (raised OrderReason.invalid_price)
      else if is_trigger r.order_type && is_missing r.stop_price
      then inl (raised OrderReason.invalid_stop_price)
      else inr r

  abbrev params_of : OrderRequest W → Option (W × TimeInForce) → Option W → SubmitParams W
  params_of r price stop_price = record {
    symbol = r.symbol;
    side = r.side;
    order_type = r.order_type;
    quantity = r.qty;
    new_client_order_id = r.client_order_id;
    price = price;
    stop_price = stop_price;
  }

  -- `none` is the ValueError.
  unfoldable pub build_submit_params : OrderRequest W → Option (SubmitParams W)
  build_submit_params r = elim r.order_type [
    | OrderType.market ↦ some (params_of r none none)
    | OrderType.limit ↦ elim r.price [
      | none ↦ none
      | some p ↦ some (params_of r (some (p, r.time_in_force)) none)
    ]
    | OrderType.stop_market ↦ elim r.stop_price [
      | none ↦ none
      | some p ↦ some (params_of r none (some p))
    ]
    | OrderType.take_profit_market ↦ elim r.stop_price [
      | none ↦ none
      | some p ↦ some (params_of r none (some p))
    ]
  ]

  module _ {X : Type 0} (ex : Exchange W X) (upper : String → String) (symbol : String) where
    -- The answer to the request, for the orders before it
    unfoldable pub register :
        OrderRequest W
        → Orders W
        → (RequestError ⊎ Option String) × X
        → (SubmitError ⊎ String) × Manager W X
    register r orders (inl e, x) = (
      inl (SubmitError.order_error (to_order_error e)),
      record { submitted_orders = orders; outside = x },
    )
    register r orders (inr answer, x) =
        let id = order_id_of r answer in
        (
          inr id,
          record {
            submitted_orders = set_order id (record r { client_order_id = id }) orders;
            outside = x;
          },
        )

    unfoldable pub submit : OrderRequest W → Manager W X → (SubmitError ⊎ String) × Manager W X
    submit request m = elim (normalize_request upper symbol request) [
      | inl e ↦ (inl (SubmitError.order_error e), m)
      | inr r ↦ elim (build_submit_params r) [
        | none ↦ (inl SubmitError.value_error, m)
        | some params ↦ register r m.submitted_orders (ex.post_order params m.outside)
      ]
    ]

    unfoldable pub drop_order :
        String → Orders W → Option RequestError × X → Option OrderManagerError × Manager W X
    drop_order id orders (some e, x) =
        (some (to_order_error e), record { submitted_orders = orders; outside = x })
    drop_order id orders (none, x) =
        (none, record { submitted_orders = pop_order id orders; outside = x })

    unfoldable pub cancel : String → Manager W X → Option OrderManagerError × Manager W X
    cancel id m = drop_order id m.submitted_orders (ex.delete_order symbol id m.outside)

    -- `self.cancel(...)` and then `self.submit(...)`
    unfoldable pub replace_order :
        OrderRequest W → Option OrderManagerError × Manager W X → Option SubmitError × Manager W X
    replace_order amended (some e, m) = (some (SubmitError.order_error e), m)
    replace_order amended (none, m) = error_of (submit amended m)

    unfoldable pub amend :
        String → Option W → Option W → Manager W X → Option SubmitError × Manager W X
    amend id qty price m = elim (get_order id m.submitted_orders) [
      | none ↦ (some (SubmitError.order_error (raised OrderReason.unknown_order)), m)
      | some existing ↦
          let amended = amended_order existing qty price in
          if not (is_some qty) && not (is_some price)
          then (none, m)
          else if le amended.qty nought
          then (some (SubmitError.order_error (raised OrderReason.invalid_qty)), m)
          else if is_limit amended.order_type && is_missing amended.price
          then (some (SubmitError.order_error (raised OrderReason.invalid_price)), m)
          else replace_order amended (cancel id m)
    ]
