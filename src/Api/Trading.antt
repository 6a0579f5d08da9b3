-- ===== src/Api/Trading.antt =====
-- app/api/v1/trading.py.
pub mod Answered
use crypto_brokerage.Base.{ℕ, Bool, not, Option, none, some, String, List, [], ◌∷◌, ◌==◌}
use crypto_brokerage.Base.Int.{ℤ, pos, negsuc}
use crypto_brokerage.Errors.{Error, http_exception, other}
use crypto_brokerage.Models.{User, Order}
use crypto_brokerage.Env.{Env}
use crypto_brokerage.Session.{World, Exec, ◌>>=◌, ◌>>◌, pure, raise, raise_if, translating}
use crypto_brokerage.Repository.{get_by_id}
use crypto_brokerage.Tables
use crypto_brokerage.Repositories.Orders
use crypto_brokerage.Services.Trading.{Trade, execute_trade}
use crypto_brokerage.Api.{Response, respond, authenticated, own_or_404, valid_or_422}
use crypto_brokerage.Api.Schemas.Orders.{OrderCreate, is_valid_order, OrderRead, order_read}

-- The arguments that `create_order` passes on.
abbrev pub trade_of : User → OrderCreate → Trade
trade_of current_user p = record {
  user_id = current_user.id;
  asset_id = p.asset_id;
  side = p.side;
  order_type = p.order_type;
  amount = p.amount;
  price = p.price;
  idempotency_key = p.idempotency_key;
  quote_currency = p.quote_currency;
}

-- The `except` clauses of `create_order`.
abbrev pub order_problem : Error → Option Error
order_problem (Error.duplicate_idempotency_key key) = some (http_exception 409)
order_problem (Error.insufficient_funds available required currency) = some (http_exception 422)
order_problem Error.account_not_found = some (http_exception 400)
order_problem Error.invalid_order = some (http_exception 400)
order_problem _ = none

-- `order is None or order.user_id != current_user.id`
abbrev pub own_order : User → Option Order → Exec Order
own_order current_user order = own_or_404 (λ (o : Order). o.user_id) current_user order

module _ (env : Env) where
  unfoldable pub create_order : OrderCreate → User → Exec OrderRead
  create_order payload current_user =
      translating (execute_trade env (trade_of current_user payload) >>= order_read env)
        order_problem

  unfoldable pub get_order : ℕ → User → Exec OrderRead
  get_order order_id current_user =
      get_by_id Tables.orders order_id >>= own_order current_user >>= order_read env

  abbrev pub read_orders : List Order → Exec (List OrderRead)
  read_orders [] = pure []
  read_orders (order ∷ orders) = do
    first ← order_read env order
    rest ← read_orders orders
    pure (first ∷ rest)

  -- LIMIT and OFFSET: the database refuses a negative one.
  abbrev pub page_bound : ℤ → Exec ℕ
  page_bound (pos n) = pure n
  page_bound (negsuc n) = raise (other "DBAPIError")

  unfoldable pub list_orders : ℤ → ℤ → User → Exec (List OrderRead)
  list_orders limit offset current_user = do
    l ← page_bound limit
    o ← page_bound offset
    orders ← Orders.get_by_user env current_user.id none l o
    read_orders orders

  -- POST /orders, GET /orders/{order_id}
  abbrev pub post_order : Option String → OrderCreate → World → Response OrderRead × World
  post_order header p =
      respond 201
        (authenticated env header λ user. valid_or_422 (is_valid_order p) >> create_order p user)

  abbrev pub get_order_route : Option String → ℕ → World → Response OrderRead × World
  get_order_route header order_id = respond 200 (authenticated env header (get_order order_id))

  -- GET /orders
  abbrev pub get_orders : Option String → ℤ → ℤ → World → Response (List OrderRead) × World
  get_orders header limit offset = respond 200 (authenticated env header (list_orders limit offset))
