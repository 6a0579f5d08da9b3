-- ===== src/Api/Schemas/Orders.antt =====
-- app/api/schemas/order.py.
use crypto_brokerage.Base.{
  ℕ, Bool, true, false, ◌&&◌, Option, none, some, String, List, map, ◌==◌, select, if◌then◌else◌,
}
use crypto_brokerage.Base.Int.{ℤ}
use crypto_brokerage.Decimal
use crypto_brokerage.Decimal.{Decimal, nought}
use crypto_brokerage.Models.{
  Order, OrderSide, OrderType, limit, market, OrderStatus, TradeExecution, of_units,
}
use crypto_brokerage.Errors.{other}
use crypto_brokerage.Env.{Env}
use crypto_brokerage.Session.{Db, Exec, ◌>>=◌, pure, query, raise}
use crypto_brokerage.Api.Schemas.Users.{within}

pub record OrderCreate : Type 0 where
  pub asset_id : ℕ
  pub side : OrderSide
  pub order_type : OrderType
  pub amount : Decimal
  pub price : Option Decimal
  pub idempotency_key : String
  pub quote_currency : String

abbrev pub positive_or_none : Option Decimal → Bool
positive_or_none none = true
positive_or_none (some p) = Decimal.lt nought p

-- `validate_limit_price`
abbrev pub validate_limit_price : OrderType → Option Decimal → Bool
validate_limit_price limit none = false
validate_limit_price limit (some p) = true
validate_limit_price market none = true
validate_limit_price market (some p) = false

abbrev pub is_valid_order : OrderCreate → Bool
is_valid_order p =
    Decimal.lt nought p.amount
    && positive_or_none p.price
    && within 1 128 p.idempotency_key
    && within 2 10 p.quote_currency
    && validate_limit_price p.order_type p.price

pub record TradeExecutionRead : Type 0 where
  pub id : ℕ
  pub order_id : ℕ
  pub executed_price : Decimal
  pub executed_amount : Decimal
  pub fee : Decimal
  pub timestamp : ℕ
  pub external_fill_id : Option String

abbrev pub execution_read : TradeExecution → TradeExecutionRead
execution_read x = record {
  id = x.id;
  order_id = x.order_id;
  executed_price = of_units x.executed_price;
  executed_amount = of_units x.executed_amount;
  fee = of_units x.fee;
  timestamp = x.timestamp;
  external_fill_id = x.external_fill_id;
}

pub record OrderRead : Type 0 where
  pub id : ℕ
  pub user_id : ℕ
  pub asset_id : ℕ
  pub side : OrderSide
  pub order_type : OrderType
  pub amount : Decimal
  pub filled_amount : Decimal
  pub price : Option Decimal
  pub status : OrderStatus
  pub idempotency_key : String
  pub created_at : ℕ
  pub executions : List TradeExecutionRead

abbrev price_read : Option ℤ → Option Decimal
price_read none = none
price_read (some u) = some (of_units u)

-- The relationship `executions` of an order.
abbrev pub executions_of : Order → Db → List TradeExecution
executions_of order db = select (λ x. x.order_id == order.id) db.trade_executions

module _ (env : Env) where
  abbrev pub order_row_read : Order → List TradeExecution → OrderRead
  order_row_read order executions = record {
    id = order.id;
    user_id = order.user_id;
    asset_id = order.asset_id;
    side = order.side;
    order_type = order.order_type;
    amount = of_units order.amount;
    filled_amount = of_units order.filled_amount;
    price = price_read order.price;
    status = order.status;
    idempotency_key = order.idempotency_key;
    created_at = env.created_at order.id;
    executions = map execution_read executions;
  }

  -- `OrderRead.model_validate`: the relationship `executions` is not loaded with the order but when
  -- it is read here, and what that raises is a `ValidationError`.
  unfoldable pub order_read : Order → Exec OrderRead
  order_read order =
      if env.lazy_loads
      then (do executions ← query (executions_of order); pure (order_row_read order executions))
      else raise (other "ValidationError")
