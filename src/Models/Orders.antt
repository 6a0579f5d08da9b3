-- ===== src/Models/Orders.antt =====
-- app/models/order.py. The numbers are units of 10 ^ -amount_scale.
use crypto_brokerage.Base.{ℕ, Bool, true, false, Option, String, fits, fits_or_null}
use crypto_brokerage.Base.Int.{ℤ}
use crypto_brokerage.Decimal.{Decimal, decimal}

abbrev pub amount_precision : ℕ
amount_precision = 36

abbrev pub amount_scale : ℕ
amount_scale = 18

pub data OrderSide : Type 0 where
  buy sell : OrderSide

pub data OrderType : Type 0 where
  market limit : OrderType

pub data OrderStatus : Type 0 where
  pending partially_filled filled failed cancelled : OrderStatus

-- `OrderStatus.is_terminal`
abbrev pub is_terminal_order : OrderStatus → Bool
is_terminal_order OrderStatus.filled = true
is_terminal_order OrderStatus.failed = true
is_terminal_order OrderStatus.cancelled = true
is_terminal_order _ = false

pub record Order : Type 0 where
  pub id : ℕ
  pub user_id : ℕ
  pub asset_id : ℕ
  pub side : OrderSide
  pub order_type : OrderType
  pub amount : ℤ
  pub filled_amount : ℤ
  pub price : Option ℤ
  pub status : OrderStatus
  pub idempotency_key : String

pub record TradeExecution : Type 0 where
  pub id : ℕ
  pub order_id : ℕ
  pub executed_price : ℤ
  pub executed_amount : ℤ
  pub fee : ℤ
  -- seconds since the epoch
  pub timestamp : ℕ
  pub external_fill_id : Option String

pub record Position : Type 0 where
  pub id : ℕ
  pub user_id : ℕ
  pub asset_id : ℕ
  pub quantity : ℤ
  pub average_price : ℤ

-- The number that a `NUMERIC(36, 18)` column gives back.
abbrev pub of_units : ℤ → Decimal
of_units u = decimal u amount_scale

-- The lengths of the columns.
abbrev pub order_fits : Order → Bool
order_fits o = fits 128 o.idempotency_key

abbrev pub execution_fits : TradeExecution → Bool
execution_fits x = fits_or_null 128 x.external_fill_id
