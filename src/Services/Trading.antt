-- ===== src/Services/Trading.antt =====
-- app/services/trading_service.py: `TradingService.execute_trade`, in the steps of the source; step 7
-- and `_process_fill` are in Services/Filling.
pub mod Admitted
pub mod Fills
pub mod Finalised
pub mod Opened
pub mod Beside
pub mod Placed
pub mod Forgotten
pub mod Filled
pub mod Retried
pub mod Raced
pub mod Executing
use crypto_brokerage.Base.{
  ℕ, Bool, true, false, ◌&&◌, ◌||◌, Option, none, some, String, List, [], ◌∷◌, ◌==◌, str_eq,
  is_none, if◌then◌else◌, and_then,
}
use crypto_brokerage.Base.Int.{ℤ, pos, magnitude}
use crypto_brokerage.Decimal
use crypto_brokerage.Decimal.{Decimal, nought}
use crypto_brokerage.Models.{
  order_fits, execution_fits, Account, Order, OrderSide, buy, sell, OrderType, market, limit,
  OrderStatus, TradeExecution, Transaction, TransactionType, TransactionStatus,
}
use crypto_brokerage.Errors.{decimal_error, account_not_found, insufficient_funds, invalid_order}
use crypto_brokerage.Gateways.{FillEvent, OrderSubmission, OrderRequest, Call}
use crypto_brokerage.Env.{Env, checked}
use crypto_brokerage.Session.{
  Exec, ◌>>=◌, ◌>>◌, pure, raise, or_raise, raise_if, now, dial, on_exception,
}
use crypto_brokerage.Repository.{stored, add}
use crypto_brokerage.Tables.{orders, trade_executions}
use crypto_brokerage.Repositories.Accounts.{get_by_user_and_currency, get_balance_for_update}
use crypto_brokerage.Repositories.Ledger.{Movement, create_double_entry}
use crypto_brokerage.Repositories.Orders
use crypto_brokerage.Repositories.Positions.{upsert_position}
use crypto_brokerage.Repositories.Transactions
unfoldable pub use crypto_brokerage.Services.Filling.{
  is_buy, is_empty, aggregate_fill, is_aggregate, fills_of, contains, execution_row, fill_value,
  movement, process_fill, process_fills,
}

-- The arguments of `execute_trade`.
pub record Trade : Type 0 where
  pub user_id : ℕ
  pub asset_id : ℕ
  pub side : OrderSide
  pub order_type : OrderType
  pub amount : Decimal
  pub price : Option Decimal
  pub idempotency_key : String
  pub quote_currency : String

abbrev pub is_limit : OrderType → Bool
is_limit limit = true
is_limit market = false

abbrev side_value : OrderSide → String
side_value buy = "BUY"
side_value sell = "SELL"

abbrev order_type_value : OrderType → String
order_type_value market = "MARKET"
order_type_value limit = "LIMIT"

-- `price or Decimal("0")`
abbrev pub price_or_zero : Option Decimal → Decimal
price_or_zero none = nought
price_or_zero (some p) = if magnitude p.coefficient == 0 then nought else p

abbrev pub estimated_cost : Trade → Decimal
estimated_cost t = Decimal.mul t.amount (price_or_zero t.price)

-- The test of step 4.
abbrev pub is_short : Trade → Decimal → Bool
is_short t balance =
    is_buy t.side && Decimal.lt nought (estimated_cost t) && Decimal.lt balance (estimated_cost t)

abbrev pub numeric_or_null : Env → Option Decimal → Option (Option ℤ)
numeric_or_null env none = some none
numeric_or_null env (some p) = and_then (env.numeric p) (λ u. some (some u))

-- The handler of step 6, before it raises again.
abbrev pub mark_failed : Order → Transaction → Exec (Unit {0})
mark_failed order transaction =
    Orders.update_status order OrderStatus.failed
    >> Transactions.update_status transaction TransactionStatus.failed none
    >> pure tt

abbrev pub order_request : Trade → OrderRequest
order_request t = record {
  client_order_id = t.idempotency_key;
  symbol = "BTCBRL";
  side = side_value t.side;
  order_type = order_type_value t.order_type;
  amount = t.amount;
  price = t.price;
}

abbrev pub is_filled : OrderStatus → Bool
is_filled OrderStatus.filled = true
is_filled _ = false

-- Step 8, on the status that the exchange sent.
unfoldable pub finalise : String → Transaction → Order → Exec Order
finalise status transaction order =
    if str_eq status "REJECTED"
    then (do
      failed ← Orders.update_status order OrderStatus.failed
      Transactions.update_status transaction TransactionStatus.failed none
      pure failed)
    else if str_eq status "FILLED" || str_eq status "PARTIALLY_FILLED"
    then (do
      Transactions.update_status transaction
          (if is_filled order.status
            then TransactionStatus.completed
            else TransactionStatus.processing)
          none
      pure order)
    else pure order

-- Steps 2 to 4: the account, locked.
unfoldable pub admit : Env → Trade → Exec Account
admit env t = do
  raise_if (Decimal.le t.amount nought) invalid_order
  raise_if (is_limit t.order_type && is_none t.price) invalid_order
  account ← get_by_user_and_currency t.user_id t.quote_currency >>= or_raise account_not_found
  locked ← get_balance_for_update account.id
  or_raise decimal_error (checked env (estimated_cost t))
  raise_if (is_short t locked.1) (insufficient_funds locked.1 (estimated_cost t) t.quote_currency)
  pure locked.0

module _ (env : Env) where
  -- The row of step 5, under the key `i`.
  abbrev pub new_order : Trade → ℕ → Option Order
  new_order t i = and_then (env.numeric t.amount) λ amount.
      and_then (numeric_or_null env t.price) λ price. stored order_fits (record {
        id = i;
        user_id = t.user_id;
        asset_id = t.asset_id;
        side = t.side;
        order_type = t.order_type;
        amount = amount;
        filled_amount = pos 0;
        price = price;
        status = OrderStatus.pending;
        idempotency_key = t.idempotency_key;
      })

  -- The call of the gateway, with the idempotency key as the client's order id.
  abbrev pub send : Trade → Exec OrderSubmission
  send t =
      dial (Call.submit_order (order_request t))
        (λ calls. env.exchange.submit_order calls (order_request t))

  -- Step 6: the call, and what follows its failure.
  unfoldable pub submit : Trade → Order → Transaction → Exec OrderSubmission
  submit t order transaction = on_exception (send t) (mark_failed order transaction)

  -- Steps 6 to 8, once the order and its transaction are there.
  unfoldable pub settle : Trade → Account → Order → Transaction → Exec Order
  settle t account order transaction = do
    submission ← submit t order transaction
    fills ← fills_of submission
    filled ← process_fills env [] account t.quote_currency transaction fills order
    finalise submission.status transaction filled

  -- Step 5.
  unfoldable pub open_order : Trade → Exec (Order × Transaction)
  open_order t = do
    order ← add orders env (new_order t)
    transaction ←
        Transactions.create env t.user_id TransactionType.trade (some (env.str_uuid order.id))
    pure (order, transaction)

  unfoldable pub place : Trade → Exec Order
  place t = do account ← admit env t; opened ← open_order t; settle t account opened.0 opened.1

  abbrev pub unless_known : Trade → Option Order → Exec Order
  unless_known t (some order) = pure order
  unless_known t none = place t

  -- Step 1, and the rest for a new key.
  unfoldable pub execute_trade : Trade → Exec Order
  execute_trade t = Orders.get_by_idempotency_key t.idempotency_key >>= unless_known t
