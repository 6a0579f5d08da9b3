-- ===== src/Repositories/Orders.antt =====
-- app/repositories/order_repository.py: `OrderRepository` and `TradeExecutionRepository`.
use crypto_brokerage.Base.{
  ℕ, Bool, true, ◌&&◌, Option, none, some, String, List, ◌==◌, str_eq, find, select, and_then,
  if◌then◌else◌,
}
use crypto_brokerage.Base.Pages.{ascending, descending, order_by, page}
use crypto_brokerage.Decimal.{Decimal, add, le}
use crypto_brokerage.Models.{Order, OrderStatus, TradeExecution, of_units}
use crypto_brokerage.Env.{Env}
use crypto_brokerage.Session.{Exec, query}
use crypto_brokerage.Repository.{update}
use crypto_brokerage.Tables.{orders}

unfoldable pub get_by_idempotency_key : String → Exec (Option Order)
get_by_idempotency_key idempotency_key =
    query (λ db. find (λ o. str_eq o.idempotency_key idempotency_key) db.orders)

unfoldable pub update_status : Order → OrderStatus → Exec Order
update_status order status = update orders order.id (λ o. some (record o { status = status }))

-- `order.filled_amount + filled_qty`
abbrev pub new_filled : Order → Decimal → Decimal
new_filled order filled_qty = add (of_units order.filled_amount) filled_qty

abbrev pub new_status : Order → Decimal → OrderStatus
new_status order filled_qty =
    if le (of_units order.amount) (new_filled order filled_qty)
    then OrderStatus.filled
    else OrderStatus.partially_filled

unfoldable pub apply_fill : Env → Order → Decimal → Exec Order
apply_fill env order filled_qty = update orders order.id λ o.
    and_then (env.numeric (new_filled order filled_qty))
      λ units. some (record o { filled_amount = units; status = new_status order filled_qty })

-- `query.where(Order.status == status)`, if there is a status
abbrev status_code : OrderStatus → ℕ
status_code OrderStatus.pending = 0
status_code OrderStatus.partially_filled = 1
status_code OrderStatus.filled = 2
status_code OrderStatus.failed = 3
status_code OrderStatus.cancelled = 4

abbrev pub has_status : Option OrderStatus → Order → Bool
has_status none order = true
has_status (some status) order = status_code order.status == status_code status

module _ (env : Env) where
  unfoldable pub get_by_user : ℕ → Option OrderStatus → ℕ → ℕ → Exec (List Order)
  get_by_user user_id status limit offset = query λ db. page limit offset (
      order_by descending (λ o. env.created_at o.id) (λ o. env.tie limit offset o.id)
        (select (λ (o : Order). o.user_id == user_id && has_status status o) db.orders))

  -- `TradeExecutionRepository.get_by_order`, all rows on one page
  unfoldable pub get_by_order : ℕ → Exec (List TradeExecution)
  get_by_order order_id = query λ db.
      order_by ascending (λ (x : TradeExecution). x.timestamp) (λ x. env.tie 0 0 x.id)
        (select (λ (x : TradeExecution). x.order_id == order_id) db.trade_executions)
