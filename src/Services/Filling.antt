-- ===== src/Services/Filling.antt =====
-- app/services/trading_service.py: step 7 of `execute_trade`, the loop over the fills, and
-- `_process_fill`.
use crypto_brokerage.Base.{
  ℕ, Bool, true, false, ◌&&◌, ◌||◌, Option, some, String, List, [], ◌∷◌, str_eq, if◌then◌else◌,
  and_then,
}
use crypto_brokerage.Decimal
use crypto_brokerage.Decimal.{Decimal, nought}
use crypto_brokerage.Models.{
  execution_fits, Account, Order, OrderSide, buy, sell, TradeExecution, Transaction,
}
use crypto_brokerage.Gateways.{FillEvent, OrderSubmission}
use crypto_brokerage.Errors.{decimal_error}
use crypto_brokerage.Env.{Env, checked}
use crypto_brokerage.Session.{Exec, ◌>>=◌, ◌>>◌, pure, or_raise, lift, now}
use crypto_brokerage.Repository.{stored, add}
use crypto_brokerage.Tables.{trade_executions}
use crypto_brokerage.Repositories.Ledger.{Movement, create_double_entry}
use crypto_brokerage.Repositories.Orders
use crypto_brokerage.Repositories.Positions.{upsert_position}

abbrev pub is_buy : OrderSide → Bool
is_buy buy = true
is_buy sell = false

abbrev pub is_empty : List FillEvent → Bool
is_empty [] = true
is_empty (f ∷ fs) = false

-- A single fill for an aggregate answer with no fills of its own.
abbrev pub aggregate_fill : OrderSubmission → ℕ → FillEvent
aggregate_fill s timestamp = record {
  fill_id = s.external_order_id;
  price = s.average_price;
  amount = s.filled_amount;
  fee = s.fee;
  timestamp = timestamp;
}

abbrev pub is_aggregate : OrderSubmission → Bool
is_aggregate s = is_empty s.fills && str_eq s.status "FILLED"

unfoldable pub fills_of : OrderSubmission → Exec (List FillEvent)
fills_of s =
    if is_aggregate s
    then (do timestamp ← now; pure (aggregate_fill s timestamp ∷ []))
    else pure s.fills

abbrev pub contains : List String → String → Bool
contains [] s = false
contains (x ∷ xs) s = str_eq s x || contains xs s

module _ (env : Env) where
  abbrev pub execution_row : Order → FillEvent → ℕ → ℕ → Option TradeExecution
  execution_row order fill timestamp i = and_then (env.numeric fill.price) λ price.
      and_then (env.numeric fill.amount) λ amount. and_then (env.numeric fill.fee) λ fee.
        stored execution_fits (record {
          id = i;
          order_id = order.id;
          executed_price = price;
          executed_amount = amount;
          fee = fee;
          timestamp = timestamp;
          external_fill_id = some fill.fill_id;
        })

  abbrev pub fill_value : FillEvent → Decimal
  fill_value fill = Decimal.mul fill.price fill.amount

  -- Both sides post the same movement: the two branches of the source differ in comments only.
  abbrev pub movement : OrderSide → FillEvent → Account → String → Transaction → Movement
  movement buy fill account quote_currency transaction = record {
    debit_account_id = account.id;
    credit_account_id = account.id;
    amount = fill_value fill;
    currency = quote_currency;
    reference_type = "TRADE";
    reference_id = env.str_uuid transaction.id;
  }
  movement sell fill account quote_currency transaction = record {
    debit_account_id = account.id;
    credit_account_id = account.id;
    amount = fill_value fill;
    currency = quote_currency;
    reference_type = "TRADE";
    reference_id = env.str_uuid transaction.id;
  }

  -- `_process_fill`; the numbers of a fill whose row is stored are too small to overflow after it. The
  -- refreshed order is the object that the caller goes on with.
  unfoldable pub process_fill : Order → FillEvent → Account → String → Transaction → Exec Order
  process_fill order fill account quote_currency transaction = do
    or_raise decimal_error (checked env (fill_value fill))
    timestamp ← lift (env.fromtimestamp fill.timestamp)
    add trade_executions env (execution_row order fill timestamp)
    create_double_entry env (movement order.side fill account quote_currency transaction)
    upsert_position env order.user_id order.asset_id
        (if is_buy order.side then fill.amount else Decimal.neg fill.amount) fill.price
    Orders.apply_fill env order fill.amount

  -- Step 7: `seen` is `seen_fill_ids`.
  unfoldable pub process_fills :
      List String → Account → String → Transaction → List FillEvent → Order → Exec Order
  process_fills seen account quote_currency transaction [] order = pure order
  process_fills seen account quote_currency transaction (fill ∷ fills) order =
      elim (contains seen fill.fill_id) [
        | true ↦ process_fills seen account quote_currency transaction fills order
        | false ↦
            process_fill order fill account quote_currency transaction
            >>= process_fills (fill.fill_id ∷ seen) account quote_currency transaction fills
      ]
