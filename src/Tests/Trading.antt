-- ===== src/Tests/Trading.antt =====
-- Trades at concrete inputs.
use crypto_brokerage.Base.{◌≡◌, refl, ◌⊎◌, none, some, List, [], ◌∷◌}
use crypto_brokerage.Base.Int.{pos, ◌+ℤ◌, ◌-ℤ◌, ◌*ℤ◌}
use crypto_brokerage.Decimal
use crypto_brokerage.Models.{
  Order, OrderStatus, Transaction, TransactionType, TransactionStatus, buy,
}
use crypto_brokerage.Errors.{Error, ok, external_gateway_timeout, err, insufficient_funds}
use crypto_brokerage.Gateways.{OrderSubmission}
use crypto_brokerage.Session.{World, request}
use crypto_brokerage.Session.Outcome.{Returns, Raises}
use crypto_brokerage.Repository
use crypto_brokerage.Repositories.Accounts.{
  get_by_user_and_currency, get_balance, get_balance_for_update, balance_of,
}
use crypto_brokerage.Repositories.Orders
use crypto_brokerage.Repositories.Transactions
use crypto_brokerage.Services.Trading
use crypto_brokerage.Services.Trading.{
  order_request, Trade, admit, open_order, submit, fills_of, process_fills, finalise, place,
  execute_trade,
}
use crypto_brokerage.Services.Trading.Admitted.{cost, execute_trade_short}
use crypto_brokerage.Decimal.{decimal}
use crypto_brokerage.Services.Trading.Fills.{IsRefusal}
use crypto_brokerage.Services.Trading.Raced.{place_raced}
use crypto_brokerage.Services.Trading.Retried.{known-execute_trade}
use crypto_brokerage.Services.Trading.Placed.{IsPlaced, known, execute_trade-Returns}
use crypto_brokerage.Services.Trading.Forgotten.{Reaches, IsForgotten, submit_error_forgotten}
use crypto_brokerage.Services.Trading.Filled.{execution_forgotten}
use crypto_brokerage.Requests.{Request, serve_all}
use crypto_brokerage.Requests.Once.{execute_trade_once}
use crypto_brokerage.Requests.Unreserved.{admit_again}
use crypto_brokerage.Env.{Env}
use crypto_brokerage.Tests.Scene.{
  calm, silent, env_of, accepted, payment, world, purchase, one_fill, account,
}
use crypto_brokerage.Tests.Scene.Consistent.{tables-IsConsistent}

abbrev pub order : Order
order = record {
  id = 100;
  user_id = 1;
  asset_id = 2;
  side = buy;
  order_type = purchase.order_type;
  amount = pos 2000000000000000000;
  filled_amount = pos 0;
  price = some (pos 5000000000000000000);
  status = OrderStatus.pending;
  idempotency_key = "k1";
}

abbrev pub after : World
after = (execute_trade calm purchase world).1

pub purchase-Returns : Returns (execute_trade calm purchase) world order after
unfolding execute_trade place admit open_order Trading.settle submit fills_of process_fills finalise
    Orders.get_by_idempotency_key get_by_user_and_currency get_balance get_balance_for_update
    Repository.get_by_id Repository.add Transactions.create Decimal.le Decimal.lt Decimal.mul
    Decimal.sub ◌+ℤ◌ ◌-ℤ◌ ◌*ℤ◌
purchase-Returns = refl

execute_trade-Returns_example :
    ((known "k1" world.db ≡ some order) × (after ≡ world))
    ⊎ ((known "k1" world.db ≡ none) × IsPlaced purchase world.db after.db order)
execute_trade-Returns_example =
    execute_trade-Returns calm purchase world order after purchase-Returns

-- The state in which the trade reaches a gateway that does not answer.
abbrev admitted_at : World
admitted_at = (admit calm purchase world).1

abbrev opened_at : World
opened_at = (open_order silent purchase admitted_at).1

abbrev opened : Order × Transaction
opened = (
  order,
  record {
    id = 101;
    user_id = 1;
    transaction_type = TransactionType.trade;
    status = TransactionStatus.pending;
    reference_id = some "uuid";
  },
)

reached : Reaches silent purchase world
unfolding admit open_order Orders.get_by_idempotency_key get_by_user_and_currency get_balance
    get_balance_for_update Repository.get_by_id Repository.add Transactions.create Decimal.le
    Decimal.lt Decimal.mul Decimal.sub ◌+ℤ◌ ◌-ℤ◌ ◌*ℤ◌
reached = record {
  new_key = refl;
  account = account 3 "BRL";
  locked = admitted_at;
  admitted = refl;
  opened = opened;
  world = opened_at;
  stored = refl;
}

submit_error_forgotten_example :
    IsForgotten silent purchase world reached.world external_gateway_timeout
submit_error_forgotten_example =
    submit_error_forgotten silent purchase world reached external_gateway_timeout refl

-- The order of another session, found too late.
committed : known "k1" after.db ≡ some order
committed = known-execute_trade calm purchase world order after purchase-Returns

place_raced_example :
    (e : Error) × Raises (request (place calm purchase)) after e
    × ((request (place calm purchase) after).1.db ≡ after.db)
    × ((request (place calm purchase) after).1.calls ≡ after.calls)
place_raced_example = place_raced calm purchase after order committed

-- An exchange that has filled the order.
abbrev full : OrderSubmission
full = record {
  external_order_id = "x1";
  status = "FILLED";
  filled_amount = one_fill.amount;
  average_price = one_fill.price;
  fee = one_fill.fee;
  fills = one_fill ∷ [];
}

abbrev prompt : Env
prompt = env_of (ok full) (ok accepted)

filled_reached : Reaches prompt purchase world
unfolding admit open_order Orders.get_by_idempotency_key get_by_user_and_currency get_balance
    get_balance_for_update Repository.get_by_id Repository.add Transactions.create Decimal.le
    Decimal.lt Decimal.mul Decimal.sub ◌+ℤ◌ ◌-ℤ◌ ◌*ℤ◌
filled_reached = record {
  new_key = refl;
  account = account 3 "BRL";
  locked = admitted_at;
  admitted = refl;
  opened = opened;
  world = opened_at;
  stored = refl;
}

execution_forgotten_example :
    (e : Error) × IsRefusal prompt e × IsForgotten prompt purchase world filled_reached.world e
execution_forgotten_example =
    execution_forgotten prompt purchase world filled_reached full refl refl

-- The order is sent again after a deposit and its confirmation.
abbrev requests : List Request
requests = Request.deposit payment ∷ Request.confirm "p1" ∷ Request.trade purchase ∷ []

abbrev later : World
later = serve_all calm requests after

execute_trade_once_example : Returns (execute_trade calm purchase) later order later
execute_trade_once_example =
    execute_trade_once calm purchase purchase requests world order after purchase-Returns refl

admitted : Returns (admit calm purchase) world (account 3 "BRL") admitted_at
unfolding admit get_by_user_and_currency get_balance get_balance_for_update Repository.get_by_id
    Decimal.le Decimal.lt Decimal.mul Decimal.sub ◌+ℤ◌ ◌-ℤ◌ ◌*ℤ◌
admitted = refl

-- 100 at the price of 5, for a user with 100.
abbrev dear : Trade
dear = record purchase { amount = decimal (pos 100) 0; price = some (decimal (pos 5) 0) }

execute_trade_short_example : execute_trade calm dear world ≡ (
  err (insufficient_funds (balance_of 3 world.db) (cost dear (decimal (pos 5) 0)) "BRL"),
  world,
)
unfolding Decimal.le Decimal.lt Decimal.mul Decimal.sub ◌+ℤ◌ ◌-ℤ◌ ◌*ℤ◌
execute_trade_short_example =
    execute_trade_short calm dear world (account 3 "BRL") (decimal (pos 5) 0) tables-IsConsistent
      refl refl refl refl refl refl refl refl refl

admit_again_example :
    Returns
      (admit calm purchase)
      (serve_all calm requests world)
      (account 3 "BRL")
      (serve_all calm requests world)
admit_again_example =
    admit_again calm requests purchase world (account 3 "BRL") admitted_at tables-IsConsistent
      admitted
