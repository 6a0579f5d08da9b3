-- ===== src/Tests/Deployed.antt =====
-- The gateways that the application builds, and the stub, at concrete inputs.
use crypto_brokerage.Base.{◌≡◌, refl, some, List, [], ◌∷◌}
use crypto_brokerage.Base.Int.{◌+ℤ◌, ◌-ℤ◌, ◌*ℤ◌}
use crypto_brokerage.Decimal.{decimal}
use crypto_brokerage.Env.{Env}
use crypto_brokerage.Session.Outcome.{Returns}
use crypto_brokerage.Decimal
use crypto_brokerage.Repository
use crypto_brokerage.Repositories.Accounts.{
  get_by_user_and_currency, get_balance, get_balance_for_update,
}
use crypto_brokerage.Repositories.Orders
use crypto_brokerage.Repositories.Transactions
use crypto_brokerage.Services.Trading
use crypto_brokerage.Services.Trading.{
  admit, open_order, submit, fills_of, process_fills, finalise, place, execute_trade,
}
use crypto_brokerage.Services.Trading.Placed.{known}
use crypto_brokerage.Requests.{Request, Route, serve_all}
use crypto_brokerage.Integrations.Http.{Client, http_exchange_gateway}
use crypto_brokerage.Integrations.Http.Production.{IsRetry, execute_trade-known, serve_all-orders}
use crypto_brokerage.Tests.Scene.{calm, world, purchase, payment}
use crypto_brokerage.Tests.Trading.{order, after}
use crypto_brokerage.Tests.Answered.{body}

-- The first attempt is the last.
abbrev client : Client
client = record { retry = λ A f. f 0; time = λ calls attempt. 1000; uuid4 = λ calls attempt n. "x" }

client-IsRetry : IsRetry client
client-IsRetry A f a h = (0, h)

abbrev deployed : Env
deployed = record calm { exchange = http_exchange_gateway client }

found_again : Returns (execute_trade deployed purchase) after order after
unfolding execute_trade place admit open_order Trading.settle submit fills_of process_fills finalise
    Orders.get_by_idempotency_key get_by_user_and_currency get_balance get_balance_for_update
    Repository.get_by_id Repository.add Transactions.create Decimal.le Decimal.lt Decimal.mul
    Decimal.sub ◌+ℤ◌ ◌-ℤ◌ ◌*ℤ◌
found_again = refl

execute_trade-known_example : (known "k1" after.db ≡ some order) × (after ≡ after)
execute_trade-known_example =
    execute_trade-known client client-IsRetry deployed refl purchase after order after found_again

abbrev requests : List Request
requests =
    Request.trade purchase
    ∷ Request.deposit payment
    ∷ Request.http (Route.post_order (some "access") body)
    ∷ []

serve_all-orders_example : (serve_all deployed requests world).db.orders ≡ world.db.orders
serve_all-orders_example = serve_all-orders client client-IsRetry deployed refl requests world
