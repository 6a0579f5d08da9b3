-- ===== src/Api/Trading/Answered.antt =====
-- What the client of POST /orders is told.
use crypto_brokerage.Base.{◌≡◌, false}
use crypto_brokerage.Env.{Env}
use crypto_brokerage.Models.{User, Order}
use crypto_brokerage.Session.{World, request}
use crypto_brokerage.Session.Outcome.{Returns}
use crypto_brokerage.Services.Trading.{execute_trade}
use crypto_brokerage.Api.{server_error, Response, respond}
use crypto_brokerage.Api.Schemas.Orders.{OrderCreate, order_read}
use crypto_brokerage.Api.Trading.{trade_of, create_order}

module _ (env : Env) (user : User) (p : OrderCreate) where
  -- Where a relationship is not loaded when it is read, a trade that returns, so that the exchange may
  -- have been called, is answered 500, and the tables are as before.
  pub create_order_lost :
      (w : World) (o : Order) (w' : World)
      → env.lazy_loads ≡ false
      → Returns (execute_trade env (trade_of user p)) w o w'
      → respond 201 (create_order env p user) w
        ≡ (Response.problem server_error, record w' { db = w.db })
  unfolding respond create_order request order_read
  create_order_lost w o w' fails h = rw h (rw fails)
