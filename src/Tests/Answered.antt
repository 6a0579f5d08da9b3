-- ===== src/Tests/Answered.antt =====
-- POST /orders at concrete inputs.
use crypto_brokerage.Base.{◌≡◌, refl}
use crypto_brokerage.Models.{buy}
use crypto_brokerage.Api.{server_error, Response, respond}
use crypto_brokerage.Api.Schemas.Orders.{OrderCreate}
use crypto_brokerage.Api.Trading.{create_order}
use crypto_brokerage.Api.Trading.Answered.{create_order_lost}
use crypto_brokerage.Tests.Scene.{calm, user, world, purchase}
use crypto_brokerage.Tests.Trading.{order, after, purchase-Returns}

-- The same trade as a body.
abbrev pub body : OrderCreate
body = record {
  asset_id = 2;
  side = buy;
  order_type = purchase.order_type;
  amount = purchase.amount;
  price = purchase.price;
  idempotency_key = "k1";
  quote_currency = "BRL";
}

create_order_lost_example :
    respond 201 (create_order calm body user) world
    ≡ (Response.problem server_error, record after { db = world.db })
create_order_lost_example = create_order_lost calm user body world order after refl purchase-Returns
