-- ===== src/Tests/Positions.antt =====
-- Positions at concrete inputs.
use crypto_brokerage.Base.{◌≡◌, refl, [], ◌∷◌}
use crypto_brokerage.Base.Int.{ℤ, pos, negsuc, ◌+ℤ◌, ◌-ℤ◌, ◌*ℤ◌}
use crypto_brokerage.Decimal
use crypto_brokerage.Decimal.{decimal}
use crypto_brokerage.Models.{Position, of_units}
use crypto_brokerage.Errors.{err, decimal_error}
use crypto_brokerage.Session.{World}
use crypto_brokerage.Session.Outcome.{Returns}
use crypto_brokerage.Repository
use crypto_brokerage.Repository.{replace}
use crypto_brokerage.Repositories.Positions.{upsert_position}
use crypto_brokerage.Tests.Scene.{calm, world}

abbrev position : ℤ → Position
position quantity = record {
  id = 8;
  user_id = 1;
  asset_id = 2;
  quantity = quantity;
  average_price = pos 4000000000000000000;
}

abbrev held : Position → World
held p = record world { db = record world.db { positions = p ∷ [] } }

-- 3 sold short, 3 bought back
abbrev short : Position
short = position (negsuc 2999999999999999999)

short_closed : (Decimal.add (of_units short.quantity) (decimal (pos 3) 0)).coefficient ≡ pos 0
unfolding Decimal.add ◌+ℤ◌ ◌*ℤ◌
short_closed = refl

closed :
    upsert_position calm 1 2 (decimal (pos 3) 0) (decimal (pos 7) 0) (held short)
    ≡ (err decimal_error, held short)
unfolding upsert_position Decimal.lt Decimal.add Decimal.mul Decimal.div ◌+ℤ◌ ◌*ℤ◌
closed = refl

-- 2 of 5 sold
abbrev long : Position
long = position (pos 5000000000000000000)

abbrev left : Position
left = position (pos 3000000000000000000)

abbrev delta : Decimal.Decimal
delta = decimal (negsuc 1) 0

sold : Returns (upsert_position calm 1 2 delta (decimal (pos 7) 0)) (held long) left (held left)
unfolding upsert_position Repository.update Decimal.lt Decimal.add Decimal.mul Decimal.div ◌+ℤ◌ ◌-ℤ◌
    ◌*ℤ◌
sold = refl
