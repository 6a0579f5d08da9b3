-- ===== src/Repositories/Positions.antt =====
-- app/repositories/order_repository.py: `PositionRepository`.
pub mod Upsert
use crypto_brokerage.Base.{
  ℕ, ◌&&◌, Option, none, some, List, ◌==◌, find, select, and_then, if◌then◌else◌,
}
use crypto_brokerage.Decimal
use crypto_brokerage.Decimal.{Decimal, nought}
use crypto_brokerage.Models.{Position, of_units}
use crypto_brokerage.Errors.{decimal_error}
use crypto_brokerage.Env.{Env}
use crypto_brokerage.Session.{Exec, ◌>>=◌, query, or_raise}
use crypto_brokerage.Repository.{add, update}
use crypto_brokerage.Tables.{positions}

unfoldable pub get_by_user_and_asset : ℕ → ℕ → Exec (Option Position)
get_by_user_and_asset user_id asset_id =
    query (λ db. find (λ p. p.user_id == user_id && p.asset_id == asset_id) db.positions)

unfoldable pub get_by_user : ℕ → Exec (List Position)
get_by_user user_id = query (λ db. select (λ p. p.user_id == user_id) db.positions)

-- The row of a first fill, under the key `i`.
abbrev pub first_position : Env → ℕ → ℕ → Decimal → Decimal → ℕ → Option Position
first_position env user_id asset_id quantity_delta fill_price i =
    and_then (env.numeric quantity_delta) λ quantity.
      and_then (env.numeric (if Decimal.lt nought quantity_delta then fill_price else nought))
        λ average. some (record {
          id = i;
          user_id = user_id;
          asset_id = asset_id;
          quantity = quantity;
          average_price = average;
        })

-- The average price after a change of the quantity; `none` where the division raises.
abbrev pub new_average : Position → Decimal → Decimal → Option Decimal
new_average p quantity_delta fill_price =
    let old_qty = of_units p.quantity in
    let old_avg = of_units p.average_price in
    let new_qty = Decimal.add old_qty quantity_delta in
    if Decimal.lt nought quantity_delta
    then Decimal.div
        (Decimal.add (Decimal.mul old_qty old_avg) (Decimal.mul quantity_delta fill_price)) new_qty
    else some old_avg

abbrev pub moved_position : Env → Decimal → Decimal → Position → Option Position
moved_position env new_qty new_avg p = and_then (env.numeric new_qty) λ quantity.
    and_then (env.numeric new_avg)
      λ average. some (record p { quantity = quantity; average_price = average })

abbrev pub upsert : Env → ℕ → ℕ → Decimal → Decimal → Option Position → Exec Position
upsert env user_id asset_id quantity_delta fill_price none =
    add positions env (first_position env user_id asset_id quantity_delta fill_price)
upsert env user_id asset_id quantity_delta fill_price (some p) = do
  new_avg ← or_raise decimal_error (new_average p quantity_delta fill_price)
  update positions p.id
      (moved_position env (Decimal.add (of_units p.quantity) quantity_delta) new_avg)

unfoldable pub upsert_position : Env → ℕ → ℕ → Decimal → Decimal → Exec Position
unfolding get_by_user_and_asset
upsert_position env user_id asset_id quantity_delta fill_price = do
  position ← get_by_user_and_asset user_id asset_id
  upsert env user_id asset_id quantity_delta fill_price position
