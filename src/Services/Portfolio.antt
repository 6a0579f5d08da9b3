-- ===== src/Services/Portfolio.antt =====
-- app/services/portfolio_service.py: `PortfolioService.get_portfolio_summary`.
pub mod Loop
pub mod Reported
use Prim.Native.String.{◌++◌ as str_append}
use crypto_brokerage.Base.{
  ℕ, Option, none, some, String, List, [], ◌∷◌, ◌++◌, ◌==◌, str_eq, find, and_then, if◌then◌else◌,
}
use crypto_brokerage.Base.Int.{pos}
use crypto_brokerage.Decimal
use crypto_brokerage.Decimal.{Decimal, decimal, nought}
use crypto_brokerage.Models.{Account, Asset, Position, of_units}
use crypto_brokerage.Errors.{Result, ok, err, decimal_error}
use crypto_brokerage.Gateways.{InstrumentPrice, Call}
use crypto_brokerage.Env.{Env, checked}
use crypto_brokerage.Session.{Db, Exec, ◌>>=◌, pure, query, or_raise, dial}
use crypto_brokerage.Repositories.Accounts.{get_by_user_and_currency, get_balance}
use crypto_brokerage.Repositories.Positions

pub record PositionSummary : Type 0 where
  pub asset_id : ℕ
  pub asset_symbol : String
  pub asset_name : String
  pub quantity : Decimal
  pub average_price : Decimal
  pub current_price : Decimal
  pub market_value : Decimal
  pub unrealized_pnl : Decimal
  pub unrealized_pnl_pct : Decimal

pub record PortfolioSummary : Type 0 where
  pub user_id : ℕ
  pub positions : List PositionSummary
  pub total_market_value : Decimal
  pub total_cost_basis : Decimal
  pub total_unrealized_pnl : Decimal
  pub total_unrealized_pnl_pct : Decimal
  pub cash_balance : Decimal
  pub cash_currency : String

-- `PortfolioSummary(user_id=user_id, cash_currency=quote_currency)`
abbrev pub empty_summary : ℕ → String → PortfolioSummary
empty_summary user_id quote_currency = record {
  user_id = user_id;
  positions = [];
  total_market_value = nought;
  total_cost_basis = nought;
  total_unrealized_pnl = nought;
  total_unrealized_pnl_pct = nought;
  cash_balance = nought;
  cash_currency = quote_currency;
}

-- The prices by symbol, as the gateway's dict.
abbrev pub Prices : Type 0
Prices = List (String × InstrumentPrice)

abbrev pub asset_of : Db → Position → Option Asset
asset_of db p = find (λ (a : Asset). a.id == p.asset_id) db.assets

abbrev pub symbol_key : String → Asset → String
symbol_key quote_currency asset = str_append asset.symbol quote_currency

-- Steps 2 and 3: the symbols of the positions whose asset is there.
abbrev pub symbols_of : Db → String → List Position → List String
symbols_of db quote_currency [] = []
symbols_of db quote_currency (p ∷ ps) =
    let rest = symbols_of db quote_currency ps in
    elim (asset_of db p) [ none ↦ rest | some asset ↦ symbol_key quote_currency asset ∷ rest ]

-- `except Exception`: no prices
abbrev pub or_no_prices : Result Prices → Exec Prices
or_no_prices (ok prices) = pure prices
or_no_prices (err e) = pure []

abbrev pub guarded : Exec Prices → Exec Prices
guarded m w = or_no_prices (m w).0 (m w).1

abbrev pub current_price : Prices → String → Decimal
current_price prices symbol =
    elim (find (λ (p : String × InstrumentPrice). str_eq p.0 symbol) prices) [
      | none ↦ nought
      | some p ↦ p.1.last
    ]

-- `pnl / cost * 100 if cost > 0 else 0`
abbrev pub percentage : Env → Decimal → Decimal → Option Decimal
percentage env pnl cost =
    if Decimal.lt nought cost
    then and_then (Decimal.div pnl cost)
        (λ q. and_then (checked env q) (λ r. checked env (Decimal.mul r (decimal (pos 100) 0))))
    else some nought

-- The columns of a position are too small for its cost, or a sum of costs, to overflow.
abbrev pub cost_basis : Position → Decimal
cost_basis p = Decimal.mul (of_units p.quantity) (of_units p.average_price)

abbrev pub market_value : Position → Decimal → Decimal
market_value p price = Decimal.mul (of_units p.quantity) price

abbrev pub summary_of : Env → Position → Asset → Decimal → Option PositionSummary
summary_of env p asset price = and_then (checked env (market_value p price)) λ market.
    and_then (checked env (Decimal.sub market (cost_basis p))) λ pnl.
      and_then (percentage env pnl (cost_basis p)) λ pct. some (record {
        asset_id = p.asset_id;
        asset_symbol = asset.symbol;
        asset_name = asset.name;
        quantity = of_units p.quantity;
        average_price = of_units p.average_price;
        current_price = price;
        market_value = market;
        unrealized_pnl = pnl;
        unrealized_pnl_pct = pct;
      })

-- `position_summaries`, `total_market_value` and `total_cost_basis`
pub record Running : Type 0 where
  pub summaries : List PositionSummary
  pub market : Decimal
  pub cost : Decimal

abbrev pub include : Env → Prices → String → Running → Position → Option Asset → Option Running
include env prices quote_currency acc p none = some acc
include env prices quote_currency acc p (some asset) =
    let price = current_price prices (symbol_key quote_currency asset) in
    and_then (summary_of env p asset price) λ s.
      and_then (checked env (Decimal.add acc.market s.market_value)) λ market. some (record {
        summaries = acc.summaries ++ (s ∷ []);
        market = market;
        cost = Decimal.add acc.cost (cost_basis p);
      })

-- Step 4.
abbrev pub summarise : Env → Db → Prices → String → Running → List Position → Option Running
summarise env db prices quote_currency acc [] = some acc
summarise env db prices quote_currency acc (p ∷ ps) =
    and_then (include env prices quote_currency acc p (asset_of db p))
      (λ acc'. summarise env db prices quote_currency acc' ps)

abbrev pub cash_of : Option Account → Exec Decimal
cash_of none = pure nought
cash_of (some account) = get_balance account.id

module _ (env : Env) where
  abbrev pub fetch_prices : List String → Exec Prices
  fetch_prices [] = pure []
  fetch_prices (s ∷ symbols) = guarded (
      dial (Call.get_instrument_prices (s ∷ symbols))
        (λ calls. env.exchange.get_instrument_prices calls (s ∷ symbols)))

  abbrev pub summarise_all : ℕ → String → List Position → Exec PortfolioSummary
  summarise_all user_id quote_currency [] = pure (empty_summary user_id quote_currency)
  summarise_all user_id quote_currency (p ∷ ps) = do
    db ← query (λ db. db)
    prices ← fetch_prices (symbols_of db quote_currency (p ∷ ps))
    total ← or_raise decimal_error (
        summarise env db prices quote_currency
          (record { summaries = []; market = nought; cost = nought }) (p ∷ ps))
    cash ← get_by_user_and_currency user_id quote_currency >>= cash_of
    pnl ← or_raise decimal_error (checked env (Decimal.sub total.market total.cost))
    pct ← or_raise decimal_error (percentage env pnl total.cost)
    pure (record {
      user_id = user_id;
      positions = total.summaries;
      total_market_value = total.market;
      total_cost_basis = total.cost;
      total_unrealized_pnl = pnl;
      total_unrealized_pnl_pct = pct;
      cash_balance = cash;
      cash_currency = quote_currency;
    })

  unfoldable pub get_portfolio_summary : ℕ → String → Exec PortfolioSummary
  get_portfolio_summary user_id quote_currency =
      Positions.get_by_user user_id >>= summarise_all user_id quote_currency
