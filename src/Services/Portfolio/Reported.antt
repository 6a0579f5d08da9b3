-- ===== src/Services/Portfolio/Reported.antt =====
-- What a portfolio that is read says of the positions.
use crypto_brokerage.Base.{◌≡◌, ◌⊎◌, String, List, [], select}
use crypto_brokerage.Decimal
use crypto_brokerage.Decimal.{Decimal, nought}
use crypto_brokerage.Models.{Position}
use crypto_brokerage.Errors.{Error, ok, err}
use crypto_brokerage.Env.{Env}
use crypto_brokerage.Session.{World}
use crypto_brokerage.Repositories.Positions
use crypto_brokerage.Services.Portfolio.{Prices, symbols_of, PortfolioSummary}
use crypto_brokerage.Services.Portfolio.Loop.{total, cost_of, Reports, has_asset}

-- The prices are the exchange's answer, or none where it gives none or is not asked.
abbrev pub Quoted : Env → World → List String → Prices → Type 0
Quoted env w symbols prices =
    (env.exchange.get_instrument_prices w.calls symbols ≡ ok prices)
    ⊎ ((((e : Error) × (env.exchange.get_instrument_prices w.calls symbols ≡ err e))
          ⊎ (symbols ≡ []))
        × (prices ≡ []))

-- A summary of these positions.
pub record IsSummary (env : Env) (q : String) (ps : List Position) (w : World)
    (r : PortfolioSummary) (w' : World) : Type 0 where
  pub prices : Prices
  pub quoted : Quoted env w (symbols_of w.db q ps) prices
  pub reported : Reports w.db prices q (select (has_asset w.db prices q) ps) r.positions
  pub worth : r.total_market_value ≡ total (λ s. s.market_value) nought r.positions
  pub spent : r.total_cost_basis ≡ total cost_of nought r.positions
  pub gained : r.total_unrealized_pnl ≡ Decimal.sub r.total_market_value r.total_cost_basis
  pub same_tables : w'.db ≡ w.db
