-- ===== src/Api/Portfolio.antt =====
-- app/api/v1/portfolio.py.
use crypto_brokerage.Base.{Option, String}
use crypto_brokerage.Models.{User}
use crypto_brokerage.Env.{Env}
use crypto_brokerage.Session.{World, Exec, ◌>>=◌, pure}
use crypto_brokerage.Services.Portfolio.{get_portfolio_summary}
use crypto_brokerage.Api.{Response, respond, authenticated}
use crypto_brokerage.Api.Schemas.Portfolio.{PortfolioSummaryRead, summary_read}

module _ (env : Env) where
  unfoldable pub get_portfolio : User → String → Exec PortfolioSummaryRead
  get_portfolio current_user quote_currency = do
    summary ← get_portfolio_summary env current_user.id quote_currency
    pure (summary_read summary)

  -- GET /portfolio
  abbrev pub get_portfolio_route :
      Option String → String → World → Response PortfolioSummaryRead × World
  get_portfolio_route header quote_currency =
      respond 200 (authenticated env header λ user. get_portfolio user quote_currency)
