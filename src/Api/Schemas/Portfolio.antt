-- ===== src/Api/Schemas/Portfolio.antt =====
-- app/api/schemas/portfolio.py.
use crypto_brokerage.Base.{ℕ, String, List, map}
use crypto_brokerage.Decimal.{Decimal}
use crypto_brokerage.Services.Portfolio.{PositionSummary, PortfolioSummary}

pub record PositionRead : Type 0 where
  pub asset_id : ℕ
  pub asset_symbol : String
  pub asset_name : String
  pub quantity : Decimal
  pub average_price : Decimal
  pub current_price : Decimal
  pub market_value : Decimal
  pub unrealized_pnl : Decimal
  pub unrealized_pnl_pct : Decimal

pub record PortfolioSummaryRead : Type 0 where
  pub user_id : ℕ
  pub positions : List PositionRead
  pub total_market_value : Decimal
  pub total_cost_basis : Decimal
  pub total_unrealized_pnl : Decimal
  pub total_unrealized_pnl_pct : Decimal
  pub cash_balance : Decimal
  pub cash_currency : String

abbrev pub position_read : PositionSummary → PositionRead
position_read p = record {
  asset_id = p.asset_id;
  asset_symbol = p.asset_symbol;
  asset_name = p.asset_name;
  quantity = p.quantity;
  average_price = p.average_price;
  current_price = p.current_price;
  market_value = p.market_value;
  unrealized_pnl = p.unrealized_pnl;
  unrealized_pnl_pct = p.unrealized_pnl_pct;
}

abbrev pub summary_read : PortfolioSummary → PortfolioSummaryRead
summary_read s = record {
  user_id = s.user_id;
  positions = map position_read s.positions;
  total_market_value = s.total_market_value;
  total_cost_basis = s.total_cost_basis;
  total_unrealized_pnl = s.total_unrealized_pnl;
  total_unrealized_pnl_pct = s.total_unrealized_pnl_pct;
  cash_balance = s.cash_balance;
  cash_currency = s.cash_currency;
}
