-- ===== src/Models/Assets.antt =====
-- app/models/asset.py.
use crypto_brokerage.Base.{ℕ, Option, String}

pub data AssetType : Type 0 where
  crypto fiat stock commodity : AssetType

pub record Asset : Type 0 where
  pub id : ℕ
  pub symbol : String
  pub name : String
  pub asset_type : AssetType
  pub network : Option String
  -- `precision`
  pub decimals : ℕ
