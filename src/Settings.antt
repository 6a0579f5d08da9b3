-- ===== src/Settings.antt =====
-- app/core/config.py: `Settings`, whose values pydantic reads from the environment, and the values
-- that a setting has without one. A secret is its text.
use crypto_brokerage.Base.{ℕ, Bool, false, ◌||◌, String, List, [], ◌∷◌, str_eq}

pub record Settings : Type 0 where
  pub app_name : String
  pub app_version : String
  pub debug : Bool
  pub environment : String
  pub database_url : String
  pub db_pool_size : ℕ
  pub db_max_overflow : ℕ
  pub db_pool_timeout : ℕ
  pub db_pool_recycle : ℕ
  pub jwt_secret_key : String
  pub jwt_algorithm : String
  pub jwt_access_token_expire_minutes : ℕ
  pub jwt_refresh_token_expire_days : ℕ
  pub exchange_api_url : String
  pub exchange_api_key : String
  pub exchange_api_secret : String
  pub banking_api_url : String
  pub banking_api_key : String
  pub cors_allowed_origins : List String
  pub default_account_currency : String

-- `pattern="^(development|staging|production)$"`
abbrev pub is_environment : String → Bool
is_environment s = str_eq s "development" || str_eq s "staging" || str_eq s "production"

-- The defaults; the address of the database has none.
abbrev pub default_settings : String → Settings
default_settings database_url = record {
  app_name = "Crypto Brokerage API";
  app_version = "0.1.0";
  debug = false;
  environment = "development";
  database_url = database_url;
  db_pool_size = 10;
  db_max_overflow = 20;
  db_pool_timeout = 30;
  db_pool_recycle = 1800;
  jwt_secret_key = "CHANGE_ME_IN_PRODUCTION_USE_STRONG_SECRET";
  jwt_algorithm = "HS256";
  jwt_access_token_expire_minutes = 60;
  jwt_refresh_token_expire_days = 7;
  exchange_api_url = "https://api.exchange.example.com";
  exchange_api_key = "stub_key";
  exchange_api_secret = "stub_secret";
  banking_api_url = "https://api.banking.example.com";
  banking_api_key = "stub_key";
  cors_allowed_origins = "http://localhost:3000" ∷ "http://localhost:8000" ∷ [];
  default_account_currency = "BRL";
}
