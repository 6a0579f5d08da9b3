-- ===== src/Errors.antt =====
-- app/core/exceptions.py: the exception classes, with the errors that the database driver, the
-- `decimal` module and unfinished code raise. An exception carries what a handler reads.
use crypto_brokerage.Base.{ℕ, String}
use crypto_brokerage.Decimal.{Decimal}

pub data Error : Type 0 where
  authentication authorization user_not_found user_already_exists : Error
  kyc_not_approved : Error
  account_not_found bank_account_not_found bank_account_already_linked : Error
  -- available, required, currency
  insufficient_funds : Decimal → Decimal → String → Error
  asset_not_found : Error
  duplicate_idempotency_key : String → Error
  order_not_found invalid_order order_already_finalized : Error
  transaction_not_found ledger_imbalance : Error
  external_gateway external_gateway_timeout external_gateway_rate_limit : Error
  -- `sqlalchemy.exc.IntegrityError`: a UNIQUE or FOREIGN KEY constraint
  integrity : Error
  -- `sqlalchemy.exc.DataError`: a number or a text that its column cannot hold
  data_error : Error
  -- `sqlalchemy.orm.exc.StaleDataError`: an UPDATE of a row that is not there
  stale_data : Error
  -- `decimal.DivisionByZero`, `decimal.InvalidOperation` or `decimal.Overflow`
  decimal_error : Error
  not_implemented : Error
  -- `ValueError`
  value_error : Error
  -- `fastapi.HTTPException`: the status
  http_exception : ℕ → Error
  -- any other exception
  other : String → Error

pub data Result {ℓ} (A : Type ℓ) : Type ℓ where
  ok : A → Result A
  err : Error → Result A
