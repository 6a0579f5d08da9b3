-- ===== src/Models/Accounts.antt =====
-- app/models/account.py. An account has no balance: that is derived from the ledger.
use crypto_brokerage.Base.{ℕ, Bool, ◌&&◌, String, fits}

pub data AccountType : Type 0 where
  fiat crypto reserve : AccountType

pub data BankAccountStatus : Type 0 where
  pending active inactive rejected : BankAccountStatus

pub record Account : Type 0 where
  pub id : ℕ
  pub user_id : ℕ
  pub currency : String
  pub account_type : AccountType

pub record BankAccount : Type 0 where
  pub id : ℕ
  pub user_id : ℕ
  pub external_reference : String
  pub bank_name : String
  pub status : BankAccountStatus

-- The lengths of the columns.
abbrev pub account_fits : Account → Bool
account_fits a = fits 10 a.currency

abbrev pub bank_account_fits : BankAccount → Bool
bank_account_fits b = fits 255 b.external_reference && fits 100 b.bank_name
