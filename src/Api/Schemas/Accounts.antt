-- ===== src/Api/Schemas/Accounts.antt =====
-- app/api/schemas/account.py.
use crypto_brokerage.Base.{ℕ, Bool, ◌&&◌, String}
use crypto_brokerage.Decimal.{Decimal}
use crypto_brokerage.Models.{Account, AccountType, BankAccount, BankAccountStatus}
use crypto_brokerage.Api.Schemas.Users.{within}

pub record AccountRead : Type 0 where
  pub id : ℕ
  pub user_id : ℕ
  pub currency : String
  pub account_type : AccountType
  pub balance : Decimal

abbrev pub account_read : Account → Decimal → AccountRead
account_read account balance = record {
  id = account.id;
  user_id = account.user_id;
  currency = account.currency;
  account_type = account.account_type;
  balance = balance;
}

pub record BankAccountCreate : Type 0 where
  pub external_reference : String
  pub bank_name : String

abbrev pub is_valid_bank_account : BankAccountCreate → Bool
is_valid_bank_account p = within 1 255 p.external_reference && within 1 100 p.bank_name

pub record BankAccountRead : Type 0 where
  pub id : ℕ
  pub user_id : ℕ
  pub external_reference : String
  pub bank_name : String
  pub status : BankAccountStatus

-- `BankAccountRead.model_validate`
abbrev pub bank_account_read : BankAccount → BankAccountRead
bank_account_read a = record {
  id = a.id;
  user_id = a.user_id;
  external_reference = a.external_reference;
  bank_name = a.bank_name;
  status = a.status;
}
