-- ===== src/Api/Schemas/Transactions.antt =====
-- app/api/schemas/transaction.py, which no route uses.
use crypto_brokerage.Base.{ℕ, Option, String}
use crypto_brokerage.Models.{TransactionType, TransactionStatus}

pub record TransactionRead : Type 0 where
  pub id : ℕ
  pub user_id : ℕ
  pub transaction_type : TransactionType
  pub status : TransactionStatus
  pub reference_id : Option String
  pub created_at : ℕ

pub record DepositResult : Type 0 where
  pub transaction_id : ℕ
  pub external_transfer_id : String
  pub status : TransactionStatus

pub record WithdrawResult : Type 0 where
  pub transaction_id : ℕ
  pub external_transfer_id : String
  pub status : TransactionStatus
