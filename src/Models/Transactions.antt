-- ===== src/Models/Transactions.antt =====
-- app/models/transaction.py.
use crypto_brokerage.Base.{ℕ, Bool, true, false, Option, String, fits_or_null}

pub data TransactionType : Type 0 where
  deposit withdraw trade fee : TransactionType

pub data TransactionStatus : Type 0 where
  pending processing completed failed reversed : TransactionStatus

-- `TransactionStatus.is_terminal`
abbrev pub is_terminal_transaction : TransactionStatus → Bool
is_terminal_transaction TransactionStatus.completed = true
is_terminal_transaction TransactionStatus.failed = true
is_terminal_transaction TransactionStatus.reversed = true
is_terminal_transaction _ = false

pub record Transaction : Type 0 where
  pub id : ℕ
  pub user_id : ℕ
  pub transaction_type : TransactionType
  pub status : TransactionStatus
  pub reference_id : Option String

-- The length of the column `reference_id`.
abbrev pub reference_fits : Option String → Bool
reference_fits reference_id = fits_or_null 255 reference_id
