-- ===== src/Models/Entries.antt =====
-- app/models/ledger.py: one movement of `amount` from the debit to the credit account.
use crypto_brokerage.Base.{ℕ, Bool, ◌&&◌, String, fits}
use crypto_brokerage.Base.Int.{ℤ}

pub record LedgerEntry : Type 0 where
  pub id : ℕ
  pub debit_account_id : ℕ
  pub credit_account_id : ℕ
  pub amount : ℤ
  pub currency : String
  pub reference_type : String
  pub reference_id : String

-- The lengths of the columns.
abbrev pub entry_fits : LedgerEntry → Bool
entry_fits e = fits 10 e.currency && fits 50 e.reference_type && fits 128 e.reference_id
