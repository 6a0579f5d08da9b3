-- ===== src/Tables/Consistent/Empty.antt =====
-- The tables of a new database keep their constraints.
use crypto_brokerage.Session.{no_rows}
use crypto_brokerage.Tables.Referring.{
  Child, of_user_profiles, of_accounts, of_bank_accounts, of_orders, of_trade_executions,
  of_positions, of_transactions, of_ledger_entries, Referring,
}
use crypto_brokerage.Tables.Consistent.{IsConsistent}

no_rows-Referring : (t : Child) → Referring t no_rows
no_rows-Referring of_user_profiles = tt
no_rows-Referring of_accounts = tt
no_rows-Referring of_bank_accounts = tt
no_rows-Referring of_orders = tt
no_rows-Referring of_trade_executions = tt
no_rows-Referring of_positions = tt
no_rows-Referring of_transactions = tt
no_rows-Referring of_ledger_entries = tt

pub no_rows-IsConsistent : IsConsistent no_rows
no_rows-IsConsistent = record {
  distinct_users = tt;
  distinct_user_profiles = tt;
  distinct_accounts = tt;
  distinct_bank_accounts = tt;
  distinct_assets = tt;
  distinct_orders = tt;
  distinct_trade_executions = tt;
  distinct_positions = tt;
  distinct_transactions = tt;
  distinct_ledger_entries = tt;
  referring = no_rows-Referring;
}
