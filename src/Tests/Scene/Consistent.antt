-- ===== src/Tests/Scene/Consistent.antt =====
-- The tables of the scene keep their constraints.
use crypto_brokerage.Base.{refl}
use crypto_brokerage.Tables.Referring.{
  Child, of_user_profiles, of_accounts, of_bank_accounts, of_orders, of_trade_executions,
  of_positions, of_transactions, of_ledger_entries, Referring,
}
use crypto_brokerage.Tables.Consistent.{IsConsistent}
use crypto_brokerage.Tests.Scene.{tables}

tables-Referring : (t : Child) → Referring t tables
tables-Referring of_user_profiles = tt
tables-Referring of_accounts = (refl, (refl, tt))
tables-Referring of_bank_accounts = (refl, tt)
tables-Referring of_orders = tt
tables-Referring of_trade_executions = tt
tables-Referring of_positions = tt
tables-Referring of_transactions = (refl, tt)
tables-Referring of_ledger_entries = (refl, tt)

pub tables-IsConsistent : IsConsistent tables
tables-IsConsistent = record {
  distinct_users = (refl, tt);
  distinct_user_profiles = tt;
  distinct_accounts = (refl, (refl, tt));
  distinct_bank_accounts = (refl, tt);
  distinct_assets = (refl, tt);
  distinct_orders = tt;
  distinct_trade_executions = tt;
  distinct_positions = tt;
  distinct_transactions = (refl, tt);
  distinct_ledger_entries = (refl, tt);
  referring = tables-Referring;
}
