-- ===== src/Tables/Consistent.antt =====
-- The tables keep their constraints: in each the rows are distinct under the primary key and UNIQUE,
-- and the rows that they name are there.
pub mod Empty
pub mod Writes
use crypto_brokerage.Base.{ℕ, Option, List}
use crypto_brokerage.Models.{
  User, UserProfile, Account, BankAccount, Order, TradeExecution, Position, Transaction,
  LedgerEntry,
}
use crypto_brokerage.Env.{Env}
use crypto_brokerage.Session.{Db, no_rows}
use crypto_brokerage.Session.Keeps.{Keeps}
use crypto_brokerage.Repository.{add, update}
use crypto_brokerage.Repository.Unique.{Distinct}
use crypto_brokerage.Repository.Fits.{Fits}
use crypto_brokerage.Tables.Referring.{
  Child, of_user_profiles, of_accounts, of_bank_accounts, of_orders, of_trade_executions,
  of_positions, of_transactions, of_ledger_entries, Referring, after_users-Referring,
  after_user_profiles-Referring, after_accounts-Referring, after_bank_accounts-Referring,
  after_orders-Referring, after_trade_executions-Referring, after_positions-Referring,
  after_transactions-Referring, after_ledger_entries-Referring,
}
use crypto_brokerage.Tables.{
  users, user_profiles, accounts, bank_accounts, assets, orders, trade_executions, positions,
  transactions, ledger_entries,
}

pub record IsConsistent (db : Db) : Type 0 where
  pub distinct_users : Distinct users db.users
  pub distinct_user_profiles : Distinct user_profiles db.user_profiles
  pub distinct_accounts : Distinct accounts db.accounts
  pub distinct_bank_accounts : Distinct bank_accounts db.bank_accounts
  pub distinct_assets : Distinct assets db.assets
  pub distinct_orders : Distinct orders db.orders
  pub distinct_trade_executions : Distinct trade_executions db.trade_executions
  pub distinct_positions : Distinct positions db.positions
  pub distinct_transactions : Distinct transactions db.transactions
  pub distinct_ledger_entries : Distinct ledger_entries db.ledger_entries
  pub referring : (t : Child) → Referring t db

-- The same tables but for one, whose new rows are distinct too.
module _ (db : Db) (h : IsConsistent db) where
  pub with_users : (rs : List User) → Fits users db rs → IsConsistent (record db { users = rs })
  with_users rs d = record {
    distinct_users = d.distinct;
    distinct_user_profiles = h.distinct_user_profiles;
    distinct_accounts = h.distinct_accounts;
    distinct_bank_accounts = h.distinct_bank_accounts;
    distinct_assets = h.distinct_assets;
    distinct_orders = h.distinct_orders;
    distinct_trade_executions = h.distinct_trade_executions;
    distinct_positions = h.distinct_positions;
    distinct_transactions = h.distinct_transactions;
    distinct_ledger_entries = h.distinct_ledger_entries;
    referring = after_users-Referring db h.referring rs d.kept;
  }

  pub with_user_profiles :
      (rs : List UserProfile)
      → Fits user_profiles db rs
      → IsConsistent (record db { user_profiles = rs })
  with_user_profiles rs d = record {
    distinct_users = h.distinct_users;
    distinct_user_profiles = d.distinct;
    distinct_accounts = h.distinct_accounts;
    distinct_bank_accounts = h.distinct_bank_accounts;
    distinct_assets = h.distinct_assets;
    distinct_orders = h.distinct_orders;
    distinct_trade_executions = h.distinct_trade_executions;
    distinct_positions = h.distinct_positions;
    distinct_transactions = h.distinct_transactions;
    distinct_ledger_entries = h.distinct_ledger_entries;
    referring = after_user_profiles-Referring db h.referring rs d.refer;
  }

  pub with_accounts :
      (rs : List Account) → Fits accounts db rs → IsConsistent (record db { accounts = rs })
  with_accounts rs d = record {
    distinct_users = h.distinct_users;
    distinct_user_profiles = h.distinct_user_profiles;
    distinct_accounts = d.distinct;
    distinct_bank_accounts = h.distinct_bank_accounts;
    distinct_assets = h.distinct_assets;
    distinct_orders = h.distinct_orders;
    distinct_trade_executions = h.distinct_trade_executions;
    distinct_positions = h.distinct_positions;
    distinct_transactions = h.distinct_transactions;
    distinct_ledger_entries = h.distinct_ledger_entries;
    referring = after_accounts-Referring db h.referring rs d.kept d.refer;
  }

  pub with_bank_accounts :
      (rs : List BankAccount)
      → Fits bank_accounts db rs
      → IsConsistent (record db { bank_accounts = rs })
  with_bank_accounts rs d = record {
    distinct_users = h.distinct_users;
    distinct_user_profiles = h.distinct_user_profiles;
    distinct_accounts = h.distinct_accounts;
    distinct_bank_accounts = d.distinct;
    distinct_assets = h.distinct_assets;
    distinct_orders = h.distinct_orders;
    distinct_trade_executions = h.distinct_trade_executions;
    distinct_positions = h.distinct_positions;
    distinct_transactions = h.distinct_transactions;
    distinct_ledger_entries = h.distinct_ledger_entries;
    referring = after_bank_accounts-Referring db h.referring rs d.refer;
  }

  pub with_orders : (rs : List Order) → Fits orders db rs → IsConsistent (record db { orders = rs })
  with_orders rs d = record {
    distinct_users = h.distinct_users;
    distinct_user_profiles = h.distinct_user_profiles;
    distinct_accounts = h.distinct_accounts;
    distinct_bank_accounts = h.distinct_bank_accounts;
    distinct_assets = h.distinct_assets;
    distinct_orders = d.distinct;
    distinct_trade_executions = h.distinct_trade_executions;
    distinct_positions = h.distinct_positions;
    distinct_transactions = h.distinct_transactions;
    distinct_ledger_entries = h.distinct_ledger_entries;
    referring = after_orders-Referring db h.referring rs d.kept d.refer;
  }

  pub with_trade_executions :
      (rs : List TradeExecution)
      → Fits trade_executions db rs
      → IsConsistent (record db { trade_executions = rs })
  with_trade_executions rs d = record {
    distinct_users = h.distinct_users;
    distinct_user_profiles = h.distinct_user_profiles;
    distinct_accounts = h.distinct_accounts;
    distinct_bank_accounts = h.distinct_bank_accounts;
    distinct_assets = h.distinct_assets;
    distinct_orders = h.distinct_orders;
    distinct_trade_executions = d.distinct;
    distinct_positions = h.distinct_positions;
    distinct_transactions = h.distinct_transactions;
    distinct_ledger_entries = h.distinct_ledger_entries;
    referring = after_trade_executions-Referring db h.referring rs d.refer;
  }

  pub with_positions :
      (rs : List Position) → Fits positions db rs → IsConsistent (record db { positions = rs })
  with_positions rs d = record {
    distinct_users = h.distinct_users;
    distinct_user_profiles = h.distinct_user_profiles;
    distinct_accounts = h.distinct_accounts;
    distinct_bank_accounts = h.distinct_bank_accounts;
    distinct_assets = h.distinct_assets;
    distinct_orders = h.distinct_orders;
    distinct_trade_executions = h.distinct_trade_executions;
    distinct_positions = d.distinct;
    distinct_transactions = h.distinct_transactions;
    distinct_ledger_entries = h.distinct_ledger_entries;
    referring = after_positions-Referring db h.referring rs d.refer;
  }

  pub with_transactions :
      (rs : List Transaction)
      → Fits transactions db rs
      → IsConsistent (record db { transactions = rs })
  with_transactions rs d = record {
    distinct_users = h.distinct_users;
    distinct_user_profiles = h.distinct_user_profiles;
    distinct_accounts = h.distinct_accounts;
    distinct_bank_accounts = h.distinct_bank_accounts;
    distinct_assets = h.distinct_assets;
    distinct_orders = h.distinct_orders;
    distinct_trade_executions = h.distinct_trade_executions;
    distinct_positions = h.distinct_positions;
    distinct_transactions = d.distinct;
    distinct_ledger_entries = h.distinct_ledger_entries;
    referring = after_transactions-Referring db h.referring rs d.refer;
  }

  pub with_ledger_entries :
      (rs : List LedgerEntry)
      → Fits ledger_entries db rs
      → IsConsistent (record db { ledger_entries = rs })
  with_ledger_entries rs d = record {
    distinct_users = h.distinct_users;
    distinct_user_profiles = h.distinct_user_profiles;
    distinct_accounts = h.distinct_accounts;
    distinct_bank_accounts = h.distinct_bank_accounts;
    distinct_assets = h.distinct_assets;
    distinct_orders = h.distinct_orders;
    distinct_trade_executions = h.distinct_trade_executions;
    distinct_positions = h.distinct_positions;
    distinct_transactions = h.distinct_transactions;
    distinct_ledger_entries = d.distinct;
    referring = after_ledger_entries-Referring db h.referring rs d.refer;
  }
