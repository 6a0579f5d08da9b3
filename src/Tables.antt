-- ===== src/Tables.antt =====
-- The tables of app/models/ under their constraints, as alembic/versions/0001_initial.py creates
-- them: one `Entity` for each model.
pub mod Referring
pub mod Consistent
use crypto_brokerage.Base.{ℕ, Bool, true, false, ◌&&◌, List, find, is_some, ◌==◌, str_eq}
use crypto_brokerage.Models.{
  User, UserProfile, Account, BankAccount, Asset, Order, TradeExecution, Position, Transaction,
  LedgerEntry,
}
use crypto_brokerage.Session.{Db}
use crypto_brokerage.Repository.{Entity}

abbrev user_exists : ℕ → Db → Bool
user_exists i db = is_some (find (λ (r : User). r.id == i) db.users)

abbrev asset_exists : ℕ → Db → Bool
asset_exists i db = is_some (find (λ (r : Asset). r.id == i) db.assets)

abbrev account_exists : ℕ → Db → Bool
account_exists i db = is_some (find (λ (r : Account). r.id == i) db.accounts)

abbrev order_exists : ℕ → Db → Bool
order_exists i db = is_some (find (λ (r : Order). r.id == i) db.orders)

abbrev pub users : Entity User
users = record {
  key = λ r. r.id;
  rows = λ db. db.users;
  put = λ rs db. record db { users = rs };
  clashes = λ r s. str_eq r.email s.email;
  refers = λ r db. true;
}

abbrev pub user_profiles : Entity UserProfile
user_profiles = record {
  key = λ r. r.id;
  rows = λ db. db.user_profiles;
  put = λ rs db. record db { user_profiles = rs };
  clashes = λ r s. r.user_id == s.user_id;
  refers = λ r db. user_exists r.user_id db;
}

abbrev pub accounts : Entity Account
accounts = record {
  key = λ r. r.id;
  rows = λ db. db.accounts;
  put = λ rs db. record db { accounts = rs };
  clashes = λ r s. r.user_id == s.user_id && str_eq r.currency s.currency;
  refers = λ r db. user_exists r.user_id db;
}

abbrev pub bank_accounts : Entity BankAccount
bank_accounts = record {
  key = λ r. r.id;
  rows = λ db. db.bank_accounts;
  put = λ rs db. record db { bank_accounts = rs };
  clashes = λ r s. false;
  refers = λ r db. user_exists r.user_id db;
}

abbrev pub assets : Entity Asset
assets = record {
  key = λ r. r.id;
  rows = λ db. db.assets;
  put = λ rs db. record db { assets = rs };
  clashes = λ r s. str_eq r.symbol s.symbol;
  refers = λ r db. true;
}

abbrev pub orders : Entity Order
orders = record {
  key = λ r. r.id;
  rows = λ db. db.orders;
  put = λ rs db. record db { orders = rs };
  clashes = λ r s. str_eq r.idempotency_key s.idempotency_key;
  refers = λ r db. user_exists r.user_id db && asset_exists r.asset_id db;
}

abbrev pub trade_executions : Entity TradeExecution
trade_executions = record {
  key = λ r. r.id;
  rows = λ db. db.trade_executions;
  put = λ rs db. record db { trade_executions = rs };
  clashes = λ r s. false;
  refers = λ r db. order_exists r.order_id db;
}

abbrev pub positions : Entity Position
positions = record {
  key = λ r. r.id;
  rows = λ db. db.positions;
  put = λ rs db. record db { positions = rs };
  clashes = λ r s. r.user_id == s.user_id && r.asset_id == s.asset_id;
  refers = λ r db. user_exists r.user_id db && asset_exists r.asset_id db;
}

abbrev pub transactions : Entity Transaction
transactions = record {
  key = λ r. r.id;
  rows = λ db. db.transactions;
  put = λ rs db. record db { transactions = rs };
  clashes = λ r s. false;
  refers = λ r db. user_exists r.user_id db;
}

abbrev pub ledger_entries : Entity LedgerEntry
ledger_entries = record {
  key = λ r. r.id;
  rows = λ db. db.ledger_entries;
  put = λ rs db. record db { ledger_entries = rs };
  clashes = λ r s. false;
  refers = λ r db. account_exists r.debit_account_id db && account_exists r.credit_account_id db;
}
