-- ===== src/Tables/Referring.antt =====
-- The FOREIGN KEY constraints of the tables hold, and a write of one table keeps them.
use crypto_brokerage.Base.{ℕ, ◌≡◌, Bool, true, ◌&&◌, List, All-mono, arith}
use crypto_brokerage.Models.{
  User, UserProfile, Account, BankAccount, Order, TradeExecution, Position, Transaction,
  LedgerEntry,
}
use crypto_brokerage.Session.{Db}
use crypto_brokerage.Repository.Fits.{Refer, present}
use crypto_brokerage.Tables.{
  users, user_profiles, accounts, bank_accounts, orders, trade_executions, positions, transactions,
  ledger_entries,
}

-- The tables with a foreign key.
pub data Child : Type 0 where
  of_user_profiles of_accounts of_bank_accounts of_orders of_trade_executions of_positions
        of_transactions of_ledger_entries :
      Child

abbrev pub Referring : Child → Db → Type 0
Referring of_user_profiles db = Refer user_profiles db db.user_profiles
Referring of_accounts db = Refer accounts db db.accounts
Referring of_bank_accounts db = Refer bank_accounts db db.bank_accounts
Referring of_orders db = Refer orders db db.orders
Referring of_trade_executions db = Refer trade_executions db db.trade_executions
Referring of_positions db = Refer positions db db.positions
Referring of_transactions db = Refer transactions db db.transactions
Referring of_ledger_entries db = Refer ledger_entries db db.ledger_entries

and_mono : (a b c : Bool) → (a ≡ true → b ≡ true) → (a && c) ≡ true → (b && c) ≡ true
and_mono a b c f h = ground (arith, f)

and_mono_both :
    (a b c d : Bool)
    → (a ≡ true → c ≡ true)
    → (b ≡ true → d ≡ true)
    → (a && b) ≡ true
    → (c && d) ≡ true
and_mono_both a b c d f g h = ground (arith, f, g)

module _ (db : Db) (h : (t : Child) → Referring t db) where
  pub after_users-Referring :
      (rs : List User)
      → ((i : ℕ) → present users i db.users ≡ true → present users i rs ≡ true)
      → (t : Child) → Referring t (record db { users = rs })
  after_users-Referring rs k of_user_profiles =
      All-mono _ _ db.user_profiles (λ r q. k r.user_id q) (h of_user_profiles)
  after_users-Referring rs k of_accounts =
      All-mono _ _ db.accounts (λ r q. k r.user_id q) (h of_accounts)
  after_users-Referring rs k of_bank_accounts =
      All-mono _ _ db.bank_accounts (λ r q. k r.user_id q) (h of_bank_accounts)
  after_users-Referring rs k of_orders =
      All-mono _ _ db.orders (λ r q. and_mono _ _ _ (k r.user_id) q) (h of_orders)
  after_users-Referring rs k of_positions =
      All-mono _ _ db.positions (λ r q. and_mono _ _ _ (k r.user_id) q) (h of_positions)
  after_users-Referring rs k of_transactions =
      All-mono _ _ db.transactions (λ r q. k r.user_id q) (h of_transactions)
  after_users-Referring rs k t = h t

  pub after_user_profiles-Referring :
      (rs : List UserProfile)
      → Refer user_profiles db rs
      → (t : Child) → Referring t (record db { user_profiles = rs })
  after_user_profiles-Referring rs a of_user_profiles = a
  after_user_profiles-Referring rs a t = h t

  pub after_accounts-Referring :
      (rs : List Account)
      → ((i : ℕ) → present accounts i db.accounts ≡ true → present accounts i rs ≡ true)
      → Refer accounts db rs
      → (t : Child) → Referring t (record db { accounts = rs })
  after_accounts-Referring rs k a of_accounts = a
  after_accounts-Referring rs k a of_ledger_entries =
      All-mono _ _ db.ledger_entries
        (λ r q. and_mono_both _ _ _ _ (k r.debit_account_id) (k r.credit_account_id) q)
        (h of_ledger_entries)
  after_accounts-Referring rs k a t = h t

  pub after_bank_accounts-Referring :
      (rs : List BankAccount)
      → Refer bank_accounts db rs
      → (t : Child) → Referring t (record db { bank_accounts = rs })
  after_bank_accounts-Referring rs a of_bank_accounts = a
  after_bank_accounts-Referring rs a t = h t

  pub after_orders-Referring :
      (rs : List Order)
      → ((i : ℕ) → present orders i db.orders ≡ true → present orders i rs ≡ true)
      → Refer orders db rs
      → (t : Child) → Referring t (record db { orders = rs })
  after_orders-Referring rs k a of_orders = a
  after_orders-Referring rs k a of_trade_executions =
      All-mono _ _ db.trade_executions (λ r q. k r.order_id q) (h of_trade_executions)
  after_orders-Referring rs k a t = h t

  pub after_trade_executions-Referring :
      (rs : List TradeExecution)
      → Refer trade_executions db rs
      → (t : Child) → Referring t (record db { trade_executions = rs })
  after_trade_executions-Referring rs a of_trade_executions = a
  after_trade_executions-Referring rs a t = h t

  pub after_positions-Referring :
      (rs : List Position)
      → Refer positions db rs
      → (t : Child) → Referring t (record db { positions = rs })
  after_positions-Referring rs a of_positions = a
  after_positions-Referring rs a t = h t

  pub after_transactions-Referring :
      (rs : List Transaction)
      → Refer transactions db rs
      → (t : Child) → Referring t (record db { transactions = rs })
  after_transactions-Referring rs a of_transactions = a
  after_transactions-Referring rs a t = h t

  pub after_ledger_entries-Referring :
      (rs : List LedgerEntry)
      → Refer ledger_entries db rs
      → (t : Child) → Referring t (record db { ledger_entries = rs })
  after_ledger_entries-Referring rs a of_ledger_entries = a
  after_ledger_entries-Referring rs a t = h t
