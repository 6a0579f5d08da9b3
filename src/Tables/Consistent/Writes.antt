-- ===== src/Tables/Consistent/Writes.antt =====
-- The inserts and the updates of the tables keep them consistent.
use crypto_brokerage.Base.{ℕ, Option, List, [], ◌∷◌, refl}
use crypto_brokerage.Session.{Db}
use crypto_brokerage.Models.{
  User, UserProfile, Account, BankAccount, Order, TradeExecution, Position, Transaction,
  LedgerEntry,
}
use crypto_brokerage.Env.{Env}
use crypto_brokerage.Session.Keeps.{Keeps}
use crypto_brokerage.Repository.{add, update}
use crypto_brokerage.Repository.Unique.{Spares}
use crypto_brokerage.Repository.Fits.{Refer, add-Keeps, update-Keeps}
use crypto_brokerage.Tables.{
  users, user_profiles, accounts, bank_accounts, orders, trade_executions, positions, transactions,
  ledger_entries,
}
use crypto_brokerage.Tables.Consistent.{
  IsConsistent, with_users, with_user_profiles, with_accounts, with_bank_accounts, with_orders,
  with_trade_executions, with_positions, with_transactions, with_ledger_entries,
}
use crypto_brokerage.Tables.Referring.{
  of_user_profiles, of_accounts, of_bank_accounts, of_orders, of_trade_executions, of_positions,
  of_transactions, of_ledger_entries,
}

-- The table of users has no foreign key.
no_keys : (db : Db) (rs : List User) → Refer users db rs
no_keys db [] = tt
no_keys db (r ∷ rs) = (refl, no_keys db rs)

module _ (env : Env) where
  pub add_user-IsConsistent : (new : ℕ → Option User) → Keeps IsConsistent (add users env new)
  add_user-IsConsistent new =
      add-Keeps users IsConsistent (λ rs db h d. with_users db h rs d)
        (λ db h. (h.distinct_users, no_keys db db.users)) env new

  pub add_user_profile-IsConsistent :
      (new : ℕ → Option UserProfile) → Keeps IsConsistent (add user_profiles env new)
  add_user_profile-IsConsistent new =
      add-Keeps user_profiles IsConsistent (λ rs db h d. with_user_profiles db h rs d)
        (λ db h. (h.distinct_user_profiles, h.referring of_user_profiles)) env new

  pub add_account-IsConsistent :
      (new : ℕ → Option Account) → Keeps IsConsistent (add accounts env new)
  add_account-IsConsistent new =
      add-Keeps accounts IsConsistent (λ rs db h d. with_accounts db h rs d)
        (λ db h. (h.distinct_accounts, h.referring of_accounts)) env new

  pub add_bank_account-IsConsistent :
      (new : ℕ → Option BankAccount) → Keeps IsConsistent (add bank_accounts env new)
  add_bank_account-IsConsistent new =
      add-Keeps bank_accounts IsConsistent (λ rs db h d. with_bank_accounts db h rs d)
        (λ db h. (h.distinct_bank_accounts, h.referring of_bank_accounts)) env new

  pub add_order-IsConsistent : (new : ℕ → Option Order) → Keeps IsConsistent (add orders env new)
  add_order-IsConsistent new =
      add-Keeps orders IsConsistent (λ rs db h d. with_orders db h rs d)
        (λ db h. (h.distinct_orders, h.referring of_orders)) env new

  pub add_trade_execution-IsConsistent :
      (new : ℕ → Option TradeExecution) → Keeps IsConsistent (add trade_executions env new)
  add_trade_execution-IsConsistent new =
      add-Keeps trade_executions IsConsistent (λ rs db h d. with_trade_executions db h rs d)
        (λ db h. (h.distinct_trade_executions, h.referring of_trade_executions)) env new

  pub add_position-IsConsistent :
      (new : ℕ → Option Position) → Keeps IsConsistent (add positions env new)
  add_position-IsConsistent new =
      add-Keeps positions IsConsistent (λ rs db h d. with_positions db h rs d)
        (λ db h. (h.distinct_positions, h.referring of_positions)) env new

  pub add_transaction-IsConsistent :
      (new : ℕ → Option Transaction) → Keeps IsConsistent (add transactions env new)
  add_transaction-IsConsistent new =
      add-Keeps transactions IsConsistent (λ rs db h d. with_transactions db h rs d)
        (λ db h. (h.distinct_transactions, h.referring of_transactions)) env new

  pub add_ledger_entry-IsConsistent :
      (new : ℕ → Option LedgerEntry) → Keeps IsConsistent (add ledger_entries env new)
  add_ledger_entry-IsConsistent new =
      add-Keeps ledger_entries IsConsistent (λ rs db h d. with_ledger_entries db h rs d)
        (λ db h. (h.distinct_ledger_entries, h.referring of_ledger_entries)) env new

pub update_user_profile-IsConsistent :
    (i : ℕ) (f : UserProfile → Option UserProfile)
    → Spares user_profiles f
    → Keeps IsConsistent (update user_profiles i f)
update_user_profile-IsConsistent i f sp =
    update-Keeps user_profiles IsConsistent (λ rs db h d. with_user_profiles db h rs d)
      (λ db h. (h.distinct_user_profiles, h.referring of_user_profiles)) i f sp

pub update_bank_account-IsConsistent :
    (i : ℕ) (f : BankAccount → Option BankAccount)
    → Spares bank_accounts f
    → Keeps IsConsistent (update bank_accounts i f)
update_bank_account-IsConsistent i f sp =
    update-Keeps bank_accounts IsConsistent (λ rs db h d. with_bank_accounts db h rs d)
      (λ db h. (h.distinct_bank_accounts, h.referring of_bank_accounts)) i f sp

pub update_order-IsConsistent :
    (i : ℕ) (f : Order → Option Order) → Spares orders f → Keeps IsConsistent (update orders i f)
update_order-IsConsistent i f sp =
    update-Keeps orders IsConsistent (λ rs db h d. with_orders db h rs d)
      (λ db h. (h.distinct_orders, h.referring of_orders)) i f sp

pub update_position-IsConsistent :
    (i : ℕ) (f : Position → Option Position)
    → Spares positions f
    → Keeps IsConsistent (update positions i f)
update_position-IsConsistent i f sp =
    update-Keeps positions IsConsistent (λ rs db h d. with_positions db h rs d)
      (λ db h. (h.distinct_positions, h.referring of_positions)) i f sp

pub update_transaction-IsConsistent :
    (i : ℕ) (f : Transaction → Option Transaction)
    → Spares transactions f
    → Keeps IsConsistent (update transactions i f)
update_transaction-IsConsistent i f sp =
    update-Keeps transactions IsConsistent (λ rs db h d. with_transactions db h rs d)
      (λ db h. (h.distinct_transactions, h.referring of_transactions)) i f sp
