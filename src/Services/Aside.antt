-- ===== src/Services/Aside.antt =====
-- The services that place no order: they write users, profiles, accounts, bank accounts and
-- transactions, and keep whatever does not speak of these tables.
use crypto_brokerage.Base.{ℕ, Option, none, some, String, List, [], ◌∷◌, ◌++◌}
use crypto_brokerage.Env.{Env}
use crypto_brokerage.Models.{
  User, UserProfile, Account, AccountType, Transaction, BankAccount, TransactionStatus,
  TransactionType,
}
use crypto_brokerage.Session.{Db}
use crypto_brokerage.Session.Keeps.{Keeps, Keeps-bind, Keeps-raise, Keeps-pure, keeps_rules}
use crypto_brokerage.Repository.{add}
use crypto_brokerage.Repository.Writes.{add_appends, add_spares, update_spares}
use crypto_brokerage.Tables
use crypto_brokerage.Repositories.Accounts.{create_default_account}
use crypto_brokerage.Repositories.Transactions
use crypto_brokerage.Repositories.Users.{create_with_profile}
use crypto_brokerage.Repositories.Reads.{read_rules}
use crypto_brokerage.Services.Banking.{
  Transfer, owned, initiate, deposit_funds, withdraw_funds, confirm, confirm_found, confirm_deposit,
}
use crypto_brokerage.Services.Onboarding.{Registration, register_user, link_bank_account}

-- `P` does not speak of what the onboarding writes.
pub record Enrolling (P : Db → Type 0) : Type 0 where
  pub users : (rs : List User) (db : Db) → P db → P (record db { users = rs })
  pub user_profiles :
      (rs : List UserProfile) (db : Db) → P db → P (record db { user_profiles = rs })
  -- accounts are only added
  pub accounts :
      (a : Account) (db : Db) → P db → P (record db { accounts = db.accounts ++ (a ∷ []) })
  pub bank_accounts :
      (rs : List BankAccount) (db : Db) → P db → P (record db { bank_accounts = rs })

-- Nor of the transactions.
pub record Spared (P : Db → Type 0) : Type 0 where
  pub enrolling : Enrolling P
  pub transactions : (rs : List Transaction) (db : Db) → P db → P (record db { transactions = rs })

module _ (P : Db → Type 0) (spared : Spared P) where
  pub transaction_status-Keeps :
      (t : Transaction) (s : TransactionStatus) (ref : Option String)
      → Keeps P (Transactions.update_status t s ref)
  unfolding Transactions.update_status
  transaction_status-Keeps t s ref = update_spares Tables.transactions P spared.transactions t.id _

  pub create-Keeps :
      (env : Env) (u : ℕ) (t : TransactionType) (ref : Option String)
      → Keeps P (Transactions.create env u t ref)
  unfolding Transactions.create
  create-Keeps env u t ref = add_spares Tables.transactions P spared.transactions env _

ruleset aside_rules = (keeps_rules, read_rules, transaction_status-Keeps, create-Keeps)

module _ (P : Db → Type 0) (spared : Spared P) where
  confirm-Keeps : (x : Transaction) (s : TransactionStatus) → Keeps P (confirm x s)
  confirm-Keeps x TransactionStatus.completed = Keeps-pure tt
  confirm-Keeps x TransactionStatus.failed = Keeps-pure tt
  confirm-Keeps x _ = search aside_rules

  confirm_found-Keeps : (found : Option Transaction) → Keeps P (confirm_found found)
  confirm_found-Keeps none = Keeps-pure tt
  confirm_found-Keeps (some x) = confirm-Keeps x x.status

  pub confirm_deposit-Keeps : (ref : String) → Keeps P (confirm_deposit ref)
  unfolding confirm_deposit
  confirm_deposit-Keeps ref = search (keeps_rules, read_rules, confirm_found-Keeps)

module _ (P : Db → Type 0) (spared : Spared P) (env : Env) where
  owned-Keeps : (u : ℕ) (found : Option BankAccount) → Keeps P (owned u found)
  owned-Keeps u none = Keeps-raise _
  owned-Keeps u (some b) = search keeps_rules

  initiate-Keeps : (t : Transfer) (b : BankAccount) (x : Transaction) → Keeps P (initiate env t b x)
  unfolding initiate
  initiate-Keeps t b x = search aside_rules depth 9

  pub deposit_funds-Keeps : (t : Transfer) → Keeps P (deposit_funds env t)
  unfolding deposit_funds
  deposit_funds-Keeps t = search (aside_rules, owned-Keeps, initiate-Keeps) depth 9

  pub withdraw_funds-Keeps : (t : Transfer) → Keeps P (withdraw_funds env t)
  unfolding withdraw_funds
  withdraw_funds-Keeps t = search (keeps_rules, read_rules) depth 9

module _ (P : Db → Type 0) (enrolling : Enrolling P) (env : Env) where
  create_with_profile-Keeps :
      (m h n c : String) (x : Option String) → Keeps P (create_with_profile env m h n c x)
  unfolding create_with_profile
  create_with_profile-Keeps m h n c x =
      Keeps-bind _ _ (add_spares Tables.users P enrolling.users env _) λ u.
        Keeps-bind _ _ (add_spares Tables.user_profiles P enrolling.user_profiles env _)
          λ p. Keeps-pure u

  create_default_account-Keeps :
      (u : ℕ) (c : String) (a : AccountType) → Keeps P (create_default_account env u c a)
  unfolding create_default_account
  create_default_account-Keeps u c a = add_appends Tables.accounts P enrolling.accounts env _

  pub register_user-Keeps : (r : Registration) → Keeps P (register_user env r)
  unfolding register_user
  register_user-Keeps r =
      search (keeps_rules, read_rules, create_with_profile-Keeps, create_default_account-Keeps)
        depth 12

  bank_account-Keeps : (new : ℕ → Option BankAccount) → Keeps P (add Tables.bank_accounts env new)
  bank_account-Keeps new = add_spares Tables.bank_accounts P enrolling.bank_accounts env new

  pub link_bank_account-Keeps :
      (u : ℕ) (ref bank : String) → Keeps P (link_bank_account env u ref bank)
  unfolding link_bank_account
  link_bank_account-Keeps u ref bank = search (keeps_rules, read_rules, bank_account-Keeps) depth 9
