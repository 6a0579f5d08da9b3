-- ===== src/Repositories/Reads.antt =====
-- The queries change nothing.
use crypto_brokerage.Base.{ℕ, String}
use crypto_brokerage.Env.{Env}
use crypto_brokerage.Errors.{account_not_found}
use crypto_brokerage.Session.{Db, ◌>>=◌, or_raise}
use crypto_brokerage.Repository.{Entity, get_by_id}
use crypto_brokerage.Tables.{accounts}
use crypto_brokerage.Session.Keeps.{Keeps, Keeps-bind, Keeps-query, Keeps-or_raise, Keeps-pure}
use crypto_brokerage.Repositories.Accounts.{
  get_by_user_and_currency, get_balance, get_balance_for_update,
}
use crypto_brokerage.Repositories.BankAccounts.{get_by_external_reference}
use crypto_brokerage.Repositories.Orders.{get_by_idempotency_key}
use crypto_brokerage.Repositories.Transactions.{get_by_reference}
use crypto_brokerage.Repositories.Users.{exists_by_email}

module _ {P : Db → Type 0} where
  pub get_by_id-Keeps : {R : Type 0} (e : Entity R) (i : ℕ) → Keeps P (get_by_id e i)
  unfolding get_by_id
  get_by_id-Keeps e i = Keeps-query _

  pub get_by_user_and_currency-Keeps : (u : ℕ) (c : String) → Keeps P (get_by_user_and_currency u c)
  unfolding get_by_user_and_currency
  get_by_user_and_currency-Keeps u c = Keeps-query _

  get_balance-Keeps : (a : ℕ) → Keeps P (get_balance a)
  unfolding get_balance
  get_balance-Keeps a = Keeps-query _

  pub get_balance_for_update-Keeps : (a : ℕ) → Keeps P (get_balance_for_update a)
  unfolding get_balance_for_update
  get_balance_for_update-Keeps a =
      Keeps-bind (get_by_id accounts a >>= or_raise account_not_found) _
        (Keeps-bind (get_by_id accounts a) (or_raise account_not_found) (get_by_id-Keeps accounts a)
          (Keeps-or_raise account_not_found))
        (λ account. Keeps-bind _ _ (get_balance-Keeps a) (λ b. Keeps-pure (account, b)))

  pub get_by_external_reference-Keeps :
      (u : ℕ) (r : String) → Keeps P (get_by_external_reference u r)
  unfolding get_by_external_reference
  get_by_external_reference-Keeps u r = Keeps-query _

  pub get_by_idempotency_key-Keeps : (k : String) → Keeps P (get_by_idempotency_key k)
  unfolding get_by_idempotency_key
  get_by_idempotency_key-Keeps k = Keeps-query _

  pub get_by_reference-Keeps : (r : String) → Keeps P (get_by_reference r)
  unfolding get_by_reference
  get_by_reference-Keeps r = Keeps-query _

  pub exists_by_email-Keeps : (env : Env) (e : String) → Keeps P (exists_by_email env e)
  unfolding exists_by_email
  exists_by_email-Keeps env e = Keeps-query _

pub ruleset read_rules = (
  get_by_id-Keeps, get_by_user_and_currency-Keeps, get_balance_for_update-Keeps,
  get_by_external_reference-Keeps, get_by_idempotency_key-Keeps, get_by_reference-Keeps,
  exists_by_email-Keeps,
)
