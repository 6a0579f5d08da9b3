-- ===== src/Api/Accounts.antt =====
-- app/api/v1/accounts.py.
pub mod Listed
use crypto_brokerage.Base.{
  ℕ, Bool, true, ◌&&◌, not, Option, none, some, String, List, [], ◌∷◌, map, ◌==◌, if◌then◌else◌,
}
use crypto_brokerage.Errors.{Error, http_exception}
use crypto_brokerage.Models.{User, Account, BankAccount}
use crypto_brokerage.Env.{Env}
use crypto_brokerage.Session.{
  World, Exec, ◌>>=◌, ◌>>◌, pure, raise, or_raise, raise_if, translating,
}
use crypto_brokerage.Repository.{get_by_id}
use crypto_brokerage.Tables
use crypto_brokerage.Repositories.Accounts
use crypto_brokerage.Repositories.BankAccounts
use crypto_brokerage.Services.Onboarding
use crypto_brokerage.Api.{Response, respond, authenticated, own_or_404, valid_or_422}
use crypto_brokerage.Api.Schemas.Accounts.{
  AccountRead, account_read, BankAccountCreate, is_valid_bank_account, BankAccountRead,
  bank_account_read,
}

-- The loop of `list_accounts`.
abbrev pub read_accounts : List Account → Exec (List AccountRead)
read_accounts [] = pure []
read_accounts (account ∷ accounts) = do
  balance ← Accounts.get_balance account.id
  rest ← read_accounts accounts
  pure (account_read account balance ∷ rest)

unfoldable pub list_accounts : User → Exec (List AccountRead)
list_accounts current_user = Accounts.list_by_user current_user.id >>= read_accounts

-- `account is None or account.user_id != current_user.id`
abbrev pub own_account : User → Option Account → Exec Account
own_account current_user account = own_or_404 (λ (a : Account). a.user_id) current_user account

unfoldable pub get_balance : User → ℕ → Exec AccountRead
get_balance current_user account_id = do
  account ← get_by_id Tables.accounts account_id >>= own_account current_user
  balance ← Accounts.get_balance account.id
  pure (account_read account balance)

-- `except BankAccountAlreadyLinkedError`
abbrev pub link_conflict : Error → Option Error
link_conflict Error.bank_account_already_linked = some (http_exception 409)
link_conflict _ = none

unfoldable pub list_bank_accounts : User → Exec (List BankAccountRead)
list_bank_accounts current_user = do
  bank_accounts ← BankAccounts.get_by_user current_user.id
  pure (map bank_account_read bank_accounts)

module _ (env : Env) where
  unfoldable pub link_bank_account : BankAccountCreate → User → Exec ℕ
  link_bank_account payload current_user =
      translating
        (Onboarding.link_bank_account env current_user.id payload.external_reference
          payload.bank_name)
        link_conflict

  -- GET /accounts, GET /accounts/{account_id}/balance, POST and GET /accounts/bank-accounts
  abbrev pub get_accounts : Option String → World → Response (List AccountRead) × World
  get_accounts header = respond 200 (authenticated env header list_accounts)

  abbrev pub get_account_balance : Option String → ℕ → World → Response AccountRead × World
  get_account_balance header account_id =
      respond 200 (authenticated env header λ user. get_balance user account_id)

  abbrev pub post_bank_account : Option String → BankAccountCreate → World → Response ℕ × World
  post_bank_account header p = respond 201 (
      authenticated env header
        λ user. valid_or_422 (is_valid_bank_account p) >> link_bank_account p user)

  abbrev pub get_bank_accounts : Option String → World → Response (List BankAccountRead) × World
  get_bank_accounts header = respond 200 (authenticated env header list_bank_accounts)
