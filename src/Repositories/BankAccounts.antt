-- ===== src/Repositories/BankAccounts.antt =====
-- app/repositories/account_repository.py: `BankAccountRepository`.
use crypto_brokerage.Base.{ℕ, ◌&&◌, Option, some, String, List, ◌==◌, str_eq, find, select}
use crypto_brokerage.Models.{BankAccount, BankAccountStatus}
use crypto_brokerage.Session.{Exec, query}
use crypto_brokerage.Repository.{update}
use crypto_brokerage.Tables.{bank_accounts}

unfoldable pub get_by_user : ℕ → Exec (List BankAccount)
get_by_user user_id = query (λ db. select (λ a. a.user_id == user_id) db.bank_accounts)

unfoldable pub get_by_external_reference : ℕ → String → Exec (Option BankAccount)
get_by_external_reference user_id external_reference = query λ db.
    find (λ a. a.user_id == user_id && str_eq a.external_reference external_reference)
      db.bank_accounts

unfoldable pub activate : BankAccount → Exec BankAccount
activate bank_account =
    update bank_accounts bank_account.id
      (λ a. some (record a { status = BankAccountStatus.active }))
