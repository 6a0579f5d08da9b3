-- ===== src/Repositories/Accounts.antt =====
-- app/repositories/account_repository.py: `AccountRepository`.
use crypto_brokerage.Base.{ℕ, ◌&&◌, Option, String, List, [], ◌∷◌, ◌==◌, str_eq, find, select}
use crypto_brokerage.Base.Int.{ℤ, pos, ◌+ℤ◌}
use crypto_brokerage.Decimal.{Decimal, sub}
use crypto_brokerage.Models.{account_fits, Account, AccountType, LedgerEntry, of_units}
use crypto_brokerage.Errors.{account_not_found}
use crypto_brokerage.Env.{Env}
use crypto_brokerage.Session.{Db, Exec, ◌>>=◌, pure, query, or_raise}
use crypto_brokerage.Repository.{stored, get_by_id, add}
use crypto_brokerage.Tables.{accounts}

-- `func.sum(LedgerEntry.amount)`, exact in the database; no rows give 0.
abbrev pub sum_amounts : List LedgerEntry → ℤ
sum_amounts [] = pos 0
sum_amounts (e ∷ es) = e.amount +ℤ sum_amounts es

abbrev pub credits : ℕ → Db → ℤ
credits account_id db =
    sum_amounts (select (λ e. e.credit_account_id == account_id) db.ledger_entries)

abbrev pub debits : ℕ → Db → ℤ
debits account_id db =
    sum_amounts (select (λ e. e.debit_account_id == account_id) db.ledger_entries)

unfoldable pub get_by_user_and_currency : ℕ → String → Exec (Option Account)
get_by_user_and_currency user_id currency =
    query (λ db. find (λ a. a.user_id == user_id && str_eq a.currency currency) db.accounts)

abbrev pub balance_of : ℕ → Db → Decimal
balance_of account_id db = sub (of_units (credits account_id db)) (of_units (debits account_id db))

unfoldable pub get_balance : ℕ → Exec Decimal
get_balance account_id = query (balance_of account_id)

-- The row lock does not show in a run of one session.
unfoldable pub get_balance_for_update : ℕ → Exec (Account × Decimal)
unfolding get_balance
get_balance_for_update account_id = do
  account ← get_by_id accounts account_id >>= or_raise account_not_found
  balance ← get_balance account_id
  pure (account, balance)

unfoldable pub create_default_account : Env → ℕ → String → AccountType → Exec Account
create_default_account env user_id currency account_type = add accounts env λ i.
    stored account_fits
      (record { id = i; user_id = user_id; currency = currency; account_type = account_type })

unfoldable pub list_by_user : ℕ → Exec (List Account)
list_by_user user_id = query (λ db. select (λ a. a.user_id == user_id) db.accounts)
