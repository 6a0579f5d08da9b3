-- ===== src/Services/Banking/Withdraw.antt =====
-- `withdraw_funds` never pays out.
use crypto_brokerage.Base.{
  ◌+◌, ◌≡◌, inl, inr, Bool-cases, Option, none, some, find, ◌==◌, Option-cases, if◌then◌else◌,
}
use crypto_brokerage.Decimal
use crypto_brokerage.Decimal.{Decimal}
use crypto_brokerage.Errors.{Error, err, account_not_found, insufficient_funds, not_implemented}
use crypto_brokerage.Models.{Account}
use crypto_brokerage.Env.{Env}
use crypto_brokerage.Session.{World}
use crypto_brokerage.Repository.{get_by_id}
use crypto_brokerage.Repositories.Accounts.{get_balance_for_update, balance_of}
use crypto_brokerage.Services.Banking.{Transfer, withdraw_funds}

-- The account whose key is the next random value.
abbrev pub drawn_account : Env → World → Option Account
drawn_account env w = find (λ a. a.id == env.uuid4 w.draws) w.db.accounts

-- Why a withdrawal fails, given the account that the random key happens to name.
abbrev pub withdrawal_error : Env → Transfer → World → Option Account → Error
withdrawal_error env t w none = account_not_found
withdrawal_error env t w (some a) =
    let balance = balance_of (env.uuid4 w.draws) w.db in
    if Decimal.lt balance t.amount
    then insufficient_funds balance t.amount t.currency
    else not_implemented

-- Every withdrawal raises, and changes nothing but the random key that it has drawn: no entry is
-- posted and the bank is not called. The account that it looks at is the one that a new random key
-- names, not the account of the user: with no such account the error is `AccountNotFoundError`.
pub withdraw_funds_refused :
    (env : Env) (t : Transfer) (w : World)
    → withdraw_funds env t w
      ≡ (err (withdrawal_error env t w (drawn_account env w)), record w { draws = w.draws + 1 })
unfolding withdraw_funds get_balance_for_update get_by_id
withdraw_funds_refused env t w = elim (Option-cases (drawn_account env w)) [
  | inl nobody ↦ rw nobody
  | inr (a, e) ↦ elim (Bool-cases (Decimal.lt (balance_of (env.uuid4 w.draws) w.db) t.amount)) [
    | inl short ↦ rw e (rw short)
    | inr enough ↦ rw e (rw enough)
  ]
]
