-- ===== src/Services/Banking/Deposit.antt =====
-- `deposit_funds`: what a refusal of the bank leaves.
use crypto_brokerage.Base.{
  ◌≡◌, refl, true, ◌&&◌, Option, none, some, List, ◌∷◌, find, str_eq, ◌==◌, ==_iff,
}
use crypto_brokerage.Models.{Account, BankAccount, Transaction, TransactionStatus, TransactionType}
use crypto_brokerage.Errors.{Error, ok, err}
use crypto_brokerage.Gateways.{Call}
use crypto_brokerage.Env.{Env}
use crypto_brokerage.Session.{Db, World, request}
use crypto_brokerage.Session.Outcome.{Returns, on_exception_err, request_err}
use crypto_brokerage.Repository.{replace, get_by_id}
use crypto_brokerage.Repository.Writes.{update-found}
use crypto_brokerage.Tables
use crypto_brokerage.Repositories.Accounts.{get_by_user_and_currency}
use crypto_brokerage.Repositories.Transactions
use crypto_brokerage.Repositories.Transactions.Created.{IsLast, found-last, create-Returns}
use crypto_brokerage.Services.Banking.{
  Transfer, inbound, send, mark_failed, initiate, deposit_funds,
}

-- The bank account that the deposit names, and the platform account of its currency.
abbrev pub source_of : Transfer → Db → Option BankAccount
source_of t db = find (λ b. b.id == t.bank_account_id) db.bank_accounts

abbrev pub target_of : Transfer → Db → Option Account
target_of t db = find (λ a. a.user_id == t.user_id && str_eq a.currency t.currency) db.accounts

abbrev marked : Transaction → Transaction
marked x = record x { status = TransactionStatus.failed }

mark_failed-last :
    (x : Transaction) (rows : List Transaction) (w : World)
    → IsLast x rows w.db
    → mark_failed x w ≡ (
      ok tt,
      record w {
        db = record w.db {
          transactions = replace Tables.transactions x.id (marked x) w.db.transactions;
        };
      },
    )
unfolding Transactions.update_status
mark_failed-last x rows w last = rw (
    update-found Tables.transactions x.id
      (λ y. some (Transactions.with_status TransactionStatus.failed none y)) w x (marked x)
      (found-last x rows w.db last) refl)

module _ (env : Env) where
  -- When the bank refuses a deposit, the request ends with the bank's error and the tables are as
  -- they were before it: the transaction that was marked as failed is rolled back too, though the
  -- call has left the program.
  pub deposit_funds_forgotten :
      (t : Transfer) (w : World) (b : BankAccount) (a : Account) (x : Transaction) (w1 : World)
      (e : Error)
      → source_of t w.db ≡ some b
      → b.user_id ≡ t.user_id
      → target_of t w.db ≡ some a
      → Returns (Transactions.create env t.user_id TransactionType.deposit none) w x w1
      → env.banking.initiate_transfer w1.calls (inbound env t b x) ≡ err e
      → request (deposit_funds env t) w ≡ (
        err e,
        record w1 { db = w.db; calls = Call.initiate_transfer (inbound env t b x) ∷ w1.calls },
      )
  unfolding deposit_funds initiate get_by_id get_by_user_and_currency
  deposit_funds_forgotten t w b a x w1 e hb ho ha hx hg =
      let (_, _, last, _, _) =
        create-Returns env t.user_id TransactionType.deposit none w x w1 hx in
      let w2 = record w1 { calls = Call.initiate_transfer (inbound env t b x) ∷ w1.calls } in
      let rows = replace Tables.transactions x.id (marked x) w1.db.transactions in
      let w3 = record w2 { db = record w1.db { transactions = rows } } in
      let tried : initiate env t b x w1 ≡ (err e, w3) =
        on_exception_err (send env t b x) (mark_failed x) w1 w2 w3 e (rw hg)
          (mark_failed-last x w.db.transactions w2 last) in
      let mine : (b.user_id == t.user_id) ≡ true = (==_iff b.user_id t.user_id).1 ho in
      request_err (deposit_funds env t) w w3 e (rw hb (rw mine (rw ha (rw hx tried))))
