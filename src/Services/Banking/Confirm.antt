-- ===== src/Services/Banking/Confirm.antt =====
-- `confirm_deposit`: what a confirmation does, and that it can be repeated.
use crypto_brokerage.Base.{
  ◌≡◌, refl, inl, inr, Bool, true, false, Bool-cases, Option, none, some, String, find, find-passes,
  ◌==◌, Option-cases, if◌then◌else◌,
}
use crypto_brokerage.Models.{Transaction, TransactionStatus}
use crypto_brokerage.Errors.{ok}
use crypto_brokerage.Session.{Db, World}
use crypto_brokerage.Repository.{update, replace}
use crypto_brokerage.Repository.Found.{find-own, find-replace}
use crypto_brokerage.Tables
use crypto_brokerage.Tables.Consistent.{IsConsistent}
use crypto_brokerage.Repositories.Transactions
use crypto_brokerage.Repositories.Transactions.{has_reference}
use crypto_brokerage.Services.Banking.{confirm, confirm_deposit}

-- The transaction with a reference, if there is one.
abbrev pub referenced : String → Db → Option Transaction
referenced ref db = find (has_reference ref) db.transactions

-- The statuses for which a confirmation is skipped.
abbrev pub is_skipped : TransactionStatus → Bool
is_skipped TransactionStatus.completed = true
is_skipped TransactionStatus.failed = true
is_skipped _ = false

abbrev pub completed_row : Transaction → Transaction
completed_row x = record x { status = TransactionStatus.completed }

-- The tables with the row of `x` completed.
abbrev pub completed_in : Transaction → Db → Db
completed_in x db = record db {
  transactions = replace Tables.transactions x.id (completed_row x) db.transactions;
}

confirm-skipped :
    (x : Transaction) (s : TransactionStatus) (w : World)
    → is_skipped s ≡ true
    → confirm x s w ≡ (ok tt, w)
confirm-skipped x TransactionStatus.completed w h = refl
confirm-skipped x TransactionStatus.failed w h = refl
confirm-skipped x _ w h = absurd (cc h)

confirm-open :
    (x : Transaction) (s : TransactionStatus) (w : World)
    → is_skipped s ≡ false
    → find (λ y. y.id == x.id) w.db.transactions ≡ some x
    → confirm x s w ≡ (ok tt, record w { db = completed_in x w.db })
unfolding Transactions.update_status update
confirm-open x TransactionStatus.completed w h f = absurd (cc h)
confirm-open x TransactionStatus.failed w h f = absurd (cc h)
confirm-open x _ w h f = rw f

abbrev pub confirmed_found : Option Transaction → Db → Db
confirmed_found none db = db
confirmed_found (some x) db = if is_skipped x.status then db else completed_in x db

-- What `confirm_deposit` makes of the tables: nothing where the reference is unknown or its
-- transaction is completed or failed; otherwise, also where it is reversed, that one row is completed.
abbrev pub confirmed : String → Db → Db
confirmed ref db = confirmed_found (referenced ref db) db

-- In tables that keep their constraints a confirmation never raises. It changes nothing where no
-- transaction has the reference, or the transaction found is completed or failed; otherwise it
-- completes that one row and changes nothing else: in particular it posts no ledger entry.
pub confirm_deposit_lem :
    (ref : String) (w : World)
    → IsConsistent w.db
    → confirm_deposit ref w ≡ (ok tt, record w { db = confirmed ref w.db })
unfolding confirm_deposit Transactions.get_by_reference
confirm_deposit_lem ref w c = elim (Option-cases (referenced ref w.db)) [
  | inl unknown ↦ rw unknown
  | inr (x, e) ↦ elim (Bool-cases (is_skipped x.status)) [
    | inl skipped ↦ rw e (rw skipped (confirm-skipped x x.status w skipped))
    | inr open_ ↦ rw e (
        rw open_ (
          confirm-open x x.status w open_ (
            find-own Tables.transactions (has_reference ref) w.db.transactions x
              c.distinct_transactions e)))
  ]
]

-- Confirming again changes nothing: `confirmed` is idempotent.
pub confirmed-confirmed :
    (ref : String) (db : Db) → IsConsistent db → confirmed ref (confirmed ref db) ≡ confirmed ref db
confirmed-confirmed ref db c = elim (Option-cases (referenced ref db)) [
  | inl unknown ↦ rw (unknown, unknown)
  | inr (x, e) ↦ elim (Bool-cases (is_skipped x.status)) [
    | inl skipped ↦ rw e (rw skipped (rw e (rw skipped)))
    | inr open_ ↦
        let again : referenced ref (completed_in x db) ≡ some (completed_row x) =
          find-replace Tables.transactions (has_reference ref) db.transactions x (completed_row x)
            c.distinct_transactions e (find-passes (has_reference ref) db.transactions e) in
        rw e (rw open_ (rw again))
  ]
]
