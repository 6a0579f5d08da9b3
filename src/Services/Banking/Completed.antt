-- ===== src/Services/Banking/Completed.antt =====
-- A deposit from its start to its confirmation.
use crypto_brokerage.Base.{
  ◌≡◌, refl, ap, ◌∙◌, subst, none, some, String, [], ◌∷◌, ◌++◌, find, find-append_none, eq_iff,
  true,
}
use crypto_brokerage.Models.{Transaction, TransactionStatus, TransactionType}
use crypto_brokerage.Errors.{Result, ok}
use crypto_brokerage.Env.{Env}
use crypto_brokerage.Session.{Db, World}
use crypto_brokerage.Session.Outcome.{Returns}
use crypto_brokerage.Repository.Inserted.{replace-inserted}
use crypto_brokerage.Tables
use crypto_brokerage.Tables.Consistent.{IsConsistent}
use crypto_brokerage.Repositories.Transactions.{has_reference}
use crypto_brokerage.Services.Consistent.{deposit_funds-IsConsistent}
use crypto_brokerage.Services.Banking.{Transfer, TransferResult, deposit_funds, confirm_deposit}
use crypto_brokerage.Services.Banking.Deposited.{deposit_funds-Returns}
use crypto_brokerage.Services.Banking.Confirm.{
  referenced, completed_row, completed_in, confirmed, confirm_deposit_lem,
}

has_reference_own :
    (x : Transaction) (ref : String) → x.reference_id ≡ some ref → has_reference ref x ≡ true
has_reference_own x ref h = rw (h, has_reference) ((eq_iff ref ref).1 refl)

-- A confirmation completes the transaction in progress that it finds.
confirmed-processing :
    (ref : String) (x : Transaction) (db : Db)
    → referenced ref db ≡ some x
    → x.status ≡ TransactionStatus.processing
    → confirmed ref db ≡ completed_in x db
confirmed-processing ref x db found processing = rw found (rw processing refl)

module _ (env : Env) where
  -- In tables that keep their constraints: when a deposit has returned under a reference that no
  -- earlier transaction has, the confirmation of the reference completes the deposit, and this is all
  -- that the two have done: one completed transaction of the user is added to the tables.
  pub deposit_funds-confirm_deposit :
      (t : Transfer) (w : World) (r : TransferResult) (w' : World)
      → IsConsistent w.db
      → Returns (deposit_funds env t) w r w'
      → referenced r.external_transfer_id w.db ≡ none
      → (x : Transaction) × (x.id ≡ r.transaction_id)
        × (x.user_id ≡ t.user_id)
        × (x.transaction_type ≡ TransactionType.deposit)
        × (x.status ≡ TransactionStatus.completed)
        × Returns
            (confirm_deposit r.external_transfer_id)
            w'
            tt
            (record w' { db = record w.db { transactions = w.db.transactions ++ (x ∷ []) } })
  deposit_funds-confirm_deposit t w r w' c h new =
      let d = deposit_funds-Returns env t w r w' h in
      let ref = r.external_transfer_id in
      let db1 = record w.db { transactions = w.db.transactions ++ (d.row ∷ []) } in
      let own : has_reference ref d.row ≡ true = has_reference_own d.row ref d.referred in
      let alone : find (has_reference ref) (d.row ∷ []) ≡ some d.row = rw own in
      let found : referenced ref db1 ≡ some d.row =
        find-append_none (has_reference ref) w.db.transactions (d.row ∷ []) new ∙ alone in
      let moved : confirmed ref db1 ≡ completed_in d.row db1 =
        confirmed-processing ref d.row db1 found d.processing in
      let placed =
        replace-inserted Tables.transactions w.db.transactions d.row (completed_row d.row)
          d.fresh in
      let left : confirmed ref w'.db
          ≡ record w.db { transactions = w.db.transactions ++ (completed_row d.row ∷ []) } =
        ap (confirmed ref) d.appended ∙ moved ∙ ap (λ l. record w.db { transactions = l }) placed in
      let kept : IsConsistent w'.db =
        subst (λ (p : Result TransferResult × World). IsConsistent p.1.db) h
          ((deposit_funds-IsConsistent env t).after w c) in
      (
        completed_row d.row,
        d.keyed,
        d.of_user,
        d.deposit,
        refl,
        confirm_deposit_lem ref w' kept ∙ ap (λ (db : Db). (ok tt, record w' { db = db })) left,
      )
