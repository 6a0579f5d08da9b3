-- ===== src/Repositories/Transactions/Created.antt =====
-- A transaction that was just created is the last row of its table.
use crypto_brokerage.Base.{
  provided, provided-some, false, ℕ, ◌≡◌, sym, ap, true, not, Option, some, String, List, [], ◌∷◌,
  ◌++◌, find, all, ◌==◌,
}
use crypto_brokerage.Models.{reference_fits, Transaction, TransactionType, TransactionStatus}
use crypto_brokerage.Errors.{ok, err, data_error}
use crypto_brokerage.Env.{Env}
use crypto_brokerage.Session.{Db, World}
use crypto_brokerage.Session.Outcome.{Returns}
use crypto_brokerage.Repository.{same, replace}
use crypto_brokerage.Repository.Unique.{both}
use crypto_brokerage.Repository.Writes.{add-Returns, update-found, update-refused}
use crypto_brokerage.Repository.Inserted.{find-inserted}
use crypto_brokerage.Tables
use crypto_brokerage.Repositories.Transactions.{create, with_status, update_status}

-- The transaction was added last, under a new key.
abbrev pub IsLast : Transaction → List Transaction → Db → Type 0
IsLast x rows db =
    (db.transactions ≡ rows ++ (x ∷ []))
    × (all (λ s. not (same Tables.transactions x s)) rows ≡ true)

pub found-last :
    (x : Transaction) (rows : List Transaction) (db : Db)
    → IsLast x rows db
    → find (λ y. y.id == x.id) db.transactions ≡ some x
found-last x rows db (at, fresh) = rw at (find-inserted Tables.transactions rows x fresh)

pub create-Returns :
    (env : Env) (u : ℕ) (kind : TransactionType) (ref : Option String) (w : World) (x : Transaction)
    (w' : World)
    → Returns (create env u kind ref) w x w'
    → (x.user_id ≡ u)
      × (x.transaction_type ≡ kind)
      × IsLast x w.db.transactions w'.db
      × (w'.calls ≡ w.calls)
      × (w'.db ≡ record w.db { transactions = w.db.transactions ++ (x ∷ []) })
unfolding create
create-Returns env u kind ref w x w' h =
    let (made, admitted, left) = add-Returns Tables.transactions env _ w x w' h in
    let (fresh, _) =
      both (all (λ s. not (same Tables.transactions x s)) w.db.transactions) _ admitted in
    let (_, own) = provided-some _ _ _ made in
    (
      ap (λ (y : Transaction). y.user_id) (sym own),
      ap (λ (y : Transaction). y.transaction_type) (sym own),
      (ap (λ (z : World). z.db.transactions) left, fresh),
      ap (λ (z : World). z.calls) left,
      ap (λ (z : World). z.db) left,
    )

-- Its status can be written at once.
pub update_status-last :
    (x : Transaction) (s : TransactionStatus) (ref : Option String) (rows : List Transaction)
    (w : World)
    → IsLast x rows w.db
    → reference_fits ref ≡ true
    → update_status x s ref w ≡ (
      ok (with_status s ref x),
      record w {
        db = record w.db {
          transactions = replace Tables.transactions x.id (with_status s ref x) w.db.transactions;
        };
      },
    )
unfolding update_status
update_status-last x s ref rows w last short =
    update-found Tables.transactions x.id (λ y. provided (reference_fits ref) (with_status s ref y))
      w x (with_status s ref x) (found-last x rows w.db last) (rw short)

-- A reference that its column cannot hold is refused.
pub update_status-long :
    (x : Transaction) (s : TransactionStatus) (ref : Option String) (rows : List Transaction)
    (w : World)
    → IsLast x rows w.db
    → reference_fits ref ≡ false
    → update_status x s ref w ≡ (err data_error, w)
unfolding update_status
update_status-long x s ref rows w last long =
    update-refused Tables.transactions x.id
      (λ y. provided (reference_fits ref) (with_status s ref y)) w x (found-last x rows w.db last)
      (rw long)
