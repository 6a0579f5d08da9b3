-- ===== src/Repositories/Ledger/Book.antt =====
-- The ledger as a book of one number for each account, and a posting as a transfer in it.
use crypto_brokerage.Base.{
  provided-some, ℕ, ◌^◌, ◌<◌, ◌≡◌, sym, ap, subst, ◌∙◌, some, ◌==◌, if◌then◌else◌, arith,
}
use crypto_brokerage.Base.Int.{ℤ, pos, ◌+ℤ◌, ◌-ℤ◌, +ℤ_parts, -ℤ_parts, eq_of_parts, magnitude}
use crypto_brokerage.Decimal.{precision}
use crypto_brokerage.Decimal.Exact.{sub_exact}
use crypto_brokerage.Models.{LedgerEntry, of_units}
use crypto_brokerage.Env.{Env}
use crypto_brokerage.Session.{Db, World}
use crypto_brokerage.Session.Outcome.{Returns}
use crypto_brokerage.Repository.Writes.{add-Returns}
use crypto_brokerage.Tables
use crypto_brokerage.Repositories.Accounts.{credits, debits, balance_of}
use crypto_brokerage.Repositories.Ledger.{Movement, entry_row, create_double_entry}
use crypto_brokerage.Repositories.Ledger.Entries.{create_double_entry-Returns}
use crypto_brokerage.Repositories.Ledger.Balances.{create_double_entry-IsPosted}

abbrev pub Book : Type 0
Book = ℕ → ℤ

-- What the ledger says, in units of 10 ^ -18.
abbrev pub book_of : Db → Book
book_of db account_id = credits account_id db -ℤ debits account_id db

-- The amount leaves the one account and arrives at the other.
abbrev pub transfer : ℕ → ℕ → ℤ → Book → Book
transfer source target amount book account_id =
    book account_id
    +ℤ (if target == account_id then amount else pos 0)
    -ℤ (if source == account_id then amount else pos 0)

exchange : (c d x y : ℤ) → (c +ℤ x) -ℤ (d +ℤ y) ≡ (c -ℤ d) +ℤ x -ℤ y
exchange c d x y =
    let h1 = +ℤ_parts c x in
    let h2 = +ℤ_parts d y in
    let h3 = -ℤ_parts (c +ℤ x) (d +ℤ y) in
    let h4 = -ℤ_parts c d in
    let h5 = +ℤ_parts (c -ℤ d) x in
    let h6 = -ℤ_parts ((c -ℤ d) +ℤ x) y in eq_of_parts _ _ (omega arith)

-- The balance that the repository computes is the number of the book, unrounded, as long as this has
-- at most 28 digits.
pub balance_of-book_of :
    (account_id : ℕ) (db : Db)
    → magnitude (book_of db account_id) < 10 ^ precision
    → balance_of account_id db ≡ of_units (book_of db account_id)
balance_of-book_of a db h = sub_exact (credits a db) (debits a db) h

module _ (env : Env) (m : Movement) (w : World) (e : LedgerEntry) (w' : World) where
  -- The entry is the movement, its amount as the column stores it.
  entry-of_movement :
      (units : ℤ)
      → env.numeric m.amount ≡ some units
      → Returns (create_double_entry env m) w e w'
      → (e.debit_account_id ≡ m.debit_account_id)
        × (e.credit_account_id ≡ m.credit_account_id)
        × (e.amount ≡ units)
  entry-of_movement units stored h =
      let (_, _, added) = create_double_entry-Returns env m w e w' h in
      let (made, _, _) = add-Returns Tables.ledger_entries env (entry_row env m) w e w' added in
      let row = (provided-some _ _ _ (rw stored at made)).1 in
      (
        ap (λ (x : LedgerEntry). x.debit_account_id) (sym row),
        ap (λ (x : LedgerEntry). x.credit_account_id) (sym row),
        ap (λ (x : LedgerEntry). x.amount) (sym row),
      )

  -- A posting is a transfer in the book.
  create_double_entry-transfer :
      (units : ℤ) (a : ℕ)
      → env.numeric m.amount ≡ some units
      → Returns (create_double_entry env m) w e w'
      → book_of w'.db a ≡ transfer m.debit_account_id m.credit_account_id units (book_of w.db) a
  create_double_entry-transfer units a stored h =
      let posted = create_double_entry-IsPosted env m w e w' h in
      let (d, c, u) = entry-of_movement units stored h in
      ap (λ x. x -ℤ debits a w'.db) (posted.credited a)
      ∙ ap (λ y. credits a w.db +ℤ (if e.credit_account_id == a then e.amount else pos 0) -ℤ y)
          (posted.debited a)
      ∙ exchange (credits a w.db) (debits a w.db) _ _
      ∙ (λ i. transfer (d i) (c i) (u i) (book_of w.db) a)

  -- A posting that returns is a transfer: the balance of every account, as the repository computes it
  -- with 28 digits, is exactly the balance before it, with the stored amount taken from the debit
  -- account and added to the credit account, as long as this number has at most 28 digits, that is,
  -- is below 10 ^ 10 of the currency.
  pub create_double_entry-balance_of :
      (units : ℤ) (a : ℕ)
      → env.numeric m.amount ≡ some units
      → Returns (create_double_entry env m) w e w'
      → magnitude (transfer m.debit_account_id m.credit_account_id units (book_of w.db) a)
        < 10 ^ precision
      → balance_of a w'.db
        ≡ of_units (transfer m.debit_account_id m.credit_account_id units (book_of w.db) a)
  create_double_entry-balance_of units a stored h short =
      let moved = create_double_entry-transfer units a stored h in
      balance_of-book_of a w'.db (subst (λ n. magnitude n < 10 ^ precision) (sym moved) short)
      ∙ ap of_units moved
