-- ===== src/Repositories/Ledger/Balances.antt =====
-- What a posted movement does to the balances.
use crypto_brokerage.Base.{
  ℕ, ◌≡◌, refl, sym, ap, subst, ◌∙◌, Bool, true, not, List, [], ◌∷◌, ◌++◌, ◌==◌, select, all,
  Bool-cases, inl, inr, if◌then◌else◌, arith,
}
use crypto_brokerage.Base.Int.{ℤ, pos, ◌+ℤ◌, +ℤ_parts, eq_of_parts}
use crypto_brokerage.Models.{LedgerEntry}
use crypto_brokerage.Env.{Env}
use crypto_brokerage.Session.{Db, World}
use crypto_brokerage.Session.Outcome.{Returns}
use crypto_brokerage.Repository.{same}
use crypto_brokerage.Repository.Unique.{both}
use crypto_brokerage.Repository.Writes.{add-Returns}
use crypto_brokerage.Tables
use crypto_brokerage.Repositories.Accounts.{sum_amounts, credits, debits}
use crypto_brokerage.Repositories.Ledger.{Movement, entry_row, create_double_entry}
use crypto_brokerage.Repositories.Ledger.Entries.{create_double_entry-Returns}

zero_add : (a : ℤ) → pos 0 +ℤ a ≡ a
zero_add a = let h = +ℤ_parts (pos 0) a in eq_of_parts _ _ (omega arith)

add_zero : (a : ℤ) → a +ℤ pos 0 ≡ a
add_zero a = let h = +ℤ_parts a (pos 0) in eq_of_parts _ _ (omega arith)

add_assoc : (a b c : ℤ) → a +ℤ (b +ℤ c) ≡ (a +ℤ b) +ℤ c
add_assoc a b c =
    let h1 = +ℤ_parts b c in
    let h2 = +ℤ_parts a (b +ℤ c) in
    let h3 = +ℤ_parts a b in let h4 = +ℤ_parts (a +ℤ b) c in eq_of_parts _ _ (omega arith)

sum_amounts-append :
    (p : LedgerEntry → Bool) (es : List LedgerEntry) (e : LedgerEntry)
    → sum_amounts (select p (es ++ (e ∷ [])))
      ≡ sum_amounts (select p es) +ℤ (if p e then e.amount else pos 0)
sum_amounts-append p [] e = elim (Bool-cases (p e)) [
  | inl own ↦ rw own (add_zero e.amount ∙ sym (zero_add e.amount))
  | inr other ↦ rw other (sym (zero_add (pos 0)))
]
sum_amounts-append p (x ∷ es) e = elim (Bool-cases (p x)) [
  | inl own ↦ rw own (ap (λ z. x.amount +ℤ z) (sum_amounts-append p es e) ∙ add_assoc x.amount _ _)
  | inr other ↦ rw other (sum_amounts-append p es e)
]

-- What a posting has changed.
pub record IsPosted (e : LedgerEntry) (before after : Db) : Type 0 where
  pub credited :
      (a : ℕ)
      → credits a after ≡ credits a before +ℤ (if e.credit_account_id == a then e.amount else pos 0)
  pub debited :
      (a : ℕ)
      → debits a after ≡ debits a before +ℤ (if e.debit_account_id == a then e.amount else pos 0)
  pub referred : Tables.ledger_entries.refers e before ≡ true
  pub appended : after.ledger_entries ≡ before.ledger_entries ++ (e ∷ [])
  pub same_accounts : after.accounts ≡ before.accounts

appended-IsPosted :
    (e : LedgerEntry) (db : Db)
    → Tables.ledger_entries.refers e db ≡ true
    → IsPosted e db (record db { ledger_entries = db.ledger_entries ++ (e ∷ []) })
appended-IsPosted e db named = record {
  credited = λ a. sum_amounts-append (λ x. x.credit_account_id == a) db.ledger_entries e;
  debited = λ a. sum_amounts-append (λ x. x.debit_account_id == a) db.ledger_entries e;
  referred = named;
  appended = refl;
  same_accounts = refl;
}

module _ (env : Env) (m : Movement) (w : World) (e : LedgerEntry) (w' : World) where
  entry_appended :
      Returns (create_double_entry env m) w e w'
      → (Tables.ledger_entries.refers e w.db ≡ true)
        × (record w.db { ledger_entries = w.db.ledger_entries ++ (e ∷ []) } ≡ w'.db)
  entry_appended h =
      let (_, _, added) = create_double_entry-Returns env m w e w' h in
      let (_, fits, left) = add-Returns Tables.ledger_entries env (entry_row env m) w e w' added in
      let (_, named) =
        both (all (λ s. not (same Tables.ledger_entries e s)) w.db.ledger_entries) _ fits in
      (named, ap (λ (x : World). x.db) (sym left))

  -- A posting that returns adds its amount to the credits of the one account and to the debits of
  -- the other, and to no other account's; both accounts are there, and nothing else about the
  -- entries and the accounts is changed.
  pub create_double_entry-IsPosted :
      Returns (create_double_entry env m) w e w' → IsPosted e w.db w'.db
  create_double_entry-IsPosted h =
      let (named, left) = entry_appended h in
      subst (IsPosted e w.db) left (appended-IsPosted e w.db named)
