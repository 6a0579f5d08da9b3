-- ===== src/Repositories/Ledger/Entries.antt =====
-- Which movements `create_double_entry` posts.
use crypto_brokerage.Base.{◌≡◌, ◌≢◌, ◌∙◌, sym, true, false, ◌==◌, ==_iff, Bool-cases, inl, inr}
use crypto_brokerage.Decimal.{nought, le}
use crypto_brokerage.Models.{LedgerEntry}
use crypto_brokerage.Errors.{err, ledger_imbalance}
use crypto_brokerage.Env.{Env}
use crypto_brokerage.Session.{World}
use crypto_brokerage.Session.Outcome.{Returns}
use crypto_brokerage.Repository.{add}
use crypto_brokerage.Tables.{ledger_entries}
use crypto_brokerage.Repositories.Ledger.{Movement, entry_row, create_double_entry}

-- A movement from an account to itself is refused, whatever its amount.
pub create_double_entry_self :
    (env : Env) (m : Movement) (w : World)
    → m.debit_account_id ≡ m.credit_account_id
    → create_double_entry env m w ≡ (err ledger_imbalance, w)
unfolding create_double_entry
create_double_entry_self env m w h =
    let eq : (m.debit_account_id == m.credit_account_id) ≡ true =
      (==_iff m.debit_account_id m.credit_account_id).1 h in
    elim (Bool-cases (le m.amount nought)) [ inl small ↦ rw small | inr large ↦ rw (large, eq) ]

-- A movement that is posted has a positive amount and two different accounts.
pub create_double_entry-Returns :
    (env : Env) (m : Movement) (w : World) (e : LedgerEntry) (w' : World)
    → Returns (create_double_entry env m) w e w'
    → (le m.amount nought ≡ false)
      × (m.debit_account_id ≢ m.credit_account_id)
      × Returns (add ledger_entries env (entry_row env m)) w e w'
unfolding create_double_entry
create_double_entry-Returns env m w e w' h = elim (Bool-cases (le m.amount nought)) [
  | inl small ↦ let bad = rw small at h in absurd (cc bad)
  | inr large ↦
      let h' = rw large at h in
      elim (Bool-cases (m.debit_account_id == m.credit_account_id)) [
        | inl eq ↦ let bad = rw eq at h' in absurd (cc bad)
        | inr ne ↦ (
          large,
          (λ p. absurd (cc (sym ne ∙ (==_iff m.debit_account_id m.credit_account_id).1 p))),
          rw ne at h',
        )
      ]
]
