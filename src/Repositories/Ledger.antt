-- ===== src/Repositories/Ledger.antt =====
-- app/repositories/ledger_repository.py: `LedgerRepository`.
pub mod Entries
pub mod Balances
pub mod Book
use crypto_brokerage.Base.{
  ℕ, Bool, ◌&&◌, ◌||◌, Option, none, some, String, List, ◌==◌, str_eq, select, and_then,
}
use crypto_brokerage.Base.Pages.{descending, order_by, page}
use crypto_brokerage.Decimal.{Decimal, nought, le}
use crypto_brokerage.Models.{entry_fits, LedgerEntry}
use crypto_brokerage.Errors.{ledger_imbalance}
use crypto_brokerage.Env.{Env}
use crypto_brokerage.Session.{Exec, ◌>>=◌, ◌>>◌, query, raise_if}
use crypto_brokerage.Repository.{stored, add}
use crypto_brokerage.Tables.{ledger_entries}

-- The arguments of `create_double_entry`.
pub record Movement : Type 0 where
  pub debit_account_id : ℕ
  pub credit_account_id : ℕ
  pub amount : Decimal
  pub currency : String
  pub reference_type : String
  pub reference_id : String

-- The row of the movement under the key `i`.
abbrev pub entry_row : Env → Movement → ℕ → Option LedgerEntry
entry_row env m i = and_then (env.numeric m.amount) λ units. stored entry_fits (record {
  id = i;
  debit_account_id = m.debit_account_id;
  credit_account_id = m.credit_account_id;
  amount = units;
  currency = m.currency;
  reference_type = m.reference_type;
  reference_id = m.reference_id;
})

unfoldable pub create_double_entry : Env → Movement → Exec LedgerEntry
create_double_entry env m = do
  raise_if (le m.amount nought) ledger_imbalance
  raise_if (m.debit_account_id == m.credit_account_id) ledger_imbalance
  add ledger_entries env (entry_row env m)

unfoldable pub get_entries_by_reference : String → String → Exec (List LedgerEntry)
get_entries_by_reference reference_type reference_id = query λ db.
    select (λ e. str_eq e.reference_type reference_type && str_eq e.reference_id reference_id)
      db.ledger_entries

-- The entries with the account on either side.
abbrev pub touches : ℕ → LedgerEntry → Bool
touches account_id e = e.debit_account_id == account_id || e.credit_account_id == account_id

unfoldable pub get_entries_for_account : Env → ℕ → ℕ → ℕ → Exec (List LedgerEntry)
get_entries_for_account env account_id limit offset = query λ db. page limit offset (
    order_by descending (λ (e : LedgerEntry). env.created_at e.id) (λ e. env.tie limit offset e.id)
      (select (touches account_id) db.ledger_entries))
