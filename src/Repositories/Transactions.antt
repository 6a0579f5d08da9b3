-- ===== src/Repositories/Transactions.antt =====
-- app/repositories/transaction_repository.py: `TransactionRepository`.
pub mod Beside
pub mod Created
use crypto_brokerage.Base.{
  provided, ℕ, Bool, true, false, ◌&&◌, ◌==◌, Option, none, some, String, List, str_eq, find,
  select,
}
use crypto_brokerage.Base.Pages.{descending, order_by, page}
use crypto_brokerage.Models.{reference_fits, Transaction, TransactionStatus, TransactionType}
use crypto_brokerage.Env.{Env}
use crypto_brokerage.Session.{Exec, query}
use crypto_brokerage.Repository.{add, update}
use crypto_brokerage.Tables.{transactions}

unfoldable pub create : Env → ℕ → TransactionType → Option String → Exec Transaction
create env user_id transaction_type reference_id = add transactions env λ i.
    provided (reference_fits reference_id) (record {
      id = i;
      user_id = user_id;
      transaction_type = transaction_type;
      status = TransactionStatus.pending;
      reference_id = reference_id;
    })

-- A reference that is not given leaves the old one.
abbrev pub with_status : TransactionStatus → Option String → Transaction → Transaction
with_status status none t = record t { status = status }
with_status status (some r) t = record t { status = status; reference_id = some r }

unfoldable pub update_status : Transaction → TransactionStatus → Option String → Exec Transaction
update_status transaction status reference_id =
    update transactions transaction.id
      (λ t. provided (reference_fits reference_id) (with_status status reference_id t))

abbrev pub has_reference : String → Transaction → Bool
has_reference reference_id t = elim t.reference_id [ none ↦ false | some r ↦ str_eq r reference_id ]

unfoldable pub get_by_reference : String → Exec (Option Transaction)
get_by_reference reference_id = query (λ db. find (has_reference reference_id) db.transactions)

abbrev is_pending : TransactionStatus → Bool
is_pending TransactionStatus.pending = true
is_pending _ = false

unfoldable pub get_pending : Exec (List Transaction)
get_pending = query (λ db. select (λ t. is_pending t.status) db.transactions)

abbrev status_code : TransactionStatus → ℕ
status_code TransactionStatus.pending = 0
status_code TransactionStatus.processing = 1
status_code TransactionStatus.completed = 2
status_code TransactionStatus.failed = 3
status_code TransactionStatus.reversed = 4

-- `query.where(Transaction.status == status)`, if there is a status
abbrev has_status : Option TransactionStatus → Transaction → Bool
has_status none t = true
has_status (some status) t = status_code t.status == status_code status

unfoldable pub get_by_user : Env → ℕ → Option TransactionStatus → ℕ → ℕ → Exec (List Transaction)
get_by_user env user_id status limit offset = query λ db. page limit offset (
    order_by descending (λ t. env.created_at t.id) (λ t. env.tie limit offset t.id)
      (select (λ (t : Transaction). t.user_id == user_id && has_status status t) db.transactions))
