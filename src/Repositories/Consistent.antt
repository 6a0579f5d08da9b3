-- ===== src/Repositories/Consistent.antt =====
-- Every write of the repositories keeps the tables consistent.
use crypto_brokerage.Base.{ℕ, Option, none, some, String, refl}
use crypto_brokerage.Env.{Env}
use crypto_brokerage.Decimal.{Decimal}
use crypto_brokerage.Models.{
  reference_fits, Order, Transaction, TransactionStatus, Position, OrderStatus, TransactionType,
}
use crypto_brokerage.Session.Keeps.{
  Keeps, Keeps-request, Keeps-pure, Keeps-raise, Keeps-bind, Keeps-query, Keeps-or_raise,
  keeps_rules,
}
use crypto_brokerage.Repository.Unique.{Spares, Spares-some, Spares-provided, Spares-and_then}
use crypto_brokerage.Tables
use crypto_brokerage.Tables.Consistent.{IsConsistent}
use crypto_brokerage.Tables.Consistent.Writes.{
  add_user-IsConsistent, add_user_profile-IsConsistent, add_account-IsConsistent,
  add_bank_account-IsConsistent, add_order-IsConsistent, add_trade_execution-IsConsistent,
  add_position-IsConsistent, add_transaction-IsConsistent, add_ledger_entry-IsConsistent,
  update_order-IsConsistent, update_position-IsConsistent, update_transaction-IsConsistent,
}
use crypto_brokerage.Repositories.Ledger
use crypto_brokerage.Repositories.Ledger.{Movement}
use crypto_brokerage.Repositories.Orders
use crypto_brokerage.Repositories.Positions
use crypto_brokerage.Repositories.Transactions

pub ruleset row_rules = (
  keeps_rules, add_user-IsConsistent, add_user_profile-IsConsistent, add_account-IsConsistent,
  add_bank_account-IsConsistent, add_order-IsConsistent, add_trade_execution-IsConsistent,
  add_position-IsConsistent, add_transaction-IsConsistent, add_ledger_entry-IsConsistent,
)

pub update_status-IsConsistent :
    (o : Order) (s : OrderStatus) → Keeps IsConsistent (Orders.update_status o s)
unfolding Orders.update_status
update_status-IsConsistent o s =
    update_order-IsConsistent o.id _
      (Spares-some Tables.orders _ (λ r x. refl) (λ r x. refl) (λ r. refl) (λ r db. refl))

pub apply_fill-IsConsistent :
    (env : Env) (o : Order) (q : Decimal) → Keeps IsConsistent (Orders.apply_fill env o q)
unfolding Orders.apply_fill
apply_fill-IsConsistent env o q = update_order-IsConsistent o.id _ (
    Spares-and_then Tables.orders (env.numeric (Orders.new_filled o q)) _
      (λ u. Spares-some Tables.orders _ (λ r x. refl) (λ r x. refl) (λ r. refl) (λ r db. refl)))

with_status-Spares :
    (s : TransactionStatus) (ref : Option String)
    → Spares Tables.transactions (λ t. some (Transactions.with_status s ref t))
with_status-Spares s none =
    Spares-some Tables.transactions _ (λ r x. refl) (λ r x. refl) (λ r. refl) (λ r db. refl)
with_status-Spares s (some ref) =
    Spares-some Tables.transactions _ (λ r x. refl) (λ r x. refl) (λ r. refl) (λ r db. refl)

pub transaction_status-IsConsistent :
    (t : Transaction) (s : TransactionStatus) (ref : Option String)
    → Keeps IsConsistent (Transactions.update_status t s ref)
unfolding Transactions.update_status
transaction_status-IsConsistent t s ref =
    update_transaction-IsConsistent t.id _
      (Spares-provided Tables.transactions (reference_fits ref) _ (with_status-Spares s ref))

moved-Spares :
    (env : Env) (q a : Decimal) → Spares Tables.positions (Positions.moved_position env q a)
moved-Spares env q a = Spares-and_then Tables.positions (env.numeric q) _ λ u.
    Spares-and_then Tables.positions (env.numeric a) _
      λ v. Spares-some Tables.positions _ (λ r x. refl) (λ r x. refl) (λ r. refl) (λ r db. refl)

upsert-IsConsistent :
    (env : Env) (u a : ℕ) (d p : Decimal) (found : Option Position)
    → Keeps IsConsistent (Positions.upsert env u a d p found)
upsert-IsConsistent env u a d p none = add_position-IsConsistent env _
upsert-IsConsistent env u a d p (some x) =
    Keeps-bind _ _ (Keeps-or_raise _ _)
      (λ v. update_position-IsConsistent x.id _ (moved-Spares env _ v))

pub upsert_position-IsConsistent :
    (env : Env) (u a : ℕ) (d p : Decimal)
    → Keeps IsConsistent (Positions.upsert_position env u a d p)
unfolding Positions.upsert_position
upsert_position-IsConsistent env u a d p =
    Keeps-bind _ _ (Keeps-query _) (upsert-IsConsistent env u a d p)

pub create-IsConsistent :
    (env : Env) (u : ℕ) (t : TransactionType) (ref : Option String)
    → Keeps IsConsistent (Transactions.create env u t ref)
unfolding Transactions.create
create-IsConsistent env u t ref = add_transaction-IsConsistent env _

pub create_double_entry-IsConsistent :
    (env : Env) (m : Movement) → Keeps IsConsistent (Ledger.create_double_entry env m)
unfolding Ledger.create_double_entry
create_double_entry-IsConsistent env m = search row_rules
