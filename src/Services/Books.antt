-- ===== src/Services/Books.antt =====
-- The books: the ledger entries, the trade executions and the positions. What a service commits
-- leaves them as they were.
use crypto_brokerage.Services.Aside.{Spared, transaction_status-Keeps, create-Keeps}
use crypto_brokerage.Base.{◌≡◌, Option, none, some, String, List, subst}
use crypto_brokerage.Env.{Env}
use crypto_brokerage.Models.{Account, Order, Transaction, OrderStatus}
use crypto_brokerage.Gateways.{FillEvent, OrderSubmission}
use crypto_brokerage.Session.{Db, World}
use crypto_brokerage.Session.Keeps.{Keeps, Keeps-bind, Keeps-pure, keeps_rules}
use crypto_brokerage.Session.Commits.{Commits, Commits-bind, Keeps-Commits}
use crypto_brokerage.Repository.Writes.{add_spares, update_spares}
use crypto_brokerage.Tables
use crypto_brokerage.Repositories.Orders
use crypto_brokerage.Repositories.Reads.{read_rules}
use crypto_brokerage.Services.Trading.{
  Trade, submit, fills_of, process_fills, finalise, settle, open_order, admit, place, unless_known,
  execute_trade,
}
use crypto_brokerage.Services.Trading.Fills.{process_fills-Returns}

abbrev pub SameBooks : Db → Db → Type 0
SameBooks before after =
    (after.ledger_entries ≡ before.ledger_entries)
    × (after.trade_executions ≡ before.trade_executions)
    × (after.positions ≡ before.positions)

pub admit-Keeps : {P : Db → Type 0} (env : Env) (t : Trade) → Keeps P (admit env t)
unfolding admit
admit-Keeps env t = search (keeps_rules, read_rules) depth 9

pub fills_of-Keeps : {P : Db → Type 0} (s : OrderSubmission) → Keeps P (fills_of s)
unfolding fills_of
fills_of-Keeps s = search keeps_rules

pub SameBooks-Spared : (before : Db) → Spared (SameBooks before)
SameBooks-Spared before = record {
  enrolling = record {
    users = λ rs db h. h;
    user_profiles = λ rs db h. h;
    accounts = λ rs db h. h;
    bank_accounts = λ rs db h. h;
  };
  transactions = λ rs db h. h;
}

-- What a trade commits: orders and transactions only, as its fills are always refused.
module _ (P : Db → Type 0) (spared : Spared P)
    (orders : (rs : List Order) (db : Db) → P db → P (record db { orders = rs })) where
  order_status-Keeps : (o : Order) (s : OrderStatus) → Keeps P (Orders.update_status o s)
  unfolding Orders.update_status
  order_status-Keeps o s = update_spares Tables.orders P orders o.id _

ruleset status_rules =
    (keeps_rules, read_rules, order_status-Keeps, transaction_status-Keeps, create-Keeps)

module _ (P : Db → Type 0) (spared : Spared P)
    (orders : (rs : List Order) (db : Db) → P db → P (record db { orders = rs })) where
  finalise-Keeps : (s : String) (x : Transaction) (o : Order) → Keeps P (finalise s x o)
  unfolding finalise
  finalise-Keeps s x o = search status_rules

  module _ (env : Env) where
    submit-Keeps : (t : Trade) (o : Order) (x : Transaction) → Keeps P (submit env t o x)
    unfolding submit
    submit-Keeps t o x = search status_rules

    process_fills-Commits :
        (seen : List String) (a : Account) (q : String) (x : Transaction) (fs : List FillEvent)
        (o : Order)
        → Commits P (process_fills env seen a q x fs o)
    process_fills-Commits seen a q x fs o = record {
      on_return = λ w o' w' r h.
          subst (λ (p : Order × World). P p.1.db)
            (process_fills-Returns env seen a q x fs o w o' w' r) h;
    }

    settle-Commits :
        (t : Trade) (a : Account) (o : Order) (x : Transaction) → Commits P (settle env t a o x)
    unfolding settle
    settle-Commits t a o x = search (
      Commits-bind, Keeps-Commits, submit-Keeps, fills_of-Keeps, process_fills-Commits,
      finalise-Keeps,
    )

    open_order-Keeps : (t : Trade) → Keeps P (open_order env t)
    unfolding open_order
    open_order-Keeps t =
        Keeps-bind _ _ (add_spares Tables.orders P orders env _) (λ o. search status_rules)

    unless_known-Commits : (t : Trade) (found : Option Order) → Commits P (unless_known env t found)
    unfolding place
    unless_known-Commits t none =
        search (Commits-bind, Keeps-Commits, admit-Keeps, open_order-Keeps, settle-Commits)
    unless_known-Commits t (some o) = search (Keeps-Commits, Keeps-pure)

    -- A trade commits whatever speaks neither of orders nor of transactions.
    pub execute_trade-Commits : (t : Trade) → Commits P (execute_trade env t)
    unfolding execute_trade
    execute_trade-Commits t = search (Commits-bind, Keeps-Commits, read_rules, unless_known-Commits)

pub execute_trade-SameBooks :
    (env : Env) (before : Db) (t : Trade) → Commits (SameBooks before) (execute_trade env t)
execute_trade-SameBooks env before =
    execute_trade-Commits (SameBooks before) (SameBooks-Spared before) (λ rs db h. h) env
