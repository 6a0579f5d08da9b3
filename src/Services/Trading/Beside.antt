-- ===== src/Services/Trading/Beside.antt =====
-- What a trade leaves of the transactions that were there before it.
use crypto_brokerage.Base.{ℕ, ◌≡◌, subst, false, Option, none, some, String, List, ◌==◌}
use crypto_brokerage.Env.{Env}
use crypto_brokerage.Models.{Account, Order, Transaction, TransactionStatus, OrderStatus}
use crypto_brokerage.Gateways.{FillEvent}
use crypto_brokerage.Session.{World, ◌>>=◌}
use crypto_brokerage.Session.Keeps.{Keeps, Keeps-pure, keeps_rules}
use crypto_brokerage.Session.Commits.{Commits, Commits-bind, Keeps-Commits}
use crypto_brokerage.Session.Outcome.{bind-Returns}
use crypto_brokerage.Repository.Writes.{update_spares}
use crypto_brokerage.Tables
use crypto_brokerage.Repositories.Orders
use crypto_brokerage.Repositories.Reads.{read_rules}
use crypto_brokerage.Repositories.Transactions
use crypto_brokerage.Repositories.Transactions.Beside.{Reads, update_status-Reads, added-Reads}
use crypto_brokerage.Services.Books.{admit-Keeps, fills_of-Keeps}
use crypto_brokerage.Services.Trading.{
  Trade, submit, process_fills, finalise, settle, open_order, admit, place, unless_known,
  execute_trade,
}
use crypto_brokerage.Services.Trading.Fills.{process_fills-Returns}
use crypto_brokerage.Services.Trading.Opened.{open_order-Returns}

module _ (i : ℕ) (y : Transaction) where
  order_status-Reads : (o : Order) (s : OrderStatus) → Keeps (Reads i y) (Orders.update_status o s)
  unfolding Orders.update_status
  order_status-Reads o s = update_spares Tables.orders (Reads i y) (λ rs db h. h) o.id _

  process_fills-Reads :
      (env : Env) (seen : List String) (a : Account) (q : String) (x : Transaction)
      (fs : List FillEvent) (o : Order)
      → Commits (Reads i y) (process_fills env seen a q x fs o)
  process_fills-Reads env seen a q x fs o = record {
    on_return = λ w o' w' r h.
        subst (λ (p : Order × World). Reads i y p.1.db)
          (process_fills-Returns env seen a q x fs o w o' w' r) h;
  }

  -- The steps that write the transaction of the trade, which is another one.
  module _ (x : Transaction) (ne : (x.id == i) ≡ false) where
    own_status-Reads :
        (s : TransactionStatus) (ref : Option String)
        → Keeps (Reads i y) (Transactions.update_status x s ref)
    own_status-Reads s ref = update_status-Reads i y x s ref ne

    finalise-Reads : (s : String) (o : Order) → Keeps (Reads i y) (finalise s x o)
    unfolding finalise
    finalise-Reads s o = search (keeps_rules, order_status-Reads, own_status-Reads)

    submit-Reads : (env : Env) (t : Trade) (o : Order) → Keeps (Reads i y) (submit env t o x)
    unfolding submit
    submit-Reads env t o = search (keeps_rules, order_status-Reads, own_status-Reads)

    settle-Reads :
        (env : Env) (t : Trade) (a : Account) (o : Order) → Commits (Reads i y) (settle env t a o x)
    unfolding settle
    settle-Reads env t a o = search (
      Commits-bind, Keeps-Commits, submit-Reads, fills_of-Keeps, process_fills-Reads,
      finalise-Reads,
    )

  place-Reads : (env : Env) (t : Trade) → Commits (Reads i y) (place env t)
  unfolding place
  place-Reads env t = record {
    on_return = λ w o w' r h.
        let w1 = (admit env t w).1 in
        let w2 = (open_order env t w1).1 in
        let (a, admitted, r1) =
          bind-Returns (admit env t) (λ a. open_order env t >>= λ p. settle env t a p.0 p.1) w o w'
            r in
        let h1 = (Keeps-Commits _ (admit-Keeps {P = Reads i y} env t)).on_return w a _ admitted h in
        let (p, opened, r2) =
          bind-Returns (open_order env t) (λ p. settle env t a p.0 p.1) _ o w' r1 in
        let (_, _, _, last) = open_order-Returns env t _ p _ opened in
        let (h2, ne) = added-Reads i y p.1 w1.db w2.db h1 last in
        (settle-Reads p.1 ne env t a p.0).on_return _ o w' r2 h2;
  }

  unless_known-Reads :
      (env : Env) (t : Trade) (found : Option Order)
      → Commits (Reads i y) (unless_known env t found)
  unless_known-Reads env t none = place-Reads env t
  unless_known-Reads env t (some o) = Keeps-Commits _ (Keeps-pure o)

  pub execute_trade-Reads : (env : Env) (t : Trade) → Commits (Reads i y) (execute_trade env t)
  unfolding execute_trade
  execute_trade-Reads env t = search (Commits-bind, Keeps-Commits, read_rules, unless_known-Reads)
