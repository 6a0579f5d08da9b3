-- ===== src/Services/Trading/Forgotten.antt =====
-- Trades that leave the program and are then rolled back: the exchange has the order, the tables
-- do not.
use crypto_brokerage.Base.{◌≡◌, refl, ap, ◌∙◌, none, some, List, ◌∷◌, find, ◌==◌}
use crypto_brokerage.Models.{Account, Order, OrderStatus, Transaction, TransactionStatus}
use crypto_brokerage.Errors.{Error, Result, ok, err}
use crypto_brokerage.Gateways.{Call}
use crypto_brokerage.Env.{Env}
use crypto_brokerage.Session.{Db, World, request}
use crypto_brokerage.Session.Outcome.{Returns, Raises, on_exception_err, request_err}
use crypto_brokerage.Repository.{replace}
use crypto_brokerage.Repository.Writes.{update-found}
use crypto_brokerage.Repository.Inserted.{find-inserted}
use crypto_brokerage.Tables
use crypto_brokerage.Repositories.Orders
use crypto_brokerage.Repositories.Transactions.Created
use crypto_brokerage.Repositories.Transactions.Created.{update_status-last}
use crypto_brokerage.Services.Trading.{
  Trade, order_request, send, mark_failed, submit, settle, open_order, admit, place, execute_trade,
}
use crypto_brokerage.Services.Trading.Finalised.{IsLast}
use crypto_brokerage.Services.Trading.Opened.{open_order-Returns}
use crypto_brokerage.Services.Trading.Placed.{known}

-- The tables once the order and its transaction are marked as failed.
abbrev failed_order : Order → Db → Db
failed_order o db = record db {
  orders = replace Tables.orders o.id (record o { status = OrderStatus.failed }) db.orders;
}

abbrev failed_transaction : Transaction → Db → Db
failed_transaction x db = record db {
  transactions =
      replace Tables.transactions x.id (record x { status = TransactionStatus.failed })
        db.transactions;
}

mark_failed-last :
    (o : Order) (x : Transaction) (os : List Order) (xs : List Transaction) (w : World)
    → IsLast o os w.db
    → Created.IsLast x xs w.db
    → mark_failed o x w ≡ (ok tt, record w { db = failed_transaction x (failed_order o w.db) })
unfolding Orders.update_status
mark_failed-last o x os xs w lo lx =
    let at : find (λ (y : Order). y.id == o.id) w.db.orders ≡ some o =
      rw (lo.0) (find-inserted Tables.orders os o lo.1) in
    let first =
      update-found Tables.orders o.id (λ y. some (record y { status = OrderStatus.failed })) w o
        (record o { status = OrderStatus.failed }) at refl in
    let second =
      update_status-last x TransactionStatus.failed none xs (record w { db = failed_order o w.db })
        lx refl in
    rw first (rw second)

module _ (env : Env) where
  -- Once the order and its transaction are in the session, `execute_trade` is steps 6 to 8.
  pub execute_trade-settle :
      (t : Trade) (w w1 w2 : World) (a : Account) (r : Order × Transaction)
      → known t.idempotency_key w.db ≡ none
      → Returns (admit env t) w a w1
      → Returns (open_order env t) w1 r w2
      → execute_trade env t w ≡ settle env t a r.0 r.1 w2
  unfolding execute_trade place Orders.get_by_idempotency_key
  execute_trade-settle t w w1 w2 a r hk ha ho = rw hk (rw ha (rw ho))

  -- The trade reached the gateway with these values.
  pub record Reaches (t : Trade) (w : World) : Type 0 where
    pub new_key : known t.idempotency_key w.db ≡ none
    pub account : Account
    pub locked : World
    pub admitted : Returns (admit env t) w account locked
    pub opened : Order × Transaction
    pub world : World
    pub stored : Returns (open_order env t) locked opened world

  -- What is left of it: the error, the tables as before the request, and the call that went out.
  pub record IsForgotten (t : Trade) (w w2 : World) (e : Error) : Type 0 where
    pub raised : Raises (request (execute_trade env t)) w e
    pub same_tables : (request (execute_trade env t) w).1.db ≡ w.db
    pub sent_out :
        (request (execute_trade env t) w).1.calls ≡ Call.submit_order (order_request t) ∷ w2.calls

  pub forget :
      (t : Trade) (w w2 w3 : World) (e : Error)
      → execute_trade env t w ≡ (err e, w3)
      → w3.calls ≡ Call.submit_order (order_request t) ∷ w2.calls
      → IsForgotten t w w2 e
  forget t w w2 w3 e h k =
      let done = request_err (execute_trade env t) w w3 e h in
      record {
        raised = ap (λ (p : Result Order × World). p.0) done;
        same_tables = ap (λ (p : Result Order × World). p.1.db) done;
        sent_out = ap (λ (p : Result Order × World). p.1.calls) done ∙ k;
      }

  -- When the exchange refuses, or the call times out, the request ends with that error and no order
  -- is left: not even one marked as failed.
  pub submit_error_forgotten :
      (t : Trade) (w : World) (r : Reaches t w) (e : Error)
      → env.exchange.submit_order (r.world).calls (order_request t) ≡ err e
      → IsForgotten t w r.world e
  unfolding settle submit
  submit_error_forgotten t w r e hg =
      let (_, _, lo, lx) = open_order-Returns env t r.locked r.opened r.world r.stored in
      let o = (r.opened).0 in
      let x = (r.opened).1 in
      let w2 = r.world in
      let w3 = record w2 { calls = Call.submit_order (order_request t) ∷ w2.calls } in
      let w4 = record w3 { db = failed_transaction x (failed_order o w3.db) } in
      let tried : submit env t o x w2 ≡ (err e, w4) =
        on_exception_err (send env t) (mark_failed o x) w2 w3 w4 e (rw hg)
          (mark_failed-last o x _ _ w3 lo lx) in
      forget t w w2 w4 e
        (execute_trade-settle t w r.locked w2 r.account r.opened r.new_key r.admitted r.stored
          ∙ rw tried)
        refl
