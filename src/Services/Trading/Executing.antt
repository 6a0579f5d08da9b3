-- ===== src/Services/Trading/Executing.antt =====
-- An exchange that reports every order that it takes as executed, and what becomes of the trades.
use crypto_brokerage.Base.{◌≡◌, ap, inl, inr, true, some, List}
use crypto_brokerage.Models.{Order, Account, Transaction}
use crypto_brokerage.Errors.{Result, ok}
use crypto_brokerage.Gateways.{OrderSubmission, OrderRequest, ExchangeGateway, Call}
use crypto_brokerage.Env.{Env}
use crypto_brokerage.Session.{World}
use crypto_brokerage.Session.Outcome.{Returns, bind-Returns, on_exception-Returns}
use crypto_brokerage.Repositories.Orders
use crypto_brokerage.Services.Trading.{
  Trade, order_request, send, mark_failed, submit, settle, open_order, admit, place, execute_trade,
}
use crypto_brokerage.Services.Trading.Filled.{is_executed, settle_refused}
use crypto_brokerage.Services.Trading.Placed.{known, execute_trade-Returns}

-- The law of such an exchange.
pub record IsExecuting (g : ExchangeGateway) : Type 0 where
  pub executes :
      (calls : List Call) (r : OrderRequest) (s : OrderSubmission)
      → g.submit_order calls r ≡ ok s
      → is_executed s ≡ true

module _ (env : Env) (law : IsExecuting env.exchange) where
  settle_raises :
      (t : Trade) (a : Account) (o : Order) (x : Transaction) (w : World) (o' : Order) (w' : World)
      → Returns (settle env t a o x) w o' w'
      → ⊥
  unfolding settle submit
  settle_raises t a o x w o' w' h =
      let (s, sent, _) = bind-Returns (submit env t o x) _ w o' w' h in
      let done = on_exception-Returns (send env t) (mark_failed o x) w s _ sent in
      let answer = ap (λ (p : Result OrderSubmission × World). p.0) done in
      let (e, w2, raised, _, _) =
        settle_refused env t a o x w _ s sent (law.executes w.calls (order_request t) s answer) in
      cc

  -- At such an exchange a trade returns only for a key that it finds.
  pub executing-known :
      (t : Trade) (w : World) (o : Order) (w' : World)
      → Returns (execute_trade env t) w o w'
      → (known t.idempotency_key w.db ≡ some o) × (w' ≡ w)
  unfolding execute_trade Orders.get_by_idempotency_key place
  executing-known t w o w' h = elim (execute_trade-Returns env t w o w' h) [
    | inl found ↦ found
    | inr (new, _) ↦
        let h1 : Returns (place env t) w o w' = rw new at h in
        let (a, _, h2) = bind-Returns (admit env t) _ w o w' h1 in
        let (r, _, h3) = bind-Returns (open_order env t) _ _ o w' h2 in
        absurd (settle_raises t a r.0 r.1 _ o w' h3)
  ]
