-- ===== src/Integrations/Http/Production.antt =====
-- The deployed application: what its requests do, with the exchange that it builds.
use crypto_brokerage.Base.{ℕ, ◌≡◌, refl, sym, subst, true, some, List}
use crypto_brokerage.Models.{Order}
use crypto_brokerage.Errors.{Result, ok}
use crypto_brokerage.Gateways.{OrderSubmission}
use crypto_brokerage.Env.{Env}
use crypto_brokerage.Session.{World}
use crypto_brokerage.Session.Outcome.{Returns}
use crypto_brokerage.Services.Trading.{Trade, execute_trade}
use crypto_brokerage.Services.Trading.Filled.{is_executed}
use crypto_brokerage.Services.Trading.Placed.{known}
use crypto_brokerage.Services.Trading.Executing.{IsExecuting, executing-known}
use crypto_brokerage.Requests.{Request, serve_all}
use crypto_brokerage.Requests.Executing.{executing-orders}
use crypto_brokerage.Integrations.Http.{Client, submission, http_exchange_gateway}

-- `tenacity` returns only what an attempt has returned.
abbrev pub IsRetry : Client → Type 1
IsRetry client =
    (A : Type 0) (f : ℕ → Result A) (a : A) → client.retry A f ≡ ok a → (n : ℕ) × (f n ≡ ok a)

-- Every order that the exchange takes, it reports as filled.
http_exchange_gateway-IsExecuting :
    (client : Client) → IsRetry client → IsExecuting (http_exchange_gateway client)
http_exchange_gateway-IsExecuting client retries = record {
  executes = λ calls r s h.
      let (n, e) = retries OrderSubmission (λ i. ok (submission client calls r i)) s h in
      let own : submission client calls r n ≡ s = cc e in
      subst (λ x. is_executed x ≡ true) own refl;
}

module _ (client : Client) (retries : IsRetry client) (env : Env)
    (deployed : env.exchange ≡ http_exchange_gateway client) where
  deployed-IsExecuting : IsExecuting env.exchange
  deployed-IsExecuting =
      subst IsExecuting (sym deployed) (http_exchange_gateway-IsExecuting client retries)

  -- With the exchange that the application deploys, a trade returns only for an idempotency key that
  -- it finds: it then returns the order of the key and does nothing. A new trade never returns.
  pub execute_trade-known :
      (t : Trade) (w : World) (o : Order) (w' : World)
      → Returns (execute_trade env t) w o w'
      → (known t.idempotency_key w.db ≡ some o) × (w' ≡ w)
  execute_trade-known = executing-known env deployed-IsExecuting

  -- With the exchange that the application deploys, no requests ever add an order or change one.
  pub serve_all-orders :
      (rs : List Request) (w : World) → (serve_all env rs w).db.orders ≡ w.db.orders
  serve_all-orders = executing-orders env deployed-IsExecuting
