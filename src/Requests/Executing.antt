-- ===== src/Requests/Executing.antt =====
-- Requests at an exchange that reports every order as executed.
use crypto_brokerage.Base.{◌≡◌, refl, ap, ◌∙◌, List}
use crypto_brokerage.Env.{Env}
use crypto_brokerage.Session.{World}
use crypto_brokerage.Services.Aside.{Spared}
use crypto_brokerage.Services.Trading.Executing.{IsExecuting, executing-known}
use crypto_brokerage.Requests.{Request, serve_all}
use crypto_brokerage.Requests.Aside.{serve_all_keeps}

-- They keep the orders.
pub executing-orders :
    (env : Env)
    → IsExecuting env.exchange
    → (rs : List Request) (w : World) → (serve_all env rs w).db.orders ≡ w.db.orders
executing-orders env law rs w =
    let spared : Spared (λ db. db.orders ≡ w.db.orders) = record {
      enrolling = record {
        users = λ rs db h. h;
        user_profiles = λ rs db h. h;
        accounts = λ rs db h. h;
        bank_accounts = λ rs db h. h;
      };
      transactions = λ rs db h. h;
    } in
    serve_all_keeps env (λ db. db.orders ≡ w.db.orders) spared
      (λ t. record {
        on_return = λ v o v' r h.
            ap (λ (x : World). x.db.orders) (executing-known env law t v o v' r).1 ∙ h;
      })
      rs w refl
