-- ===== src/Requests/Consistency.antt =====
-- The constraints of the tables hold after every request, returned or raised.
use crypto_brokerage.Base.{List, [], ◌∷◌}
use crypto_brokerage.Env.{Env}
use crypto_brokerage.Session.{World}
use crypto_brokerage.Session.Keeps.{Keeps-request}
use crypto_brokerage.Session.Commits.{Keeps-Commits}
use crypto_brokerage.Tables.Consistent.{IsConsistent}
use crypto_brokerage.Services.Consistent.{
  execute_trade-IsConsistent, deposit_funds-IsConsistent, withdraw_funds-IsConsistent,
  confirm_deposit-IsConsistent, register_user-IsConsistent, link_bank_account-IsConsistent,
}
use crypto_brokerage.Requests.Routes.{serve_route_keeps}
use crypto_brokerage.Requests.{
  Request, register, link, trade, deposit, confirm, withdraw, http, pass, serve, serve_all,
}

module _ (env : Env) where
  pub serve-IsConsistent :
      (r : Request) (w : World) → IsConsistent w.db → IsConsistent (serve env r w).db
  unfolding serve
  serve-IsConsistent (register r) w h =
      (Keeps-request _ (register_user-IsConsistent env r)).after w h
  serve-IsConsistent (link u ref bank) w h =
      (Keeps-request _ (link_bank_account-IsConsistent env u ref bank)).after w h
  serve-IsConsistent (trade t) w h = (Keeps-request _ (execute_trade-IsConsistent env t)).after w h
  serve-IsConsistent (deposit t) w h =
      (Keeps-request _ (deposit_funds-IsConsistent env t)).after w h
  serve-IsConsistent (confirm ref) w h =
      (Keeps-request _ (confirm_deposit-IsConsistent ref)).after w h
  serve-IsConsistent (withdraw t) w h =
      (Keeps-request _ (withdraw_funds-IsConsistent env t)).after w h
  serve-IsConsistent (http r) w h =
      serve_route_keeps env IsConsistent (register_user-IsConsistent env)
        (link_bank_account-IsConsistent env)
        (λ t. Keeps-Commits _ (execute_trade-IsConsistent env t)) r w h
  serve-IsConsistent (pass n) w h = h

  -- From tables that keep their constraints, any requests, whatever the gateways answer, lead to such
  -- tables: in each table the rows are distinct under the primary key and the UNIQUE constraints, and
  -- every row that a FOREIGN KEY names is there.
  pub serve_all-IsConsistent :
      (rs : List Request) (w : World) → IsConsistent w.db → IsConsistent (serve_all env rs w).db
  unfolding serve_all
  serve_all-IsConsistent [] w h = h
  serve_all-IsConsistent (r ∷ rs) w h =
      serve_all-IsConsistent rs (serve env r w) (serve-IsConsistent r w h)
