-- ===== src/Requests/Aside.antt =====
-- A property that the requests without a trade keep because it does not speak of their tables.
use crypto_brokerage.Base.{List, [], ◌∷◌}
use crypto_brokerage.Env.{Env}
use crypto_brokerage.Session.{Db, World}
use crypto_brokerage.Session.Keeps.{Keeps-request}
use crypto_brokerage.Session.Commits.{Commits, Commits-request}
use crypto_brokerage.Services.Trading.{Trade, execute_trade}
use crypto_brokerage.Services.Aside.{
  Spared, deposit_funds-Keeps, withdraw_funds-Keeps, confirm_deposit-Keeps, register_user-Keeps,
  link_bank_account-Keeps,
}
use crypto_brokerage.Requests.Routes.{serve_route_keeps}
use crypto_brokerage.Requests.{
  Request, register, link, trade, deposit, confirm, withdraw, http, pass, serve, serve_all,
}

module _ (env : Env) (P : Db → Type 0) (spared : Spared P)
    (traded : (t : Trade) → Commits P (execute_trade env t)) where
  serve_keeps : (r : Request) (w : World) → P w.db → P (serve env r w).db
  unfolding serve
  serve_keeps (register r) w h =
      (Keeps-request _ (register_user-Keeps P spared.enrolling env r)).after w h
  serve_keeps (link u ref bank) w h =
      (Keeps-request _ (link_bank_account-Keeps P spared.enrolling env u ref bank)).after w h
  serve_keeps (trade t) w h = (Commits-request _ (traded t)).after w h
  serve_keeps (deposit t) w h = (Keeps-request _ (deposit_funds-Keeps P spared env t)).after w h
  serve_keeps (confirm ref) w h = (Keeps-request _ (confirm_deposit-Keeps P spared ref)).after w h
  serve_keeps (withdraw t) w h = (Keeps-request _ (withdraw_funds-Keeps P spared env t)).after w h
  serve_keeps (http r) w h =
      serve_route_keeps env P (register_user-Keeps P spared.enrolling env)
        (link_bank_account-Keeps P spared.enrolling env) traded r w h
  serve_keeps (pass n) w h = h

  -- What every trade keeps, all requests keep.
  pub serve_all_keeps : (rs : List Request) (w : World) → P w.db → P (serve_all env rs w).db
  unfolding serve_all
  serve_all_keeps [] w h = h
  serve_all_keeps (r ∷ rs) w h = serve_all_keeps rs (serve env r w) (serve_keeps r w h)
