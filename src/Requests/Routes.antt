-- ===== src/Requests/Routes.antt =====
-- What the services keep, every route keeps.
use crypto_brokerage.Base.{ℕ, String}
use crypto_brokerage.Models.{User}
use crypto_brokerage.Env.{Env}
use crypto_brokerage.Session.{Db, World, Exec}
use crypto_brokerage.Session.Keeps.{
  Keeps, Keeps-raise, Keeps-bind, Keeps-or_raise, Keeps-raise_if, Keeps-translating, Keeps-request,
}
use crypto_brokerage.Session.Commits.{Commits, Keeps-Commits, Commits-bind, Commits-request}
use crypto_brokerage.Services.Trading.{Trade, execute_trade}
use crypto_brokerage.Services.Onboarding.{Registration, register_user}
use crypto_brokerage.Services.Onboarding
use crypto_brokerage.Api.{respond}
use crypto_brokerage.Api.Keeps.{
  login-Keeps, list_accounts-Keeps, account_balance-Keeps, list_bank_accounts-Keeps,
  get_portfolio-Keeps, get_order-Keeps, list_orders-Keeps, authenticated-Keeps,
  authenticated-Commits, create_order-Commits,
}
use crypto_brokerage.Api.Schemas.Accounts.{BankAccountCreate}
use crypto_brokerage.Api.Auth
use crypto_brokerage.Api.Accounts
use crypto_brokerage.Requests.{
  Route, post_register, post_login, get_me, get_accounts, get_account_balance, post_bank_account,
  get_bank_accounts, get_portfolio, post_order, get_order, get_orders, serve_route,
}

module _ {P : Db → Type 0} {A : Type 0} (code : ℕ) (m : Exec A) where
  respond_keeps : Keeps P m → (w : World) → P w.db → P (respond code m w).1.db
  unfolding respond
  respond_keeps k w h = (Keeps-request m k).after w h

  respond_commits : Commits P m → (w : World) → P w.db → P (respond code m w).1.db
  unfolding respond
  respond_commits k w h = (Commits-request m k).after w h

module _ (env : Env) (P : Db → Type 0)
    (registered : (r : Registration) → Keeps P (register_user env r))
    (linked : (u : ℕ) (ref bank : String) → Keeps P (Onboarding.link_bank_account env u ref bank))
    (traded : (t : Trade) → Commits P (execute_trade env t)) where
  register-Keeps : (r : Registration) → Keeps P (Auth.register env r)
  unfolding Auth.register
  register-Keeps r = Keeps-translating _ Auth.user_conflict (registered r)

  link-Keeps :
      (p : BankAccountCreate) (user : User) → Keeps P (Accounts.link_bank_account env p user)
  unfolding Accounts.link_bank_account
  link-Keeps p user =
      Keeps-translating _ Accounts.link_conflict (linked user.id p.external_reference p.bank_name)

  -- What registrations, linkings and trades keep, every route keeps.
  pub serve_route_keeps : (r : Route) (w : World) → P w.db → P (serve_route env r w).db
  unfolding serve_route Auth.get_me
  serve_route_keeps (post_register p) =
      respond_keeps 201 _ (Keeps-bind _ _ (Keeps-or_raise _ _) register-Keeps)
  serve_route_keeps (post_login username password) =
      respond_keeps 200 _ (login-Keeps env username password)
  serve_route_keeps get_me = (Keeps-request _ (Keeps-raise _)).after
  serve_route_keeps (get_accounts header) =
      respond_keeps 200 _ (authenticated-Keeps env header _ (list_accounts-Keeps env))
  serve_route_keeps (get_account_balance header i) =
      respond_keeps 200 _
        (authenticated-Keeps env header _ (λ user. account_balance-Keeps env user i))
  serve_route_keeps (post_bank_account header p) = respond_keeps 201 _ (
      authenticated-Keeps env header _
        λ user. Keeps-bind _ _ (Keeps-raise_if _ _) λ _. link-Keeps p user)
  serve_route_keeps (get_bank_accounts header) =
      respond_keeps 200 _ (authenticated-Keeps env header _ (list_bank_accounts-Keeps env))
  serve_route_keeps (get_portfolio header q) =
      respond_keeps 200 _
        (authenticated-Keeps env header _ (λ user. get_portfolio-Keeps env user q))
  serve_route_keeps (post_order header p) = respond_commits 201 _ (
      authenticated-Commits env header _ λ user.
        Commits-bind _ _ (Keeps-Commits _ (Keeps-raise_if _ _))
          λ _. create_order-Commits env traded p user)
  serve_route_keeps (get_order header i) =
      respond_keeps 200 _ (authenticated-Keeps env header _ (get_order-Keeps env i))
  serve_route_keeps (get_orders header l o) =
      respond_keeps 200 _ (authenticated-Keeps env header _ (list_orders-Keeps env l o))
