-- ===== src/Requests.antt =====
-- The requests to the application, one after the other, each in a session of its own
-- (app/core/database.py: `get_db`): the routes of app/api/v1/, and the methods of the services, of
-- which banking has no route yet. Between requests time passes.
pub mod Routes
pub mod Consistency
pub mod Settled
pub mod Aside
pub mod Books
pub mod Unreserved
pub mod Once
pub mod Executing
pub mod Portfolio
use crypto_brokerage.Base.{ℕ, ◌+◌, Option, String, List, [], ◌∷◌}
use crypto_brokerage.Base.Int.{ℤ}
use crypto_brokerage.Models.{Order}
use crypto_brokerage.Env.{Env}
use crypto_brokerage.Session.{World, Exec, request}
use crypto_brokerage.Api.Auth
use crypto_brokerage.Api.Accounts
use crypto_brokerage.Api.Portfolio.{get_portfolio_route}
use crypto_brokerage.Api.Trading
use crypto_brokerage.Api.Schemas.Users.{UserCreate}
use crypto_brokerage.Api.Schemas.Accounts.{BankAccountCreate}
use crypto_brokerage.Api.Schemas.Orders.{OrderCreate}
use crypto_brokerage.Services.Trading.{Trade, execute_trade}
use crypto_brokerage.Services.Banking.{Transfer, deposit_funds, confirm_deposit, withdraw_funds}
use crypto_brokerage.Services.Onboarding.{Registration, register_user, link_bank_account}

abbrev forget : {A : Type 0} → Exec A → World → World
forget m w = (request m w).1

-- The routes of app/api/v1/, with the bearer token of the request where the route reads it.
pub data Route : Type 0 where
  post_register : UserCreate → Route
  post_login : String → String → Route
  get_me : Route
  get_accounts : Option String → Route
  get_account_balance : Option String → ℕ → Route
  post_bank_account : Option String → BankAccountCreate → Route
  get_bank_accounts : Option String → Route
  get_portfolio : Option String → String → Route
  post_order : Option String → OrderCreate → Route
  get_order : Option String → ℕ → Route
  get_orders : Option String → ℤ → ℤ → Route

-- The world that a route leaves.
unfoldable pub serve_route : Env → Route → World → World
serve_route env (post_register p) w = (Auth.post_register env p w).1
serve_route env (post_login username password) w = (Auth.post_login env username password w).1
serve_route env get_me w = forget (Auth.get_me env) w
serve_route env (get_accounts header) w = (Accounts.get_accounts env header w).1
serve_route env (get_account_balance header i) w = (Accounts.get_account_balance env header i w).1
serve_route env (post_bank_account header p) w = (Accounts.post_bank_account env header p w).1
serve_route env (get_bank_accounts header) w = (Accounts.get_bank_accounts env header w).1
serve_route env (get_portfolio header q) w = (get_portfolio_route env header q w).1
serve_route env (post_order header p) w = (Trading.post_order env header p w).1
serve_route env (get_order header i) w = (Trading.get_order_route env header i w).1
serve_route env (get_orders header l o) w = (Trading.get_orders env header l o w).1

pub data Request : Type 0 where
  register : Registration → Request
  -- the user, the external reference and the bank's name
  link : ℕ → String → String → Request
  trade : Trade → Request
  deposit : Transfer → Request
  confirm : String → Request
  withdraw : Transfer → Request
  -- a request of the HTTP interface
  http : Route → Request
  -- not a request: the clock goes on by some seconds
  pass : ℕ → Request

unfoldable pub serve : Env → Request → World → World
serve env (register r) w = forget (register_user env r) w
serve env (link user reference bank) w = forget (link_bank_account env user reference bank) w
serve env (trade t) w = forget (execute_trade env t) w
serve env (deposit t) w = forget (deposit_funds env t) w
serve env (confirm reference) w = forget (confirm_deposit reference) w
serve env (withdraw t) w = forget (withdraw_funds env t) w
serve env (http route) w = serve_route env route w
serve env (pass seconds) w = record w { clock = w.clock + seconds }

unfoldable pub serve_all : Env → List Request → World → World
serve_all env [] w = w
serve_all env (r ∷ rs) w = serve_all env rs (serve env r w)
