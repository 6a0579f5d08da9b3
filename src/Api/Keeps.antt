-- ===== src/Api/Keeps.antt =====
-- The handlers keep what the services keep.
use crypto_brokerage.Base.{ℕ, Option, none, some, String, List, [], ◌∷◌}
use crypto_brokerage.Base.Int.{ℤ, pos, negsuc}
use crypto_brokerage.Models.{User, Account, Order, Position}
use crypto_brokerage.Errors.{Result, ok, err}
use crypto_brokerage.Env.{Env, Claim, text, time}
use crypto_brokerage.Session.{Db, Exec}
use crypto_brokerage.Session.Keeps.{
  Keeps, Keeps-pure, Keeps-raise, Keeps-query, Keeps-bind, Keeps-or_raise, keeps_rules,
}
use crypto_brokerage.Session.Commits.{Commits, Keeps-Commits, Commits-bind, Commits-translating}
use crypto_brokerage.Security.{decode_token, create_access_token, create_refresh_token}
use crypto_brokerage.Repositories.Reads.{read_rules}
use crypto_brokerage.Repositories.Accounts
use crypto_brokerage.Repositories.BankAccounts
use crypto_brokerage.Repositories.Orders
use crypto_brokerage.Repositories.Positions
use crypto_brokerage.Repositories.Users
use crypto_brokerage.Services.Portfolio.{
  Prices, get_portfolio_summary, fetch_prices, summarise_all, cash_of, or_no_prices, guarded,
}
use crypto_brokerage.Services.Trading.{Trade, execute_trade}
use crypto_brokerage.Api.{user_id_of, get_current_user, authenticated, own_or_404}
use crypto_brokerage.Api.Schemas.Orders.{OrderCreate, order_read}
use crypto_brokerage.Api.Auth.{credentials, login}
use crypto_brokerage.Api.Accounts.{
  read_accounts, list_accounts, get_balance as account_balance, list_bank_accounts,
}
use crypto_brokerage.Api.Portfolio.{get_portfolio}
use crypto_brokerage.Api.Trading.{
  trade_of, order_problem, create_order, get_order, read_orders, page_bound, list_orders,
}

module _ {P : Db → Type 0} (env : Env) where
  user_id_of-Keeps : (c : Option Claim) → Keeps P (user_id_of env c)
  user_id_of-Keeps none = Keeps-raise _
  user_id_of-Keeps (some (text s)) = Keeps-or_raise _ _
  user_id_of-Keeps (some (time t)) = Keeps-raise _

  decode_token-Keeps : (token : String) → Keeps P (decode_token env token)
  unfolding decode_token
  decode_token-Keeps token = search keeps_rules

  pub get_current_user-Keeps : (header : Option String) → Keeps P (get_current_user env header)
  unfolding get_current_user
  get_current_user-Keeps header =
      search (keeps_rules, read_rules, user_id_of-Keeps, decode_token-Keeps) depth 12

  pub order_read-Keeps : (o : Order) → Keeps P (order_read env o)
  unfolding order_read
  order_read-Keeps o = search keeps_rules

  credentials-Keeps :
      (found : Option User) (password : String) → Keeps P (credentials env found password)
  credentials-Keeps none password = Keeps-raise _
  credentials-Keeps (some user) password = search keeps_rules

  tokens-Keeps : (s : String) → Keeps P (create_refresh_token env s)
  unfolding create_refresh_token
  tokens-Keeps s = search keeps_rules

  access-Keeps : (s : String) (d : Option ℤ) → Keeps P (create_access_token env s [] d)
  unfolding create_access_token
  access-Keeps s d = search keeps_rules

  get_by_email-Keeps : (s : String) → Keeps P (Users.get_by_email env s)
  unfolding Users.get_by_email
  get_by_email-Keeps s = Keeps-query _

  pub login-Keeps : (username password : String) → Keeps P (login env username password)
  unfolding login
  login-Keeps username password =
      search (keeps_rules, credentials-Keeps, tokens-Keeps, access-Keeps, get_by_email-Keeps) depth
        12

  own_or_404-Keeps :
      {A : Type 0} (owner : A → ℕ) (user : User) (found : Option A)
      → Keeps P (own_or_404 owner user found)
  own_or_404-Keeps owner user none = Keeps-raise _
  own_or_404-Keeps owner user (some row) = search keeps_rules

  get_balance-Keeps : (a : ℕ) → Keeps P (Accounts.get_balance a)
  unfolding Accounts.get_balance
  get_balance-Keeps a = Keeps-query _

  read_accounts-Keeps : (l : List Account) → Keeps P (read_accounts l)
  read_accounts-Keeps [] = Keeps-pure []
  read_accounts-Keeps (a ∷ l) =
      Keeps-bind _ _ (get_balance-Keeps a.id)
        λ b. Keeps-bind _ _ (read_accounts-Keeps l) λ rest. Keeps-pure _

  pub list_accounts-Keeps : (user : User) → Keeps P (list_accounts user)
  unfolding list_accounts Accounts.list_by_user
  list_accounts-Keeps user = Keeps-bind _ _ (Keeps-query _) read_accounts-Keeps

  pub account_balance-Keeps : (user : User) (i : ℕ) → Keeps P (account_balance user i)
  unfolding account_balance
  account_balance-Keeps user i =
      search (keeps_rules, read_rules, own_or_404-Keeps, get_balance-Keeps)

  pub list_bank_accounts-Keeps : (user : User) → Keeps P (list_bank_accounts user)
  unfolding list_bank_accounts BankAccounts.get_by_user
  list_bank_accounts-Keeps user = search keeps_rules

  or_no_prices-Keeps : (r : Result Prices) → Keeps P (or_no_prices r)
  or_no_prices-Keeps (ok prices) = Keeps-pure prices
  or_no_prices-Keeps (err e) = Keeps-pure []

  guarded-Keeps : (m : Exec Prices) → Keeps P m → Keeps P (guarded m)
  guarded-Keeps m k = record {
    after = λ w h. (or_no_prices-Keeps (m w).0).after (m w).1 (k.after w h);
  }

  fetch_prices-Keeps : (symbols : List String) → Keeps P (fetch_prices env symbols)
  fetch_prices-Keeps [] = Keeps-pure []
  fetch_prices-Keeps (s ∷ l) = guarded-Keeps _ (search keeps_rules)

  cash_of-Keeps : (found : Option Account) → Keeps P (cash_of found)
  cash_of-Keeps none = Keeps-pure _
  cash_of-Keeps (some a) = get_balance-Keeps a.id

  summarise_all-Keeps :
      (u : ℕ) (q : String) (ps : List Position) → Keeps P (summarise_all env u q ps)
  summarise_all-Keeps u q [] = Keeps-pure _
  summarise_all-Keeps u q (p ∷ ps) =
      search (keeps_rules, read_rules, fetch_prices-Keeps, cash_of-Keeps) depth 12

  pub get_portfolio-Keeps : (user : User) (q : String) → Keeps P (get_portfolio env user q)
  unfolding get_portfolio get_portfolio_summary Positions.get_by_user
  get_portfolio-Keeps user q = search (keeps_rules, summarise_all-Keeps)

  pub get_order-Keeps : (i : ℕ) (user : User) → Keeps P (get_order env i user)
  unfolding get_order
  get_order-Keeps i user = search (keeps_rules, read_rules, own_or_404-Keeps, order_read-Keeps)

  read_orders-Keeps : (l : List Order) → Keeps P (read_orders env l)
  read_orders-Keeps [] = Keeps-pure []
  read_orders-Keeps (o ∷ l) =
      Keeps-bind _ _ (order_read-Keeps o)
        λ b. Keeps-bind _ _ (read_orders-Keeps l) λ rest. Keeps-pure _

  page_bound-Keeps : (n : ℤ) → Keeps P (page_bound env n)
  page_bound-Keeps (pos n) = Keeps-pure n
  page_bound-Keeps (negsuc n) = Keeps-raise _

  get_by_user-Keeps : (u : ℕ) (l o : ℕ) → Keeps P (Orders.get_by_user env u none l o)
  unfolding Orders.get_by_user
  get_by_user-Keeps u l o = Keeps-query _

  pub list_orders-Keeps : (l o : ℤ) (user : User) → Keeps P (list_orders env l o user)
  unfolding list_orders
  list_orders-Keeps l o user =
      search (keeps_rules, page_bound-Keeps, get_by_user-Keeps, read_orders-Keeps)

  -- A route that needs a user keeps what its handler keeps, for each user.
  pub authenticated-Keeps :
      {A : Type 0} (header : Option String) (handler : User → Exec A)
      → ((user : User) → Keeps P (handler user))
      → Keeps P (authenticated env header handler)
  authenticated-Keeps header handler k = Keeps-bind _ _ (get_current_user-Keeps header) k

  pub authenticated-Commits :
      {A : Type 0} (header : Option String) (handler : User → Exec A)
      → ((user : User) → Commits P (handler user))
      → Commits P (authenticated env header handler)
  authenticated-Commits header handler k =
      Commits-bind _ _ (Keeps-Commits _ (get_current_user-Keeps header)) k

  pub create_order-Commits :
      ((t : Trade) → Commits P (execute_trade env t))
      → (p : OrderCreate) (user : User) → Commits P (create_order env p user)
  unfolding create_order
  create_order-Commits traded p user =
      Commits-translating _ order_problem
        (Commits-bind _ _ (traded (trade_of user p)) (λ o. Keeps-Commits _ (order_read-Keeps o)))
