-- ===== src/Api/Owned.antt =====
-- Whose data the routes give out.
use crypto_brokerage.Base.{
  ℕ, ◌≡◌, sym, ap, ◌∙◌, inl, inr, true, Bool-cases, Option, none, some, String, find, find-passes,
  ◌==◌, ==_iff,
}
use crypto_brokerage.Models.{User, Account, Order}
use crypto_brokerage.Errors.{ok, err, http_exception}
use crypto_brokerage.Env.{Env}
use crypto_brokerage.Session.{World, Exec, ◌>>=◌, pure, request}
use crypto_brokerage.Session.Outcome.{Returns, bind-Returns, pure-Returns, Result-cases}
use crypto_brokerage.Repository.{get_by_id, Entity}
use crypto_brokerage.Tables
use crypto_brokerage.Repositories.Accounts
use crypto_brokerage.Repositories.Accounts.{balance_of}
use crypto_brokerage.Api.{Response, respond, authenticated, own_or_404, get_current_user}
use crypto_brokerage.Api.Current.{IsCurrent, get_current_user-Returns}
use crypto_brokerage.Api.Schemas.Accounts.{AccountRead, account_read}
use crypto_brokerage.Api.Schemas.Orders.{OrderRead, executions_of, order_row_read, order_read}
use crypto_brokerage.Api.Accounts.{own_account, get_balance, get_account_balance}
use crypto_brokerage.Api.Trading.{own_order, get_order, get_order_route}

-- A body comes from a handler that has returned it.
pub respond-Returns :
    {A : Type 0} (code code' : ℕ) (m : Exec A) (w : World) (body : A)
    → (respond code m w).0 ≡ Response.reply code' body
    → Returns m w body (respond code m w).1
unfolding respond request
respond-Returns code code' m w body h = elim (Result-cases (m w).0) [
  | inl (a, e) ↦
      let sent = rw e at h in let own : a ≡ body = cc sent in rw e (λ i. (ok (own i), (m w).1))
  | inr (x, e) ↦ let bad = rw e at h in absurd (cc bad)
]

-- An authenticated route that returns has found its user, and its handler returns.
pub authenticated-Returns :
    {A : Type 0} (env : Env) (header : Option String) (handler : User → Exec A) (w : World) (a : A)
    (w' : World)
    → Returns (authenticated env header handler) w a w'
    → (user : User) × IsCurrent env header w user × Returns (handler user) w a w'
authenticated-Returns env header handler w a w' h =
    let (user, first, rest) = bind-Returns (get_current_user env header) handler w a w' h in
    let (current, same) = get_current_user-Returns env header w user _ first in
    (user, current, ap (λ x. handler user x) same ∙ rest)

module _ {A : Type 0} (owner : A → ℕ) (user : User) where
  own_or_404-Returns :
      (found : Option A) (w : World) (a : A) (w' : World)
      → Returns (own_or_404 owner user found) w a w'
      → (found ≡ some a) × (owner a ≡ user.id) × (w ≡ w')
  own_or_404-Returns none w a w' h = absurd (cc h)
  own_or_404-Returns (some b) w a w' h = elim (Bool-cases (owner b == user.id)) [
    | inl own ↦
        let pass : own_or_404 owner user (some b) w ≡ (ok b, w) = rw own in
        let (is_a, same) = pure-Returns b a w w' (sym pass ∙ h) in
        (ap some is_a, ap owner (sym is_a) ∙ (==_iff (owner b) user.id).0 own, same)
    | inr other ↦
        let stop : own_or_404 owner user (some b) w ≡ (err (http_exception 404), w) = rw other in
        absurd (cc (sym stop ∙ h))
  ]

  -- The row under a key, if it is the user's.
  fetched-Returns :
      (e : Entity A) (i : ℕ) (w : World) (a : A) (w' : World)
      → Returns (get_by_id e i >>= own_or_404 owner user) w a w'
      → (e.key a ≡ i) × (owner a ≡ user.id) × (w ≡ w')
  unfolding get_by_id
  fetched-Returns e i w a w' h =
      let (found, own, same) =
        own_or_404-Returns (find (λ r. e.key r == i) (e.rows w.db)) w a w' h in
      ((==_iff (e.key a) i).0 (find-passes (λ r. e.key r == i) (e.rows w.db) found), own, same)

get_balance-Returns :
    (user : User) (i : ℕ) (w : World) (body : AccountRead) (w' : World)
    → Returns (get_balance user i) w body w'
    → (body.id ≡ i) × (body.user_id ≡ user.id) × (body.balance ≡ balance_of i w.db) × (w ≡ w')
unfolding get_balance Accounts.get_balance
get_balance-Returns user i w body w' h =
    let (a, first, rest) =
      bind-Returns (get_by_id Tables.accounts i >>= own_account user)
        (λ (a : Account). Accounts.get_balance a.id >>= λ balance. pure (account_read a balance)) w
        body w' h in
    let (keyed, own, same) =
      fetched-Returns (λ (a : Account). a.user_id) user Tables.accounts i w a _ first in
    let (shown, ended) = pure-Returns {A = AccountRead} _ body _ w' rest in
    (
      ap (λ (b : AccountRead). b.id) (sym shown) ∙ keyed,
      ap (λ (b : AccountRead). b.user_id) (sym shown) ∙ own,
      ap (λ (b : AccountRead). b.balance) (sym shown) ∙ cc,
      same ∙ ended,
    )

module _ (env : Env) where
  order_read-Returns :
      (o : Order) (w : World) (body : OrderRead) (w' : World)
      → Returns (order_read env o) w body w'
      → (env.lazy_loads ≡ true) × (order_row_read env o (executions_of o w.db) ≡ body) × (w ≡ w')
  unfolding order_read
  order_read-Returns o w body w' h = elim (Bool-cases env.lazy_loads) [
    | inl loads ↦
        let (shown, same) = pure-Returns _ body w w' (rw loads at h) in (loads, shown, same)
    | inr fails ↦ let bad = rw fails at h in absurd (cc bad)
  ]

  -- GET /accounts/{account_id}/balance sends the balance of the account only to its user, known by
  -- the token, and writes nothing.
  pub get_account_balance_owned :
      (header : Option String) (i : ℕ) (w : World) (body : AccountRead)
      → (get_account_balance env header i w).0 ≡ Response.reply 200 body
      → (user : User) × IsCurrent env header w user
        × (body.id ≡ i)
        × (body.user_id ≡ user.id)
        × (body.balance ≡ balance_of i w.db)
        × ((get_account_balance env header i w).1 ≡ w)
  get_account_balance_owned header i w body h =
      let handler : User → Exec AccountRead = λ user. get_balance user i in
      let done = respond-Returns 200 200 (authenticated env header handler) w body h in
      let (user, current, rest) = authenticated-Returns env header handler w body _ done in
      let (keyed, own, balance, same) = get_balance-Returns user i w body _ rest in
      (user, current, keyed, own, balance, sym same)

  -- GET /orders/{order_id} sends an order only to its user, known by the token, and writes nothing.
  pub get_order_owned :
      (header : Option String) (i : ℕ) (w : World) (body : OrderRead)
      → (get_order_route env header i w).0 ≡ Response.reply 200 body
      → (user : User) × IsCurrent env header w user
        × (body.id ≡ i)
        × (body.user_id ≡ user.id)
        × ((get_order_route env header i w).1 ≡ w)
  unfolding get_order
  get_order_owned header i w body h =
      let done = respond-Returns 200 200 (authenticated env header (get_order env i)) w body h in
      let (user, current, rest) =
        authenticated-Returns env header (get_order env i) w body _ done in
      let (o, first, read) =
        bind-Returns (get_by_id Tables.orders i >>= own_order user) (order_read env) w body _
          rest in
      let (keyed, own, same) =
        fetched-Returns (λ (o : Order). o.user_id) user Tables.orders i w o _ first in
      let (_, shown, ended) = order_read-Returns o _ body _ read in
      (
        user,
        current,
        ap (λ (b : OrderRead). b.id) (sym shown) ∙ keyed,
        ap (λ (b : OrderRead). b.user_id) (sym shown) ∙ own,
        sym (same ∙ ended),
      )
