-- ===== src/Requests/Once.antt =====
-- An idempotency key is used at most once, over any sequence of requests.
use crypto_brokerage.Base.{
  ◌≡◌, ap, ◌∙◌, inl, inr, some, String, List, [], ◌∷◌, find, find-append_some, str_eq,
}
use crypto_brokerage.Models.{Order}
use crypto_brokerage.Env.{Env}
use crypto_brokerage.Session.{Db, World}
use crypto_brokerage.Session.Commits.{Commits}
use crypto_brokerage.Session.Outcome.{Returns}
use crypto_brokerage.Repositories.Orders
use crypto_brokerage.Services.Aside.{Spared}
use crypto_brokerage.Services.Trading.{Trade, execute_trade}
use crypto_brokerage.Services.Trading.Placed.{known, execute_trade-Returns}
use crypto_brokerage.Services.Trading.Retried.{known-execute_trade}
use crypto_brokerage.Requests.{Request, serve_all}
use crypto_brokerage.Requests.Aside.{serve_all_keeps}

-- The order that the key names.
abbrev Names : String → Order → Db → Type 0
Names key o db = known key db ≡ some o

Names-Spared : (key : String) (o : Order) → Spared (Names key o)
Names-Spared key o = record {
  enrolling = record {
    users = λ rs db h. h;
    user_profiles = λ rs db h. h;
    accounts = λ rs db h. h;
    bank_accounts = λ rs db h. h;
  };
  transactions = λ rs db h. h;
}

execute_trade-Names :
    (env : Env) (key : String) (o : Order) (t : Trade) → Commits (Names key o) (execute_trade env t)
execute_trade-Names env key o t = record {
  on_return = λ w o' w' r h. elim (execute_trade-Returns env t w o' w' r) [
    | inl (_, same_world) ↦ ap (λ (x : World). known key x.db) same_world ∙ h
    | inr (_, placed) ↦
        ap (find (λ (x : Order). str_eq x.idempotency_key key)) placed.appended
        ∙ find-append_some (λ (x : Order). str_eq x.idempotency_key key) w.db.orders (o' ∷ []) h
  ];
}

-- A trade is placed at most once: when `execute_trade` has returned an order, then after any further
-- requests a trade with its idempotency key returns the same order, unchanged, calls no gateway and
-- writes nothing.
pub execute_trade_once :
    (env : Env) (t t' : Trade) (rs : List Request) (w : World) (o : Order) (w' : World)
    → Returns (execute_trade env t) w o w'
    → t'.idempotency_key ≡ t.idempotency_key
    → Returns (execute_trade env t') (serve_all env rs w') o (serve_all env rs w')
unfolding execute_trade Orders.get_by_idempotency_key
execute_trade_once env t t' rs w o w' h k =
    let kept =
      serve_all_keeps env (Names t.idempotency_key o) (Names-Spared t.idempotency_key o)
        (execute_trade-Names env t.idempotency_key o) rs w' (known-execute_trade env t w o w' h) in
    let found : known t'.idempotency_key (serve_all env rs w').db ≡ some o =
      ap (λ s. known s (serve_all env rs w').db) k ∙ kept in
    rw found
