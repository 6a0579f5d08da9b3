-- ===== src/Services/Trading/Retried.antt =====
-- The idempotency key after a trade.
use crypto_brokerage.Base.{
  ◌≡◌, ap, ◌∙◌, inl, inr, true, some, [], ◌∷◌, find, find-append_none, str_eq, eq_iff,
}
use crypto_brokerage.Models.{Order}
use crypto_brokerage.Env.{Env}
use crypto_brokerage.Session.{World}
use crypto_brokerage.Session.Outcome.{Returns}
use crypto_brokerage.Services.Trading.{Trade, execute_trade}
use crypto_brokerage.Services.Trading.Placed.{known, execute_trade-Returns}

-- The key of a trade that has returned names its order.
pub known-execute_trade :
    (env : Env) (t : Trade) (w : World) (o : Order) (w' : World)
    → Returns (execute_trade env t) w o w'
    → known t.idempotency_key w'.db ≡ some o
known-execute_trade env t w o w' h = elim (execute_trade-Returns env t w o w' h) [
  | inl (found, same_world) ↦ ap (λ (x : World). known t.idempotency_key x.db) same_world ∙ found
  | inr (unknown, placed) ↦
      let own : str_eq o.idempotency_key t.idempotency_key ≡ true =
        (eq_iff o.idempotency_key t.idempotency_key).1 (placed.new.keyed) in
      let alone : find (λ (x : Order). str_eq x.idempotency_key t.idempotency_key) (o ∷ [])
          ≡ some o =
        rw own in
      ap (find (λ (x : Order). str_eq x.idempotency_key t.idempotency_key)) (placed.appended)
      ∙ find-append_none (λ (x : Order). str_eq x.idempotency_key t.idempotency_key) w.db.orders
          (o ∷ []) unknown
      ∙ alone
]
