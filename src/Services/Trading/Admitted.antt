-- ===== src/Services/Trading/Admitted.antt =====
-- Steps 2 to 4 of `execute_trade`: which trades go on.
use crypto_brokerage.Base.{
  ◌≡◌, refl, sym, ap, subst, ◌∙◌, inl, inr, Bool, true, false, ◌&&◌, Bool-cases, Option, none, some,
  find, ◌==◌, str_eq, is_none, Option-cases,
}
use crypto_brokerage.Decimal
use crypto_brokerage.Decimal.{Decimal, nought}
use crypto_brokerage.Models.{Account, buy}
use crypto_brokerage.Session.{Db, World}
use crypto_brokerage.Session.Outcome.{Returns, pure-Returns}
use crypto_brokerage.Repository.{get_by_id}
use crypto_brokerage.Repository.Found.{find-own}
use crypto_brokerage.Tables
use crypto_brokerage.Tables.Consistent.{IsConsistent}
use crypto_brokerage.Repositories.Accounts.{
  balance_of, get_balance, get_balance_for_update, get_by_user_and_currency,
}
use crypto_brokerage.Services.Trading.{
  Trade, is_limit, estimated_cost, is_short, admit, place, execute_trade,
}
use crypto_brokerage.Repositories.Orders
use crypto_brokerage.Errors.{err, insufficient_funds}
use crypto_brokerage.Env.{Env}
use crypto_brokerage.Base.Int.{magnitude}

and_not_none : (b : Bool) → (b && false) ≡ false
and_not_none true = refl
and_not_none false = refl

-- The account of the user in the quote currency.
abbrev pub paying : Trade → Db → Option Account
paying t db = find (λ a. a.user_id == t.user_id && str_eq a.currency t.quote_currency) db.accounts

-- The cost of an amount at a price.
abbrev pub cost : Trade → Decimal → Decimal
cost t price = Decimal.mul t.amount price

-- What was checked.
pub record IsAdmitted (env : Env) (t : Trade) (w : World) (a : Account) (w' : World) : Type 0 where
  pub positive : Decimal.le t.amount nought ≡ false
  pub priced : (is_limit t.order_type && is_none t.price) ≡ false
  pub account : paying t w.db ≡ some a
  pub small : env.overflows (estimated_cost t) ≡ false
  pub funded : is_short t (balance_of a.id w.db) ≡ false
  pub unchanged : w' ≡ w

module _ (env : Env) (t : Trade) (w : World) (a : Account) where
  -- What holds of a trade that goes on to the exchange.
  pub admit-Returns :
      (w' : World) → IsConsistent w.db → Returns (admit env t) w a w' → IsAdmitted env t w a w'
  unfolding admit get_by_user_and_currency get_balance_for_update get_balance get_by_id
  admit-Returns w' c h = elim (Bool-cases (Decimal.le t.amount nought)) [
    | inl small ↦ let bad = rw small at h in absurd (cc bad)
    | inr large ↦
        let h1 = rw large at h in
        elim (Bool-cases (is_limit t.order_type && is_none t.price)) [
          | inl unpriced ↦ let bad = rw unpriced at h1 in absurd (cc bad)
          | inr priced ↦
              let h2 = rw priced at h1 in
              elim (Option-cases (paying t w.db)) [
                | inl closed ↦ let bad = rw closed at h2 in absurd (cc bad)
                | inr (b, e) ↦
                    let h3 = rw e at h2 in
                    let found : find (λ (x : Account). x.id == b.id) w.db.accounts ≡ some b =
                      find-own Tables.accounts
                        (λ x. x.user_id == t.user_id && str_eq x.currency t.quote_currency)
                        w.db.accounts b c.distinct_accounts e in
                    let h4 = rw found at h3 in
                    elim (Bool-cases (env.overflows (estimated_cost t))) [
                      | inl over ↦ let bad = rw over at h4 in absurd (cc bad)
                      | inr fits ↦
                          let h5 = rw fits at h4 in
                          elim (Bool-cases (is_short t (balance_of b.id w.db))) [
                            | inl short ↦ let bad = rw short at h5 in absurd (cc bad)
                            | inr covered ↦
                                let (own, stayed) = pure-Returns b a w w' (rw covered at h5) in
                                record {
                                  positive = large;
                                  priced = priced;
                                  account = e ∙ ap some own;
                                  small = fits;
                                  funded =
                                      subst
                                        (λ (x : Account). is_short t (balance_of x.id w.db) ≡ false)
                                        own covered;
                                  unchanged = sym stayed;
                                }
                          ]
                    ]
              ]
        ]
  ]

  -- The checks pass for such a trade.
  pub admit-passes :
      Decimal.le t.amount nought ≡ false
      → (is_limit t.order_type && is_none t.price) ≡ false
      → paying t w.db ≡ some a
      → find (λ (x : Account). x.id == a.id) w.db.accounts ≡ some a
      → env.overflows (estimated_cost t) ≡ false
      → is_short t (balance_of a.id w.db) ≡ false
      → Returns (admit env t) w a w
  unfolding admit get_by_user_and_currency get_balance_for_update get_balance get_by_id
  admit-passes positive priced account locked fits funded =
      rw (positive, priced) (rw account (rw locked (rw fits (rw funded refl))))

  -- In tables that keep their constraints, a trade with a new key that buys a positive amount at a
  -- price that is not zero, whose cost is above zero, does not overflow and is more than the ledger
  -- entries leave on the user's account in the quote currency, is refused with
  -- `InsufficientFundsError`, which tells that balance and that cost: nothing is written and the
  -- exchange is not called.
  pub execute_trade_short :
      (price : Decimal)
      → IsConsistent w.db
      → find (λ o. str_eq o.idempotency_key t.idempotency_key) w.db.orders ≡ none
      → Decimal.le t.amount nought ≡ false
      → t.side ≡ buy
      → t.price ≡ some price
      → (magnitude price.coefficient == 0) ≡ false
      → paying t w.db ≡ some a
      → env.overflows (cost t price) ≡ false
      → Decimal.lt nought (cost t price) ≡ true
      → Decimal.lt (balance_of a.id w.db) (cost t price) ≡ true
      → execute_trade env t w
        ≡ (err (insufficient_funds (balance_of a.id w.db) (cost t price) t.quote_currency), w)
  unfolding execute_trade place admit Orders.get_by_idempotency_key get_by_user_and_currency
      get_balance_for_update get_balance get_by_id
  execute_trade_short price c new positive buys at nonzero account fits above short =
      let found : find (λ (x : Account). x.id == a.id) w.db.accounts ≡ some a =
        find-own Tables.accounts (λ x. x.user_id == t.user_id && str_eq x.currency t.quote_currency)
          w.db.accounts a c.distinct_accounts account in
      rw new (
        rw (positive, at)
          (rw (and_not_none (is_limit t.order_type))
            (rw account (rw found (rw (nonzero, fits, buys) (rw (above, short) refl))))))
