-- ===== src/Services/Trading/Raced.antt =====
-- Two sessions with one idempotency key: between the look-up of step 1 and the insert of step 5 another
-- session may commit an order with the key.
use crypto_brokerage.Base.{ℕ, ◌+◌, ◌≡◌, refl, ap, sym, ◌∙◌, inl, inr, some, str_eq, eq_iff}
use crypto_brokerage.Models.{Order}
use crypto_brokerage.Errors.{Error, Result, ok, err}
use crypto_brokerage.Env.{Env}
use crypto_brokerage.Session.{World, request}
use crypto_brokerage.Session.Quiet.{Quiet, quiet_rules}
use crypto_brokerage.Session.Outcome.{Raises, Result-cases, request_err}
use crypto_brokerage.Repository.{add, get_by_id}
use crypto_brokerage.Repository.Admitted.{add-clash}
use crypto_brokerage.Tables
use crypto_brokerage.Repositories.Accounts.{get_by_user_and_currency, get_balance_for_update}
use crypto_brokerage.Services.Trading.{Trade, new_order, admit, open_order, place}
use crypto_brokerage.Services.Trading.Opened.{new_order-IsNew}
use crypto_brokerage.Services.Trading.Placed.{known}

get_balance_for_update-Quiet : (a : ℕ) → Quiet (get_balance_for_update a)
unfolding get_balance_for_update get_by_id
get_balance_for_update-Quiet a = search quiet_rules

-- The checks of steps 2 to 4 only look.
pub admit-Quiet : (env : Env) (t : Trade) → Quiet (admit env t)
unfolding admit get_by_user_and_currency
admit-Quiet env t = search (quiet_rules, get_balance_for_update-Quiet) depth 9

module _ (env : Env) (t : Trade) (w : World) (o : Order)
    (taken : known t.idempotency_key w.db ≡ some o) where
  order_refused :
      (e : Error) × (add Tables.orders env (new_order env t) w
        ≡ (err e, record w { draws = w.draws + 1 }))
  order_refused =
      add-clash Tables.orders env (new_order env t) w
        (λ x. str_eq x.idempotency_key t.idempotency_key) o taken
        λ r x made h.
          let keyed = (new_order-IsNew env t (env.uuid4 w.draws) r made).0.keyed in
          let own = (eq_iff x.idempotency_key t.idempotency_key).0 h in
          (eq_iff r.idempotency_key x.idempotency_key).1 (keyed ∙ sym own)

  place_refused : (e : Error) × (w' : World) × (place env t w ≡ (err e, w')) × (w'.calls ≡ w.calls)
  unfolding place open_order
  place_refused =
      let (e, refused) = order_refused in
      let looked = (admit-Quiet env t).same w in
      elim (Result-cases (admit env t w).0) [
        | inl (a, h) ↦
            let admitted : admit env t w ≡ (ok a, w) = λ i. (h i, looked i) in
            (e, record w { draws = w.draws + 1 }, rw admitted (rw refused), refl)
        | inr (x, h) ↦
            let stopped : admit env t w ≡ (err x, w) = λ i. (h i, looked i) in
            (x, w, rw stopped, refl)
      ]

  -- The UNIQUE constraint is the last line of defence: when another session has committed an order
  -- with the idempotency key after the look-up of step 1, the rest of the trade raises before the
  -- exchange is called, and the tables stay as the other session left them.
  pub place_raced :
      (e : Error) × Raises (request (place env t)) w e
      × ((request (place env t) w).1.db ≡ w.db)
      × ((request (place env t) w).1.calls ≡ w.calls)
  place_raced =
      let (e, w', raised, quiet) = place_refused in
      let done = request_err (place env t) w w' e raised in
      (
        e,
        ap (λ (p : Result Order × World). p.0) done,
        ap (λ (p : Result Order × World). p.1.db) done,
        ap (λ (p : Result Order × World). p.1.calls) done ∙ quiet,
      )
