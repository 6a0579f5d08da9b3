-- ===== src/Services/Trading/Fills.antt =====
-- Step 7 of `execute_trade`: what recording a fill comes to.
use crypto_brokerage.Base.{
  ◌≡◌, refl, ap, ◌⊎◌, inl, inr, ℕ, Option-cases, if◌then◌else◌, Bool-cases, String, List, [], ◌∷◌,
}
use crypto_brokerage.Models.{Account, Order, Transaction, OrderSide, buy, sell}
use crypto_brokerage.Errors.{
  Error, Result, err, ledger_imbalance, integrity, data_error, decimal_error,
}
use crypto_brokerage.Gateways.{FillEvent}
use crypto_brokerage.Env.{Env, checked}
use crypto_brokerage.Session.{World, Exec, ◌>>◌}
use crypto_brokerage.Session.Outcome.{Returns, Raises, bind-Returns, Result-cases}
use crypto_brokerage.Repository.{add}
use crypto_brokerage.Repository.Writes.{add_err, add-calls}
use crypto_brokerage.Tables.{trade_executions}
use crypto_brokerage.Decimal
use crypto_brokerage.Repositories.Ledger.{create_double_entry}
use crypto_brokerage.Repositories.Orders
use crypto_brokerage.Repositories.Positions.{upsert_position}
use crypto_brokerage.Repositories.Ledger.Entries.{create_double_entry_self}
use crypto_brokerage.Services.Trading.{
  is_buy, fill_value, movement, execution_row, process_fill, process_fills, contains,
}

-- The errors that recording a fill can end with: the ledger's refusal, the database's refusal of the
-- execution, an overflow of its value, or a time that is out of range.
abbrev pub IsRefusal : Env → Error → Type 0
IsRefusal env e =
    (e ≡ ledger_imbalance)
    ⊎ ((e ≡ integrity) ⊎ (e ≡ data_error))
    ⊎ (e ≡ decimal_error)
    ⊎ ((t : ℕ) × (env.fromtimestamp t ≡ err e))

module _ (env : Env) where
  movement_self :
      (side : OrderSide) (f : FillEvent) (a : Account) (q : String) (x : Transaction)
      → (movement env side f a q x).debit_account_id ≡ (movement env side f a q x).credit_account_id
  movement_self buy f a q x = refl
  movement_self sell f a q x = refl

  -- From the row of the execution on.
  abbrev recorded : Order → FillEvent → Account → String → Transaction → ℕ → Exec Order
  recorded o f a q x t = do
    add trade_executions env (execution_row env o f t)
    create_double_entry env (movement env o.side f a q x)
    upsert_position env o.user_id o.asset_id
        (if is_buy o.side then f.amount else Decimal.neg f.amount) f.price
    Orders.apply_fill env o f.amount

  recorded_refused :
      (o : Order) (f : FillEvent) (a : Account) (q : String) (x : Transaction) (t : ℕ) (w : World)
      → (e : Error) × Raises (recorded o f a q x t) w e
        × IsRefusal env e
        × ((recorded o f a q x t w).1.calls ≡ w.calls)
  recorded_refused o f a q x t w =
      let row = add trade_executions env (execution_row env o f t) in
      let silent = add-calls trade_executions env (execution_row env o f t) w in
      elim (Result-cases (row w).0) [
        | inl (r, stored) ↦
            let m = movement env o.side f a q x in
            let posted = create_double_entry_self env m (row w).1 (movement_self o.side f a q x) in
            (ledger_imbalance, rw (stored, posted), inl refl, rw (stored, posted) silent)
        | inr (e, refused) ↦ (
          e,
          rw refused,
          inr (inl (add_err trade_executions env _ w e refused)),
          rw refused silent,
        )
      ]

  fill_refused :
      (o : Order) (f : FillEvent) (a : Account) (q : String) (x : Transaction) (w : World)
      → (e : Error) × Raises (process_fill env o f a q x) w e
        × IsRefusal env e
        × ((process_fill env o f a q x w).1.calls ≡ w.calls)
  unfolding process_fill
  fill_refused o f a q x w = elim (Option-cases (checked env (fill_value env f))) [
    | inl over ↦ (decimal_error, rw over refl, inr (inr (inl refl)), rw over refl)
    | inr (d, e) ↦ elim (Result-cases (env.fromtimestamp f.timestamp)) [
      | inr (x1, late) ↦
          (x1, rw e (rw late refl), inr (inr (inr (f.timestamp, late))), rw e (rw late refl))
      | inl (t, k) ↦
          let (x1, raised, kind, silent) = recorded_refused o f a q x t w in
          (x1, rw e (rw k raised), kind, rw e (rw k silent))
    ]
  ]

  pub process_fill_refused :
      (o : Order) (f : FillEvent) (a : Account) (q : String) (x : Transaction) (w : World)
      → (e : Error) × Raises (process_fill env o f a q x) w e × IsRefusal env e
  process_fill_refused o f a q x w =
      let (e, raised, kind, _) = fill_refused o f a q x w in (e, raised, kind)

  -- Step 7 returns only with the order and the world as they were.
  pub process_fills-Returns :
      (seen : List String) (a : Account) (q : String) (x : Transaction) (fs : List FillEvent)
      (o : Order) (w : World) (o' : Order) (w' : World)
      → Returns (process_fills env seen a q x fs o) w o' w'
      → ◌≡◌ {A = Order × World} (o, w) (o', w')
  unfolding process_fills
  process_fills-Returns seen a q x [] o w o' w' h = cc h
  process_fills-Returns seen a q x (f ∷ fs) o w o' w' h =
      elim (Bool-cases (contains seen f.fill_id)) [
        | inl old ↦ process_fills-Returns seen a q x fs o w o' w' (rw (old, process_fills) at h)
        | inr new ↦
            let (e, refused, _) = process_fill_refused o f a q x w in
            let (o1, first, _) =
              bind-Returns (process_fill env o f a q x)
                (process_fills env (f.fill_id ∷ seen) a q x fs) w o' w'
                (rw (new, process_fills) at h) in
            absurd (cc (refused, ap (λ (p : Result Order × World). p.0) first))
      ]

  -- With a fill in the list, the first of which is always new, step 7 raises.
  pub process_fills_refused :
      (a : Account) (q : String) (x : Transaction) (f : FillEvent) (fs : List FillEvent) (o : Order)
      (w : World)
      → (e : Error) × Raises (process_fills env [] a q x (f ∷ fs) o) w e × IsRefusal env e
  unfolding process_fills
  process_fills_refused a q x f fs o w =
      let (e, refused, kind) = process_fill_refused o f a q x w in (e, rw refused, kind)

  -- A fill calls no gateway.
  process_fill-calls :
      (o : Order) (f : FillEvent) (a : Account) (q : String) (x : Transaction) (w : World)
      → (process_fill env o f a q x w).1.calls ≡ w.calls
  process_fill-calls o f a q x w = let (_, _, _, silent) = fill_refused o f a q x w in silent

  pub process_fills-calls :
      (a : Account) (q : String) (x : Transaction) (f : FillEvent) (fs : List FillEvent) (o : Order)
      (w : World)
      → (process_fills env [] a q x (f ∷ fs) o w).1.calls ≡ w.calls
  unfolding process_fills
  process_fills-calls a q x f fs o w =
      let (e, refused, kind) = process_fill_refused o f a q x w in
      rw refused (process_fill-calls o f a q x w)
