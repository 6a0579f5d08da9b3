-- ===== src/Services/Trading/Finalised.antt =====
-- Step 8 of `execute_trade`: how it leaves the order that was opened.
use crypto_brokerage.Base.{
  ◌≡◌, refl, sym, ap, ◌∙◌, ◌⊎◌, inl, inr, true, not, ◌||◌, Bool-cases, Option, none, some, String,
  List, [], ◌∷◌, ◌++◌, find, all, str_eq, ◌==◌, if◌then◌else◌,
}
use mathlib.Core.Option.{some-injective}
use crypto_brokerage.Models.{Order, OrderStatus, Transaction, TransactionStatus}
use crypto_brokerage.Errors.{Result}
use crypto_brokerage.Session.{Db, World, ◌>>◌, pure}
use crypto_brokerage.Session.Keeps.{Keeps}
use crypto_brokerage.Session.Commits.{Keeps-Commits}
use crypto_brokerage.Session.Outcome.{Returns, bind-Returns}
use crypto_brokerage.Repository.{same, replace}
use crypto_brokerage.Repository.Writes.{update-Returns, update_spares}
use crypto_brokerage.Repository.Inserted.{find-inserted, replace-inserted}
use crypto_brokerage.Tables
use crypto_brokerage.Repositories.Orders
use crypto_brokerage.Repositories.Transactions
use crypto_brokerage.Services.Trading.{finalise, is_filled}

-- The order is the row that was added last, and no other row has its key.
abbrev pub IsLast : Order → List Order → Db → Type 0
IsLast o rows db =
    (db.orders ≡ rows ++ (o ∷ [])) × (all (λ s. not (same Tables.orders o s)) rows ≡ true)

module _ (o : Order) (rows : List Order) where
  -- The status of the order that was added last is changed in its place.
  order_status-Returns :
      (s : OrderStatus) (w : World) (o' : Order) (w' : World)
      → IsLast o rows w.db
      → Returns (Orders.update_status o s) w o' w'
      → (o' ≡ record o { status = s }) × (w'.db.orders ≡ rows ++ (o' ∷ []))
  unfolding Orders.update_status
  order_status-Returns s w o' w' (at, fresh) h =
      let (found, here, changed, left) =
        update-Returns Tables.orders o.id (λ x. some (record x { status = s })) w o' w' h in
      let own : found ≡ o = some-injective _ _ (
        sym here
        ∙ ap (find (λ (x : Order). Tables.orders.key x == o.id)) at
        ∙ find-inserted Tables.orders rows o fresh) in
      (
        some-injective _ _ (sym changed) ∙ ap (λ (x : Order). record x { status = s }) own,
        ap (λ (x : World). x.db.orders) left
            ∙ ap (replace Tables.orders o.id o') at
            ∙ replace-inserted Tables.orders rows o o' fresh,
      )

  orders_stay :
      (x : Transaction) (s : TransactionStatus) (ref : Option String) (before : List Order)
      → Keeps (λ db. db.orders ≡ before) (Transactions.update_status x s ref)
  unfolding Transactions.update_status
  orders_stay x s ref before =
      update_spares Tables.transactions (λ db. db.orders ≡ before) (λ rs db h. h) x.id _

  -- The transaction's status is written after that, and the order is handed back.
  transaction_then_order :
      (x : Transaction) (s : TransactionStatus) (o1 : Order) (w : World) (o' : Order) (w' : World)
      → Returns (Transactions.update_status x s none >> pure o1) w o' w'
      → (o' ≡ o1) × (w'.db.orders ≡ w.db.orders)
  transaction_then_order x s o1 w o' w' h =
      let (x1, first, rest) =
        bind-Returns (Transactions.update_status x s none) (λ _. pure o1) w o' w' h in
      let kept = (Keeps-Commits _ (orders_stay x s none w.db.orders)).on_return w x1 _ first refl in
      (sym (cc rest), ap (λ (p : Result Order × World). p.1.db.orders) (sym rest) ∙ kept)

  -- How step 8 leaves the order.
  abbrev pub IsFinal : Order → Db → Type 0
  IsFinal o' db =
      ((o' ≡ o) ⊎ (o' ≡ record o { status = OrderStatus.failed })) × (db.orders ≡ rows ++ (o' ∷ []))

  pub finalise-Returns :
      (status : String) (x : Transaction) (w : World) (o' : Order) (w' : World)
      → IsLast o rows w.db
      → Returns (finalise status x o) w o' w'
      → IsFinal o' w'.db
  unfolding finalise
  finalise-Returns status x w o' w' last h = elim (Bool-cases (str_eq status "REJECTED")) [
    | inl rejected ↦
        let (o1, first, rest) =
          bind-Returns (Orders.update_status o OrderStatus.failed)
            (λ f. Transactions.update_status x TransactionStatus.failed none >> pure f) w o' w'
            (rw rejected at h) in
        let (marked, at) = order_status-Returns OrderStatus.failed w o1 _ last first in
        let (same_order, kept) =
          transaction_then_order x TransactionStatus.failed o1 _ o' w' rest in
        let moved : w'.db.orders ≡ rows ++ (o' ∷ []) =
          kept ∙ at ∙ ap (λ (z : Order). rows ++ (z ∷ [])) (sym same_order) in
        (inr (same_order ∙ marked), moved)
    | inr other ↦ elim (Bool-cases (str_eq status "FILLED" || str_eq status "PARTIALLY_FILLED")) [
      | inl filled ↦
          let (same_order, kept) =
            transaction_then_order x
              (if is_filled o.status
                then TransactionStatus.completed
                else TransactionStatus.processing)
              o w o' w' (rw (other, filled) at h) in
          (inl same_order, kept ∙ last.0 ∙ ap (λ (z : Order). rows ++ (z ∷ [])) (sym same_order))
      | inr unknown ↦
          let done = rw (other, unknown) at h in
          let same_order : o' ≡ o = cc done in
          (
            inl same_order,
            ap (λ (p : Result Order × World). p.1.db.orders) (sym done)
                ∙ last.0
                ∙ ap (λ (z : Order). rows ++ (z ∷ [])) (sym same_order),
          )
    ]
  ]
