-- ===== src/Services/Trading/Placed.antt =====
-- What `execute_trade` has done when it returns.
use crypto_brokerage.Base.{
  ◌≡◌, refl, sym, ap, subst, ◌∙◌, ◌⊎◌, inl, inr, Option, none, some, String, List, [], ◌∷◌, ◌++◌,
  find, str_eq, Option-cases,
}
use crypto_brokerage.Models.{Account, Order, OrderStatus, Transaction}
use crypto_brokerage.Errors.{Result}
use crypto_brokerage.Gateways.{OrderSubmission}
use crypto_brokerage.Env.{Env}
use crypto_brokerage.Session.{Db, World, ◌>>=◌}
use crypto_brokerage.Session.Commits.{Keeps-Commits}
use crypto_brokerage.Session.Outcome.{Returns, bind-Returns, on_exception-Returns}
use crypto_brokerage.Repositories.Orders
use crypto_brokerage.Services.Books.{
  SameBooks, admit-Keeps, fills_of-Keeps, execute_trade-SameBooks,
}
use crypto_brokerage.Services.Trading.{
  Trade, send, mark_failed, submit, fills_of, process_fills, finalise, settle, open_order, admit,
  place, execute_trade,
}
use crypto_brokerage.Services.Trading.Fills.{process_fills-Returns}
use crypto_brokerage.Services.Trading.Finalised.{IsLast, IsFinal, finalise-Returns}
use crypto_brokerage.Services.Trading.Opened.{IsNew, open_order-Returns}

module _ (env : Env) where
  submit-Returns :
      (t : Trade) (o : Order) (x : Transaction) (w : World) (s : OrderSubmission) (w' : World)
      → Returns (submit env t o x) w s w'
      → w'.db ≡ w.db
  unfolding submit
  submit-Returns t o x w s w' h =
      ap (λ (p : Result OrderSubmission × World). p.1.db)
        (sym (on_exception-Returns (send env t) (mark_failed o x) w s w' h))

  -- Steps 6 to 8 end with the order as it was opened, or marked as failed.
  settle-Returns :
      (t : Trade) (a : Account) (o : Order) (x : Transaction) (rows : List Order) (w : World)
      (o' : Order) (w' : World)
      → IsLast o rows w.db
      → Returns (settle env t a o x) w o' w'
      → IsFinal o rows o' w'.db
  unfolding settle
  settle-Returns t a o x rows w o' w' last h =
      let rest1 = λ (s : OrderSubmission). fills_of s >>= λ fs.
      process_fills env [] a t.quote_currency x fs o >>= λ f. finalise s.status x f in
      let (s, sent, h1) = bind-Returns (submit env t o x) rest1 w o' w' h in
      let (fs, listed, h2) =
        bind-Returns (fills_of s)
          (λ l. process_fills env [] a t.quote_currency x l o >>= finalise s.status x) _ o' w' h1 in
      let (f, filled, h3) =
        bind-Returns (process_fills env [] a t.quote_currency x fs o) (finalise s.status x) _ o' w'
          h2 in
      let db1 = submit-Returns t o x w s _ sent in
      let keep = Keeps-Commits _ (fills_of-Keeps {P = λ db. db ≡ w.db} s) in
      let db2 = keep.on_return _ fs _ listed db1 in
      let unmoved = process_fills-Returns env [] a t.quote_currency x fs o _ f _ filled in
      let h4 =
        subst (λ (p : Order × World). Returns (finalise s.status x p.0) p.1 o' w') (sym unmoved)
          h3 in
      finalise-Returns o rows s.status x _ o' w' (subst (IsLast o rows) (sym db2) last) h4

-- What a trade that was placed has done to the tables.
pub record IsPlaced (t : Trade) (before after : Db) (o : Order) : Type 0 where
  pub new : IsNew t o
  pub open_or_failed : (o.status ≡ OrderStatus.pending) ⊎ (o.status ≡ OrderStatus.failed)
  pub appended : after.orders ≡ before.orders ++ (o ∷ [])
  pub same_books : SameBooks before after

IsFinal-IsNew :
    (t : Trade) (o o' : Order)
    → IsNew t o
    → o.status ≡ OrderStatus.pending
    → (o' ≡ o) ⊎ (o' ≡ record o { status = OrderStatus.failed })
    → IsNew t o' × ((o'.status ≡ OrderStatus.pending) ⊎ (o'.status ≡ OrderStatus.failed))
IsFinal-IsNew t o o' n p (inl same_order) =
    (subst (IsNew t) (sym same_order) n, inl (ap (λ (x : Order). x.status) same_order ∙ p))
IsFinal-IsNew t o o' n p (inr marked) = (
  subst (IsNew t) (sym marked) (record {
    unfilled = n.unfilled;
    keyed = n.keyed;
    owner = n.owner;
    traded = n.traded;
    sided = n.sided;
  }),
  inr (ap (λ (x : Order). x.status) marked),
)

-- The order with a key, if there is one.
abbrev pub known : String → Db → Option Order
known key db = find (λ o. str_eq o.idempotency_key key) db.orders

module _ (env : Env) where
  place-Returns :
      (t : Trade) (w : World) (o : Order) (w' : World)
      → Returns (place env t) w o w'
      → IsNew t o
        × ((o.status ≡ OrderStatus.pending) ⊎ (o.status ≡ OrderStatus.failed))
        × (w'.db.orders ≡ w.db.orders ++ (o ∷ []))
  unfolding place
  place-Returns t w o w' h =
      let (a, admitted, h1) =
        bind-Returns (admit env t) (λ a. open_order env t >>= λ r. settle env t a r.0 r.1) w o w'
          h in
      let keep = Keeps-Commits _ (admit-Keeps {P = λ db. db ≡ w.db} env t) in
      let db1 = keep.on_return w a _ admitted refl in
      let (r, opened, h2) =
        bind-Returns (open_order env t) (λ r. settle env t a r.0 r.1) _ o w' h1 in
      let (n, p, last, _) = open_order-Returns env t _ r _ opened in
      let (final, at) = settle-Returns env t a r.0 r.1 _ _ o w' last h2 in
      let (new, status) = IsFinal-IsNew t r.0 o n p final in
      (new, status, at ∙ ap (λ (db : Db). db.orders ++ (o ∷ [])) db1)

  -- A trade that returns either found its idempotency key, and returned that order with nothing
  -- changed and no gateway called, or has added the one order that it returns, with this key, pending
  -- or failed and with nothing filled, and has left the books as they were.
  pub execute_trade-Returns :
      (t : Trade) (w : World) (o : Order) (w' : World)
      → Returns (execute_trade env t) w o w'
      → ((known t.idempotency_key w.db ≡ some o) × (w' ≡ w))
        ⊎ ((known t.idempotency_key w.db ≡ none) × IsPlaced t w.db w'.db o)
  unfolding execute_trade Orders.get_by_idempotency_key
  execute_trade-Returns t w o w' h = elim (Option-cases (known t.idempotency_key w.db)) [
    | inl unknown ↦
        let books = (execute_trade-SameBooks env w.db t).on_return w o w' h (refl, refl, refl) in
        let (new, status, at) = place-Returns t w o w' (rw unknown at h) in
        inr (
          unknown,
          record { new = new; open_or_failed = status; appended = at; same_books = books },
        )
    | inr (found, e) ↦
        let done = rw e at h in
        inl (e ∙ ap some (cc done), ap (λ (p : Result Order × World). p.1) (sym done))
  ]
