-- ===== src/Services/Trading/Opened.antt =====
-- Step 5 of `execute_trade`: the order and the transaction that it opens.
use crypto_brokerage.Base.{
  provided-some, ℕ, ◌≡◌, sym, ap, subst, ◌∙◌, inl, inr, true, not, Option, some, String, List, [],
  ◌∷◌, ◌++◌, all, Option-cases,
}
use crypto_brokerage.Base.Int.{pos}
use crypto_brokerage.Models.{Order, OrderStatus, Transaction, TransactionType}
use crypto_brokerage.Env.{Env}
use crypto_brokerage.Session.{World, ◌>>=◌, pure}
use crypto_brokerage.Session.Keeps.{Keeps}
use crypto_brokerage.Session.Commits.{Keeps-Commits}
use crypto_brokerage.Session.Outcome.{Returns, bind-Returns, pure-Returns}
use crypto_brokerage.Repository.{same, add}
use crypto_brokerage.Repository.Unique.{both}
use crypto_brokerage.Repository.Writes.{add-Returns, add_spares}
use crypto_brokerage.Tables
use crypto_brokerage.Repositories.Transactions
use crypto_brokerage.Repositories.Transactions.Created
use crypto_brokerage.Repositories.Transactions.Created.{create-Returns}
use crypto_brokerage.Services.Trading.{Trade, new_order, open_order, numeric_or_null}
use crypto_brokerage.Services.Trading.Finalised.{IsLast}

-- The order is as the caller asked for it, and nothing of it is filled.
pub record IsNew (t : Trade) (o : Order) : Type 0 where
  pub unfilled : o.filled_amount ≡ pos 0
  pub keyed : o.idempotency_key ≡ t.idempotency_key
  pub owner : o.user_id ≡ t.user_id
  pub traded : o.asset_id ≡ t.asset_id
  pub sided : o.side ≡ t.side

module _ (env : Env) where
  pub new_order-IsNew :
      (t : Trade) (i : ℕ) (o : Order)
      → new_order env t i ≡ some o
      → IsNew t o × (o.status ≡ OrderStatus.pending)
  new_order-IsNew t i o h = elim (Option-cases (env.numeric t.amount)) [
    | inl over ↦ let bad = rw over at h in absurd (cc bad)
    | inr (a, e) ↦
        let h1 = rw e at h in
        elim (Option-cases (numeric_or_null env t.price)) [
          | inl over ↦ let bad = rw over at h1 in absurd (cc bad)
          | inr (p, f) ↦
              let h2 = (provided-some _ _ _ (rw f at h1)).1 in
              (
                record {
                  unfilled = ap (λ (x : Order). x.filled_amount) (sym h2);
                  keyed = ap (λ (x : Order). x.idempotency_key) (sym h2);
                  owner = ap (λ (x : Order). x.user_id) (sym h2);
                  traded = ap (λ (x : Order). x.asset_id) (sym h2);
                  sided = ap (λ (x : Order). x.side) (sym h2);
                },
                ap (λ (x : Order). x.status) (sym h2),
              )
        ]
  ]

  create_orders :
      (t : Trade) (ref : Option String) (before : List Order)
      → Keeps
          (λ db. db.orders ≡ before)
          (Transactions.create env t.user_id TransactionType.trade ref)
  unfolding Transactions.create
  create_orders t ref before =
      add_spares Tables.transactions (λ db. db.orders ≡ before) (λ rs db h. h) env _

  pub open_order-Returns :
      (t : Trade) (w : World) (r : Order × Transaction) (w' : World)
      → Returns (open_order env t) w r w'
      → IsNew t r.0
        × (r.0.status ≡ OrderStatus.pending)
        × IsLast r.0 w.db.orders w'.db
        × Created.IsLast r.1 w.db.transactions w'.db
  unfolding open_order
  open_order-Returns t w r w' h =
      let (o, first, rest) =
        bind-Returns (add Tables.orders env (new_order env t))
          (λ o.
            Transactions.create env t.user_id TransactionType.trade (some (env.str_uuid o.id))
            >>= λ x. pure (o, x))
          w r w' h in
      let (x, second, done) =
        bind-Returns
          (Transactions.create env t.user_id TransactionType.trade (some (env.str_uuid o.id)))
          (λ x. pure (o, x)) _ r w' rest in
      let (made, admitted, left) = add-Returns Tables.orders env (new_order env t) w o _ first in
      let (fresh, _) = both (all (λ s. not (same Tables.orders o s)) w.db.orders) _ admitted in
      let k =
        Keeps-Commits _ (create_orders t (some (env.str_uuid o.id)) (w.db.orders ++ (o ∷ []))) in
      let kept = k.on_return _ x _ second (ap (λ (z : World). z.db.orders) left) in
      let (_, _, last1, _, _) =
        create-Returns env t.user_id TransactionType.trade (some (env.str_uuid o.id)) _ x _
          second in
      let unmoved : (add Tables.orders env (new_order env t) w).1.db.transactions
          ≡ w.db.transactions =
        ap (λ (z : World). z.db.transactions) left in
      let (opened, ended) = pure-Returns {A = Order × Transaction} (o, x) r _ w' done in
      let end = ap (λ (z : World). z.db.transactions) (sym ended) in
      let last_in : Created.IsLast x w.db.transactions w'.db = (
        end ∙ last1.0 ∙ ap (λ (l : List Transaction). l ++ (x ∷ [])) unmoved,
        subst (λ (l : List Transaction). all (λ s. not (same Tables.transactions x s)) l ≡ true)
            unmoved last1.1,
      ) in
      let (new, waiting) = new_order-IsNew t (env.uuid4 w.draws) o made in
      let at : w'.db.orders ≡ w.db.orders ++ (o ∷ []) =
        ap (λ (z : World). z.db.orders) (sym ended) ∙ kept in
      subst
        (λ (z : Order × Transaction).
          IsNew t z.0
          × (z.0.status ≡ OrderStatus.pending)
          × IsLast z.0 w.db.orders w'.db
          × Created.IsLast z.1 w.db.transactions w'.db)
        opened (new, waiting, (at, fresh), last_in)
