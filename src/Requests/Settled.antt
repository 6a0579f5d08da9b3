-- ===== src/Requests/Settled.antt =====
-- What the requests make of a transaction that is in the tables.
use crypto_brokerage.Base.{
  ℕ, ◌≡◌, refl, ap, sym, subst, ◌∙◌, ◌⊎◌, inl, inr, false, Bool-cases, some, Option-cases, String,
  List, [], ◌∷◌, ◌==◌, ==_iff, find, find-append_some,
}
use mathlib.Core.Option.{some-injective}
use crypto_brokerage.Errors.{Result}
use crypto_brokerage.Models.{Transaction}
use crypto_brokerage.Env.{Env}
use crypto_brokerage.Session.{Db, World}
use crypto_brokerage.Session.Outcome.{request_ok}
use crypto_brokerage.Session.Keeps.{Keeps-request}
use crypto_brokerage.Session.Commits.{Commits, Commits-request}
use crypto_brokerage.Repository.Found.{find-own, find-replace}
use crypto_brokerage.Tables
use crypto_brokerage.Tables.Consistent.{IsConsistent}
use crypto_brokerage.Repositories.Transactions.{has_reference}
use crypto_brokerage.Repositories.Transactions.Beside.{Reads, find-replace_other}
use crypto_brokerage.Services.Aside.{Enrolling, register_user-Keeps, link_bank_account-Keeps}
use crypto_brokerage.Services.Banking.{deposit_funds, confirm_deposit, withdraw_funds, Transfer}
use crypto_brokerage.Services.Banking.Confirm.{
  is_skipped, completed_row, referenced, confirmed, confirm_deposit_lem,
}
use crypto_brokerage.Services.Banking.Deposited.{deposit_funds-Returns}
use crypto_brokerage.Services.Banking.Withdraw.{withdraw_funds_refused}
use crypto_brokerage.Services.Trading.Beside.{execute_trade-Reads}
use crypto_brokerage.Requests.Routes.{serve_route_keeps}
use crypto_brokerage.Requests.Consistency.{serve-IsConsistent}
use crypto_brokerage.Requests.{
  Request, register, link, trade, deposit, confirm, withdraw, http, pass, serve, serve_all,
}

-- The transaction `x` reads as it did, or it was neither completed nor failed and is completed now.
abbrev pub IsSettled : Transaction → Db → Type 0
IsSettled x db = Reads x.id x db ⊎ ((is_skipped x.status ≡ false) × Reads x.id (completed_row x) db)

module _ (i : ℕ) (y : Transaction) where
  Reads-Enrolling : Enrolling (Reads i y)
  Reads-Enrolling = record {
    users = λ rs db h. h;
    user_profiles = λ rs db h. h;
    accounts = λ a db h. h;
    bank_accounts = λ rs db h. h;
  }

  deposit_funds-Reads : (env : Env) (t : Transfer) → Commits (Reads i y) (deposit_funds env t)
  deposit_funds-Reads env t = record {
    on_return = λ w r w' h k.
        let d = deposit_funds-Returns env t w r w' h in
        ap (λ (db : Db). find (λ (z : Transaction). z.id == i) db.transactions) d.appended
        ∙ find-append_some _ w.db.transactions (d.row ∷ []) k;
  }

  withdraw_funds-Reads : (env : Env) (t : Transfer) → Commits (Reads i y) (withdraw_funds env t)
  withdraw_funds-Reads env t = record {
    on_return = λ w r w' h k. let bad = sym (withdraw_funds_refused env t w) ∙ h in absurd (cc bad);
  }

  -- Every request but a confirmation leaves the transaction as it is.
  serve-Reads :
      (env : Env) (r : Request) (w : World)
      → Reads i y w.db
      → Reads i y (serve env r w).db ⊎ ((ref : String) × (r ≡ confirm ref))
  unfolding serve
  serve-Reads env (register r) w h =
      inl ((Keeps-request _ (register_user-Keeps (Reads i y) Reads-Enrolling env r)).after w h)
  serve-Reads env (link u ref bank) w h = inl (
      (Keeps-request _ (link_bank_account-Keeps (Reads i y) Reads-Enrolling env u ref bank)).after w
        h)
  serve-Reads env (trade t) w h =
      inl ((Commits-request _ (execute_trade-Reads i y env t)).after w h)
  serve-Reads env (deposit t) w h = inl ((Commits-request _ (deposit_funds-Reads env t)).after w h)
  serve-Reads env (confirm ref) w h = inr (ref, refl)
  serve-Reads env (withdraw t) w h =
      inl ((Commits-request _ (withdraw_funds-Reads env t)).after w h)
  serve-Reads env (http r) w h = inl (
      serve_route_keeps env (Reads i y) (register_user-Keeps (Reads i y) Reads-Enrolling env)
        (link_bank_account-Keeps (Reads i y) Reads-Enrolling env) (execute_trade-Reads i y env) r w
        h)
  serve-Reads env (pass n) w h = inl h

-- A confirmation completes the transaction, if it is the one with the reference and is open.
confirmed-Reads :
    (ref : String) (y : Transaction) (db : Db)
    → IsConsistent db
    → Reads y.id y db
    → IsSettled y (confirmed ref db)
confirmed-Reads ref y db c h = elim (Option-cases (referenced ref db)) [
  | inl unknown ↦ inl (rw unknown h)
  | inr (x, e) ↦ elim (Bool-cases (is_skipped x.status)) [
    | inl skipped ↦ inl (rw e (rw skipped h))
    | inr open_ ↦
        let found =
          find-own Tables.transactions (has_reference ref) db.transactions x c.distinct_transactions
            e in
        elim (Bool-cases (x.id == y.id)) [
          | inl at ↦
              let own : x ≡ y = some-injective _ _ (
                sym found
                ∙ ap (λ n. find (λ (z : Transaction). z.id == n) db.transactions)
                    ((==_iff x.id y.id).0 at)
                ∙ h) in
              let open_y : is_skipped y.status ≡ false =
                ap (λ (z : Transaction). is_skipped z.status) (sym own) ∙ open_ in
              let changed =
                find-replace Tables.transactions (λ z. z.id == y.id) db.transactions x
                  (completed_row x) c.distinct_transactions (h ∙ ap some (sym own)) at in
              inr (open_y, rw e (rw open_ (changed ∙ ap (λ z. some (completed_row z)) own)))
          | inr past ↦ inl (
              rw e (
                rw open_
                  (find-replace_other y.id x.id (completed_row x) db.transactions past refl ∙ h)))
        ]
  ]
]

module _ (env : Env) where
  confirm-IsSettled :
      (ref : String) (y : Transaction) (w : World)
      → IsConsistent w.db
      → Reads y.id y w.db
      → IsSettled y (serve env (confirm ref) w).db
  unfolding serve
  confirm-IsSettled ref y w c h =
      let done = request_ok (confirm_deposit ref) w _ tt (confirm_deposit_lem ref w c) in
      subst (λ (p : Result (Unit {0}) × World). IsSettled y p.1.db) (sym done)
        (confirmed-Reads ref y w.db c h)

  serve_read-IsSettled :
      (r : Request) (y : Transaction) (w : World)
      → IsConsistent w.db
      → Reads y.id y w.db
      → IsSettled y (serve env r w).db
  serve_read-IsSettled r y w c h = elim (serve-Reads y.id y env r w h) [
    | inl kept ↦ inl kept
    | inr (ref, e) ↦
        subst (λ q. IsSettled y (serve env q w).db) (sym e) (confirm-IsSettled ref y w c h)
  ]

  serve-IsSettled :
      (x : Transaction) (r : Request) (w : World)
      → IsConsistent w.db
      → IsSettled x w.db
      → IsSettled x (serve env r w).db
  serve-IsSettled x r w c (inl h) = serve_read-IsSettled r x w c h
  serve-IsSettled x r w c (inr (open_, h)) = elim (serve_read-IsSettled r (completed_row x) w c h) [
    | inl kept ↦ inr (open_, kept)
    | inr (bad, _) ↦ absurd (cc bad)
  ]

  continued-IsSettled :
      (x : Transaction) (rs : List Request) (w : World)
      → IsConsistent w.db
      → IsSettled x w.db
      → IsSettled x (serve_all env rs w).db
  unfolding serve_all
  continued-IsSettled x [] w c h = h
  continued-IsSettled x (r ∷ rs) w c h =
      continued-IsSettled x rs (serve env r w) (serve-IsConsistent env r w c)
        (serve-IsSettled x r w c h)

  -- A transaction that is in tables that keep their constraints is there after any further requests,
  -- and reads as it did, unless it was neither completed nor failed: then it may be completed, and
  -- nothing else of it changes.
  pub serve_all-IsSettled :
      (x : Transaction) (rs : List Request) (w : World)
      → IsConsistent w.db
      → Reads x.id x w.db
      → IsSettled x (serve_all env rs w).db
  serve_all-IsSettled x rs w c h = continued-IsSettled x rs w c (inl h)
