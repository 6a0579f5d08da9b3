-- ===== src/Services/Banking/Deposited.antt =====
-- `deposit_funds`: what a deposit that was initiated has written.
use crypto_brokerage.Base.{
  ℕ, ◌≡◌, refl, sym, ap, subst, ◌∙◌, inl, inr, true, not, all, Bool-cases, Option, none, some,
  String, List, [], ◌∷◌, ◌++◌, ◌==◌, ==_iff, Option-cases,
}
use crypto_brokerage.Models.{
  reference_fits, Account, BankAccount, Transaction, TransactionStatus, TransactionType,
}
use crypto_brokerage.Errors.{Result, account_not_found}
use crypto_brokerage.Gateways.{Call}
use crypto_brokerage.Env.{Env}
use crypto_brokerage.Session.{Db, World, ◌>>=◌, ◌>>◌, or_raise}
use crypto_brokerage.Session.Outcome.{Returns, Result-cases, bind-Returns, on_exception-Returns}
use crypto_brokerage.Repository.{same, replace, get_by_id}
use crypto_brokerage.Repository.Inserted.{replace-inserted}
use crypto_brokerage.Tables
use crypto_brokerage.Repositories.Accounts.{get_by_user_and_currency}
use crypto_brokerage.Repositories.Transactions
use crypto_brokerage.Repositories.Transactions.Created.{
  IsLast, create-Returns, update_status-last, update_status-long,
}
use crypto_brokerage.Services.Banking.{
  Transfer, TransferResult, owned, inbound, send, mark_failed, initiate, deposit_funds,
}
use crypto_brokerage.Services.Banking.Deposit.{source_of, target_of}

-- A deposit that the bank has accepted.
pub record IsInitiated (env : Env) (t : Transfer) (w w' : World) (r : TransferResult) : Type 0 where
  pub source : BankAccount
  pub linked : source_of t w.db ≡ some source
  pub owner : source.user_id ≡ t.user_id
  pub target : Account
  pub opened : target_of t w.db ≡ some target
  pub row : Transaction
  pub keyed : row.id ≡ r.transaction_id
  pub deposit : row.transaction_type ≡ TransactionType.deposit
  pub of_user : row.user_id ≡ t.user_id
  pub processing : row.status ≡ TransactionStatus.processing
  pub reported : r.status ≡ TransactionStatus.processing
  pub referred : row.reference_id ≡ some r.external_transfer_id
  pub fresh : all (λ s. not (same Tables.transactions row s)) w.db.transactions ≡ true
  pub appended : w'.db ≡ record w.db { transactions = w.db.transactions ++ (row ∷ []) }

owned-Returns :
    (u : ℕ) (found : Option BankAccount) (w : World) (b : BankAccount) (w' : World)
    → Returns (owned u found) w b w'
    → (found ≡ some b) × (b.user_id ≡ u) × (w' ≡ w)
owned-Returns u none w b w' h = absurd (cc h)
owned-Returns u (some c) w b w' h = elim (Bool-cases (c.user_id == u)) [
  | inl mine ↦
      let done = rw mine at h in
      let own : c ≡ b = cc done in
      (
        ap some own,
        ap (λ (z : BankAccount). z.user_id) (sym own) ∙ (==_iff c.user_id u).0 mine,
        ap (λ (p : Result BankAccount × World). p.1) (sym done),
      )
  | inr other ↦ let bad = rw other at h in absurd (cc bad)
]

abbrev in_progress : String → Transaction → Transaction
in_progress ref x = record x { status = TransactionStatus.processing; reference_id = some ref }

module _ (env : Env) where
  send-Returns :
      (t : Transfer) (b : BankAccount) (x : Transaction) (rows : List Transaction) (w : World)
      (r : TransferResult) (w' : World)
      → IsLast x rows w.db
      → Returns (send env t b x) w r w'
      → (r.transaction_id ≡ x.id)
        × (r.status ≡ TransactionStatus.processing)
        × (w'.db
            ≡ record w.db { transactions = rows ++ (in_progress r.external_transfer_id x ∷ []) })
  send-Returns t b x rows w r w' last h =
      elim (Result-cases (env.banking.initiate_transfer w.calls (inbound env t b x))) [
        | inl (i, accepted) ↦
            let ref = some i.external_transfer_id in
            let w2 = record w { calls = Call.initiate_transfer (inbound env t b x) ∷ w.calls } in
            let done = rw accepted at h in
            elim (Bool-cases (reference_fits ref)) [
              | inl short ↦
                  let stored =
                    update_status-last x TransactionStatus.processing ref rows w2 last short in
                  let done2 = rw stored at done in
                  let made : TransferResult = record {
                    transaction_id = x.id;
                    external_transfer_id = i.external_transfer_id;
                    status = TransactionStatus.processing;
                  } in
                  let own : made ≡ r = cc done2 in
                  let moved = in_progress i.external_transfer_id x in
                  let rows' : replace Tables.transactions x.id moved w.db.transactions
                      ≡ rows ++ (moved ∷ []) =
                    ap (replace Tables.transactions x.id moved) last.0
                    ∙ replace-inserted Tables.transactions rows x moved last.1 in
                  (
                    ap (λ (z : TransferResult). z.transaction_id) (sym own),
                    ap (λ (z : TransferResult). z.status) (sym own),
                    ap (λ (p : Result TransferResult × World). p.1.db) (sym done2)
                        ∙ ap (λ (l : List Transaction). record w.db { transactions = l }) rows'
                        ∙ ap
                            (λ (z : TransferResult). record w.db {
                              transactions = rows ++ (in_progress z.external_transfer_id x ∷ []);
                            })
                            own,
                  )
              | inr long ↦
                  let refused =
                    update_status-long x TransactionStatus.processing ref rows w2 last long in
                  let bad = rw refused at done in absurd (cc bad)
            ]
        | inr (e, refused) ↦ let bad = rw refused at h in absurd (cc bad)
      ]

  started :
      (t : Transfer) (w : World) (b : BankAccount) (a : Account) (r : TransferResult) (w' : World)
      → source_of t w.db ≡ some b
      → b.user_id ≡ t.user_id
      → target_of t w.db ≡ some a
      → Returns
          (Transactions.create env t.user_id TransactionType.deposit none >>= initiate env t b)
          w
          r
          w'
      → IsInitiated env t w w' r
  unfolding initiate
  started t w b a r w' at mine e h =
      let (x, created, h1) =
        bind-Returns (Transactions.create env t.user_id TransactionType.deposit none)
          (initiate env t b) w r w' h in
      let (user, kind, last, calls, left) =
        create-Returns env t.user_id TransactionType.deposit none w x _ created in
      let (same_key, reported, moved) =
        send-Returns t b x w.db.transactions _ r w' last
          (on_exception-Returns (send env t b x) (mark_failed x) _ r w' h1) in
      record {
        source = b;
        linked = at;
        owner = mine;
        target = a;
        opened = e;
        row = in_progress r.external_transfer_id x;
        keyed = sym same_key;
        deposit = kind;
        of_user = user;
        processing = refl;
        reported = reported;
        referred = refl;
        fresh = last.1;
        appended =
            moved
            ∙ ap
                (λ (db : Db). record db {
                  transactions = w.db.transactions ++ (in_progress r.external_transfer_id x ∷ []);
                })
                left;
      }

  -- A deposit that returns names a linked bank account of the user and an open account of the
  -- currency, and has added one transaction, in progress under the reference of the bank, and
  -- nothing else: the money is not on the account yet.
  pub deposit_funds-Returns :
      (t : Transfer) (w : World) (r : TransferResult) (w' : World)
      → Returns (deposit_funds env t) w r w'
      → IsInitiated env t w w' r
  unfolding deposit_funds initiate get_by_id get_by_user_and_currency
  deposit_funds-Returns t w r w' h =
      let rest2 = λ (b : BankAccount).
        Transactions.create env t.user_id TransactionType.deposit none >>= initiate env t b in
      let rest1 = λ (b : BankAccount).
        get_by_user_and_currency t.user_id t.currency >>= or_raise account_not_found >> rest2 b in
      let (b, owned_by, h1) =
        bind-Returns (get_by_id Tables.bank_accounts t.bank_account_id >>= owned t.user_id) rest1 w
          r w' h in
      let (at, mine, same1) = owned-Returns t.user_id (source_of t w.db) w b _ owned_by in
      let h2 = subst (λ (z : World). Returns (rest1 b) z r w') same1 h1 in
      elim (Option-cases (target_of t w.db)) [
        | inl closed ↦ let bad = rw closed at h2 in absurd (cc bad)
        | inr (a, e) ↦ started t w b a r w' at mine e (rw e at h2)
      ]
