-- ===== src/Services/Onboarding/Linked.antt =====
-- What the linking of a bank account has written, and that it cannot be repeated.
use crypto_brokerage.Base.{
  provided-some, ℕ, ◌≡◌, sym, ap, ◌∙◌, inl, inr, Bool, true, ◌&&◌, Option, none, some, String, [],
  ◌∷◌, ◌++◌, find, find-append_none, ◌==◌, ==_iff, str_eq, eq_iff, Option-cases,
}
use crypto_brokerage.Models.{bank_account_fits, BankAccount, BankAccountStatus}
use crypto_brokerage.Errors.{err, bank_account_already_linked}
use crypto_brokerage.Env.{Env}
use crypto_brokerage.Session.{Db, World, ◌>>=◌, pure}
use crypto_brokerage.Session.Outcome.{Returns, bind-Returns, pure-Returns}
use crypto_brokerage.Repository.{stored, add}
use crypto_brokerage.Repository.Writes.{add-Returns}
use crypto_brokerage.Tables
use crypto_brokerage.Repositories.BankAccounts.{get_by_external_reference}
use crypto_brokerage.Services.Onboarding.{link_bank_account}

-- The bank account of the user with the reference.
abbrev pub linked : ℕ → String → Db → Option BankAccount
linked u ref db = find (λ a. a.user_id == u && str_eq a.external_reference ref) db.bank_accounts

-- The new row.
pub record IsLinked (u : ℕ) (ref bank : String) (i : ℕ) (before after : Db) : Type 0 where
  pub row : BankAccount
  pub identified : row.id ≡ i
  pub owner : row.user_id ≡ u
  pub referred : row.external_reference ≡ ref
  pub named : row.bank_name ≡ bank
  pub active : row.status ≡ BankAccountStatus.active
  pub appended : after ≡ record before { bank_accounts = before.bank_accounts ++ (row ∷ []) }

module _ (env : Env) (u : ℕ) (ref bank : String) where
  abbrev pub linked_row : ℕ → Option BankAccount
  linked_row i = stored bank_account_fits (record {
    id = i;
    user_id = u;
    external_reference = ref;
    bank_name = bank;
    status = BankAccountStatus.active;
  })

  inserted :
      (w : World) (i : ℕ) (w' : World)
      → Returns (add Tables.bank_accounts env linked_row >>= λ b. pure b.id) w i w'
      → IsLinked u ref bank i w.db w'.db
  inserted w i w' h =
      let (b, h1, h2) =
        bind-Returns (add Tables.bank_accounts env linked_row) (λ b. pure b.id) w i w' h in
      let (made, _, left) = add-Returns Tables.bank_accounts env linked_row w b _ h1 in
      let (answer, ended) = pure-Returns b.id i _ w' h2 in
      let m = (provided-some _ _ _ made).1 in
      record {
        row = b;
        identified = answer;
        owner = ap (λ (x : BankAccount). x.user_id) (sym m);
        referred = ap (λ (x : BankAccount). x.external_reference) (sym m);
        named = ap (λ (x : BankAccount). x.bank_name) (sym m);
        active = ap (λ (x : BankAccount). x.status) (sym m);
        appended = ap (λ (x : World). x.db) (sym ended) ∙ ap (λ (x : World). x.db) left;
      }

  -- A linking that returns found no bank account of the user under the reference, and has added one,
  -- active at once, and nothing else.
  pub link_bank_account-Returns :
      (w : World) (i : ℕ) (w' : World)
      → Returns (link_bank_account env u ref bank) w i w'
      → (linked u ref w.db ≡ none) × IsLinked u ref bank i w.db w'.db
  unfolding link_bank_account get_by_external_reference
  link_bank_account-Returns w i w' h = elim (Option-cases (linked u ref w.db)) [
    | inl free ↦ (free, inserted w i w' (rw free at h))
    | inr (b, e) ↦ let bad = rw e at h in absurd (cc bad)
  ]

  -- A reference is linked once to a user: after a linking that returned, another one under the same
  -- reference is refused, under any name of the bank, and writes nothing.
  pub link_bank_account_again :
      (w : World) (i : ℕ) (w' : World) (other_bank : String)
      → Returns (link_bank_account env u ref bank) w i w'
      → link_bank_account env u ref other_bank w' ≡ (err bank_account_already_linked, w')
  unfolding link_bank_account get_by_external_reference
  link_bank_account_again w i w' other_bank h =
      let (free, done) = link_bank_account-Returns w i w' h in
      let mine : (done.row.user_id == u) ≡ true = (==_iff done.row.user_id u).1 done.owner in
      let own : str_eq done.row.external_reference ref ≡ true =
        (eq_iff done.row.external_reference ref).1 done.referred in
      let p : BankAccount → Bool = λ a. a.user_id == u && str_eq a.external_reference ref in
      let alone : find p (done.row ∷ []) ≡ some done.row = rw (mine, own) in
      let found : linked u ref w'.db ≡ some done.row =
        ap (linked u ref) done.appended
        ∙ find-append_none p w.db.bank_accounts (done.row ∷ []) free
        ∙ alone in
      rw found
