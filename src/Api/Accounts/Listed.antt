-- ===== src/Api/Accounts/Listed.antt =====
-- GET /accounts against GET /accounts/{account_id}/balance.
use crypto_brokerage.Base.{
  ◌≡◌, refl, inl, inr, true, false, not, Bool-cases, some, List, [], ◌∷◌, map, find, select, all,
  All, ◌==◌, ==_iff, arith,
}
use crypto_brokerage.Models.{User, Account}
use crypto_brokerage.Session.{Db, World}
use crypto_brokerage.Session.Outcome.{Returns}
use crypto_brokerage.Repository.{Entity, same, get_by_id}
use crypto_brokerage.Repository.Unique.{Distinct, both}
use crypto_brokerage.Tables
use crypto_brokerage.Tables.Consistent.{IsConsistent}
use crypto_brokerage.Repositories.Accounts
use crypto_brokerage.Repositories.Accounts.{balance_of}
use crypto_brokerage.Api.Schemas.Accounts.{AccountRead, account_read}
use crypto_brokerage.Api.Accounts.{read_accounts, list_accounts, get_balance}

-- The accounts of a user with their balances.
abbrev pub accounts_read : User → Db → List AccountRead
accounts_read user db =
    map (λ (a : Account). account_read a (balance_of a.id db))
      (select (λ (a : Account). a.user_id == user.id) db.accounts)

read_accounts-Returns :
    (l : List Account) (w : World)
    → Returns (read_accounts l) w (map (λ a. account_read a (balance_of a.id w.db)) l) w
unfolding Accounts.get_balance
read_accounts-Returns [] w = refl
read_accounts-Returns (a ∷ l) w = rw (read_accounts-Returns l w)

module _ {R : Type 0} (e : Entity R) where
  -- The key of the first row is the key of no later one.
  apart :
      (r : R) (rs : List R)
      → all (λ s. not (same e s r)) rs ≡ true
      → All (λ s. (e.key r == e.key s) ≡ false) rs
  apart r [] h = tt
  apart r (s ∷ rs) h =
      let (new, rest) = both (not (same e s r)) (all (λ t. not (same e t r)) rs) h in
      (ground arith, apart r rs rest)

  -- Under a row with another key, the others are found as before.
  found_behind :
      (r : R) (rs : List R) (l : List R)
      → All (λ s. (e.key r == e.key s) ≡ false) l
      → All (λ s. find (λ t. e.key t == e.key s) rs ≡ some s) l
      → All (λ s. find (λ t. e.key t == e.key s) (r ∷ rs) ≡ some s) l
  found_behind r rs [] h k = tt
  found_behind r rs (s ∷ l) h k = (rw (h.0) (k.0), found_behind r rs l h.1 k.1)

  -- Rows in distinct tables are found by their keys.
  found_by_key :
      (rs : List R) → Distinct e rs → All (λ r. find (λ s. e.key s == e.key r) rs ≡ some r) rs
  found_by_key [] d = tt
  found_by_key (r ∷ rs) d =
      let self : (e.key r == e.key r) ≡ true = (==_iff (e.key r) (e.key r)).1 refl in
      (rw self, found_behind r rs rs (apart r rs d.0) (found_by_key rs d.1))

module _ (user : User) (w : World) where
  agree :
      (l : List Account)
      → All (λ (a : Account). find (λ (b : Account). b.id == a.id) w.db.accounts ≡ some a) l
      → All
          (λ (r : AccountRead). Returns (get_balance user r.id) w r w)
          (map
            (λ (a : Account). account_read a (balance_of a.id w.db))
            (select (λ (a : Account). a.user_id == user.id) l))
  unfolding get_balance Accounts.get_balance get_by_id
  agree [] h = tt
  agree (a ∷ l) h = elim (Bool-cases (a.user_id == user.id)) [
    | inl own ↦ rw own (rw (h.0) (rw own), agree l h.1)
    | inr other ↦ rw other (agree l h.1)
  ]

  -- GET /accounts sends the user's accounts, all of them and no other, each exactly as
  -- GET /accounts/{account_id}/balance sends it, if the tables keep their constraints.
  pub list_accounts_agree :
      IsConsistent w.db
      → Returns (list_accounts user) w (accounts_read user w.db) w
        × All (λ r. Returns (get_balance user r.id) w r w) (accounts_read user w.db)
  unfolding list_accounts Accounts.list_by_user
  list_accounts_agree h = (
    read_accounts-Returns (select (λ (a : Account). a.user_id == user.id) w.db.accounts) w,
    agree w.db.accounts (found_by_key Tables.accounts w.db.accounts h.distinct_accounts),
  )
