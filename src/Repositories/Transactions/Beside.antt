-- ===== src/Repositories/Transactions/Beside.antt =====
-- A transaction stays as it is when others are added or updated.
use crypto_brokerage.Base.{
  ℕ, ◌≡◌, refl, sym, ap, ◌∙◌, inl, inr, Bool, true, false, not, ◌||◌, Bool-cases, Option, none,
  some, Option-cases, List, [], ◌∷◌, ◌==◌, ==_iff, find, find-append_some, find-passes, arith,
  String,
}
use crypto_brokerage.Models.{Transaction, TransactionStatus, reference_fits}
use crypto_brokerage.Session.{Db}
use crypto_brokerage.Session.Keeps.{Keeps}
use crypto_brokerage.Repository.{same, replace, update}
use crypto_brokerage.Repository.Found.{all-find}
use crypto_brokerage.Tables
use crypto_brokerage.Repositories.Transactions.{with_status, update_status}
use crypto_brokerage.Repositories.Transactions.Created.{IsLast}

-- The transaction with the key is in the tables, and reads so.
abbrev pub Reads : ℕ → Transaction → Db → Type 0
Reads i y db = find (λ (z : Transaction). z.id == i) db.transactions ≡ some y

other_keys : (i j k : ℕ) → (j == i) ≡ false → (k == j) ≡ true → (k == i) ≡ false
other_keys i j k h e = ground arith

-- The rows of other keys do not show a change.
pub find-replace_other :
    (i j : ℕ) (r : Transaction) (rows : List Transaction)
    → (j == i) ≡ false
    → r.id ≡ j
    → find (λ (z : Transaction). z.id == i) (replace Tables.transactions j r rows)
      ≡ find (λ (z : Transaction). z.id == i) rows
find-replace_other i j r [] h own = refl
find-replace_other i j r (s ∷ rows) h own = elim (Bool-cases (s.id == j)) [
  | inl at ↦ rw at (rw (own, h) (rw (other_keys i j s.id h at) refl))
  | inr past ↦ elim (Bool-cases (s.id == i)) [
    | inl here ↦ rw past (rw here refl)
    | inr there ↦ rw past (rw there (find-replace_other i j r rows h own))
  ]
]

with_status-id :
    (s : TransactionStatus) (ref : Option String) (t : Transaction)
    → (with_status s ref t).id ≡ t.id
with_status-id s none t = refl
with_status-id s (some r) t = refl

pub update_status-Reads :
    (i : ℕ) (y x : Transaction) (s : TransactionStatus) (ref : Option String)
    → (x.id == i) ≡ false
    → Keeps (Reads i y) (update_status x s ref)
unfolding update_status update
update_status-Reads i y x s ref h = record {
  after = λ w k. elim (Option-cases (find (λ (z : Transaction). z.id == x.id) w.db.transactions)) [
    | inl gone ↦ rw gone k
    | inr (t, e) ↦ elim (Bool-cases (reference_fits ref)) [
      | inl fits ↦
          let own = (==_iff t.id x.id).0 (find-passes _ w.db.transactions e) in
          rw e (
            rw fits (
              find-replace_other i x.id (with_status s ref t) w.db.transactions h
                (with_status-id s ref t ∙ own)
              ∙ k))
      | inr long ↦ rw e (rw long k)
    ]
  ];
}

apart : (k l : ℕ) (c : Bool) → not (k == l || c) ≡ true → (k == l) ≡ false
apart k l c h = ground arith

-- A transaction that was just added has another key.
pub added-Reads :
    (i : ℕ) (y x : Transaction) (before after : Db)
    → Reads i y before
    → IsLast x before.transactions after
    → Reads i y after × ((x.id == i) ≡ false)
added-Reads i y x before after h (at, fresh) =
    let own = (==_iff y.id i).0 (find-passes _ before.transactions h) in
    let ne =
      apart x.id y.id _
        (all-find (λ t. not (same Tables.transactions x t)) _ before.transactions y fresh h) in
    (
      ap (find (λ (z : Transaction). z.id == i)) at
          ∙ find-append_some _ before.transactions (x ∷ []) h,
      ap (λ n. x.id == n) (sym own) ∙ ne,
    )
