-- ===== src/Repository/Found.antt =====
-- A row that a query found, in tables whose rows are distinct: it is the row with its key, and a
-- change of it is found by the same query.
use crypto_brokerage.Base.{
  ℕ, ◌≡◌, ap, inl, inr, Bool, true, false, not, ◌||◌, Bool-cases, some, List, [], ◌∷◌, ◌==◌, ==_iff,
  find, all, arith,
}
use mathlib.Core.Option.{some-injective}
use crypto_brokerage.Repository.{Entity, same, replace}
use crypto_brokerage.Repository.Unique.{Distinct, both}

pub all-find {ℓ} :
    {A : Type ℓ} (q p : A → Bool) (xs : List A) (x : A)
    → all q xs ≡ true
    → find p xs ≡ some x
    → q x ≡ true
all-find q p [] x h f = absurd (cc f)
all-find q p (y ∷ xs) x h f =
    let (here, rest) = both (q y) (all q xs) h in
    elim (Bool-cases (p y)) [
      | inl at ↦ let same_value : y ≡ x = some-injective _ _ (rw at at f) in rw (← same_value) here
      | inr past ↦ all-find q p xs x rest (rw past at f)
    ]

apart : (k l : ℕ) (c : Bool) → not (k == l || c) ≡ true → (l == k) ≡ false
apart k l c h = ground arith

module _ {R : Type 0} (e : Entity R) where
  pub find-own :
      (p : R → Bool) (rs : List R) (x : R)
      → Distinct e rs
      → find p rs ≡ some x
      → find (λ r. e.key r == e.key x) rs ≡ some x
  find-own p [] x d f = absurd (cc f)
  find-own p (s ∷ rs) x d f = elim (Bool-cases (p s)) [
    | inl at ↦
        let own : s ≡ x = some-injective _ _ (rw at at f) in
        rw ((==_iff (e.key s) (e.key x)).1 (ap e.key own)) (ap some own)
    | inr past ↦
        let later = rw past at f in
        let ne = apart (e.key x) (e.key s) _ (all-find (λ t. not (same e t s)) p rs x d.0 later) in
        rw ne (find-own p rs x d.1 later)
  ]

  pub find-replace :
      (p : R → Bool) (rs : List R) (x x' : R)
      → Distinct e rs
      → find p rs ≡ some x
      → p x' ≡ true
      → find p (replace e (e.key x) x' rs) ≡ some x'
  find-replace p [] x x' d f h = absurd (cc f)
  find-replace p (s ∷ rs) x x' d f h = elim (Bool-cases (p s)) [
    | inl at ↦
        let own : s ≡ x = some-injective _ _ (rw at at f) in
        rw ((==_iff (e.key s) (e.key x)).1 (ap e.key own)) (rw h)
    | inr past ↦
        let later = rw past at f in
        let ne = apart (e.key x) (e.key s) _ (all-find (λ t. not (same e t s)) p rs x d.0 later) in
        rw (ne, past) (find-replace p rs x x' d.1 later h)
  ]
