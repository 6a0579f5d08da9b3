-- ===== src/Repository/Inserted.antt =====
-- A row that was just inserted is found under its key and can be changed in its place.
use crypto_brokerage.Base.{
  ℕ, ◌≡◌, refl, ap, Bool, true, false, not, ◌&&◌, ◌||◌, some, List, [], ◌∷◌, ◌++◌, ◌==◌, ==_iff,
  find, all, arith,
}
use crypto_brokerage.Repository.{Entity, same, replace}

other_key :
    (k l : ℕ) (c rest : Bool)
    → (not (k == l || c) && rest) ≡ true
    → ((l == k) ≡ false) × (rest ≡ true)
other_key k l c rest h = ground arith

own_key : (k : ℕ) → (k == k) ≡ true
own_key k = (==_iff k k).1 refl

module _ {R : Type 0} (e : Entity R) where
  pub find-inserted :
      (rs : List R) (r : R)
      → all (λ s. not (same e r s)) rs ≡ true
      → find (λ s. e.key s == e.key r) (rs ++ (r ∷ [])) ≡ some r
  find-inserted [] r h = rw (own_key (e.key r))
  find-inserted (s ∷ rs) r h =
      let (ne, rest) = other_key (e.key r) (e.key s) (e.clashes r s) _ h in
      rw ne (find-inserted rs r rest)

  pub replace-inserted :
      (rs : List R) (r r' : R)
      → all (λ s. not (same e r s)) rs ≡ true
      → replace e (e.key r) r' (rs ++ (r ∷ [])) ≡ rs ++ (r' ∷ [])
  replace-inserted [] r r' h = rw (own_key (e.key r))
  replace-inserted (s ∷ rs) r r' h =
      let (ne, rest) = other_key (e.key r) (e.key s) (e.clashes r s) _ h in
      rw ne (ap (λ l. s ∷ l) (replace-inserted rs r r' rest))
