-- ===== src/Repository/Admitted.antt =====
-- An INSERT that meets the constraints is done, and one that clashes with a row is refused.
use crypto_brokerage.Base.{
  ℕ, ◌+◌, ◌≡◌, refl, Bool, true, false, not, ◌||◌, Option, none, some, List, [], ◌∷◌, ◌==◌, find,
  all, is_some, All, arith, Bool-cases, Option-cases, inl, inr, if◌then◌else◌,
}
use crypto_brokerage.Errors.{Error, ok, err, data_error, integrity}
use crypto_brokerage.Env.{Env}
use crypto_brokerage.Session.{World}
use crypto_brokerage.Repository.{Entity, same, add}
use crypto_brokerage.Repository.Fits.{present}
use crypto_brokerage.Repository.Writes.{with_row}

apart :
    (k l : ℕ) (c found : Bool) (R : Type 0) (s : R) (o : Option R)
    → is_some (if l == k then some s else o) ≡ false
    → c ≡ false
    → (not (k == l || c) ≡ true) × (is_some o ≡ false)
apart k l c found R s o h q = ground arith

refused_all {ℓ} :
    {R : Type ℓ} (p q : R → Bool) (rows : List R) (s : R)
    → ((x : R) → p x ≡ true → q x ≡ false)
    → find p rows ≡ some s
    → all q rows ≡ false
refused_all p q [] s h f = absurd (cc f)
refused_all p q (x ∷ rows) s h f = elim (Bool-cases (p x)) [
  | inl here ↦ rw (h x here) refl
  | inr past ↦
      let rest : all q rows ≡ false = refused_all p q rows s h (rw past at f) in
      ground (arith, rest)
]

module _ {R : Type 0} (e : Entity R) where
  -- A row under a new key that clashes with no other is new.
  pub all-fresh :
      (rs : List R) (r : R)
      → present e (e.key r) rs ≡ false
      → All (λ s. e.clashes r s ≡ false) rs
      → all (λ s. not (same e r s)) rs ≡ true
  all-fresh [] r h q = refl
  all-fresh (s ∷ rs) r h q =
      let (new, rest) =
        apart (e.key r) (e.key s) (e.clashes r s) true R s (find (λ t. e.key t == e.key r) rs) h
          q.0 in
      rw new (all-fresh rs r rest q.1)

  pub add-admitted :
      (env : Env) (new : ℕ → Option R) (w : World) (r : R)
      → new (env.uuid4 w.draws) ≡ some r
      → all (λ s. not (same e r s)) (e.rows w.db) ≡ true
      → e.refers r w.db ≡ true
      → add e env new w ≡ (ok r, with_row e (record w { draws = w.draws + 1 }) r)
  unfolding add
  add-admitted env new w r made fresh refers = rw made (rw (fresh, refers))

  pub add-refused :
      (env : Env) (new : ℕ → Option R) (w : World)
      → new (env.uuid4 w.draws) ≡ none
      → add e env new w ≡ (err data_error, record w { draws = w.draws + 1 })
  unfolding add
  add-refused env new w long = rw long refl

  add-refused_row :
      (env : Env) (new : ℕ → Option R) (w : World) (r : R)
      → new (env.uuid4 w.draws) ≡ some r
      → all (λ s. not (same e r s)) (e.rows w.db) ≡ false
      → add e env new w ≡ (err integrity, record w { draws = w.draws + 1 })
  unfolding add
  add-refused_row env new w r made taken = rw made (rw taken refl)

  clash-same : (r x : R) → e.clashes r x ≡ true → not (same e r x) ≡ false
  clash-same r x h = ground arith

  -- The UNIQUE constraint refuses a row whose values another one has.
  pub add-clash :
      (env : Env) (new : ℕ → Option R) (w : World) (p : R → Bool) (s : R)
      → find p (e.rows w.db) ≡ some s
      → ((r x : R) → new (env.uuid4 w.draws) ≡ some r → p x ≡ true → e.clashes r x ≡ true)
      → (x : Error) × (add e env new w ≡ (err x, record w { draws = w.draws + 1 }))
  add-clash env new w p s found clash = elim (Option-cases (new (env.uuid4 w.draws))) [
    | inl long ↦ (data_error, add-refused env new w long)
    | inr (r, made) ↦ (
      integrity,
      add-refused_row env new w r made (
          refused_all p (λ x. not (same e r x)) (e.rows w.db) s
            (λ x h. clash-same r x (clash r x made h)) found),
    )
  ]
