-- ===== src/Session/Outcome.antt =====
-- Taking a finished action apart: what a success or a failure of a whole says of its steps.
use crypto_brokerage.Base.{◌≡◌, refl, ap, ◌∙◌, ◌⊎◌, inl, inr, Option}
use crypto_brokerage.Errors.{Error, Result, ok, err}
use crypto_brokerage.Session.{
  World, Exec, continue, ◌>>=◌, pure, raise, rescue, on_exception, translate, translating, request,
}

-- `m` started at `w` returns `a` and leaves the world `w'`.
abbrev pub Returns : {A : Type 0} → Exec A → World → A → World → Type 0
Returns m w a w' = m w ≡ (ok a, w')

-- `m` started at `w` raises `e`; what the tables are then is left open.
abbrev pub Raises : {A : Type 0} → Exec A → World → Error → Type 0
Raises m w e = (m w).0 ≡ err e

module _ {A B : Type 0} where
  continue-Returns :
      (f : A → Exec B) (r : Result A) (w : World) (b : B) (w' : World)
      → continue f r w ≡ (ok b, w')
      → (a : A) × (r ≡ ok a) × (f a w ≡ (ok b, w'))
  continue-Returns f (ok a) w b w' h = (a, refl, h)
  continue-Returns f (err e) w b w' h = cc

  -- A sequence returns only if both of its parts do.
  pub bind-Returns :
      (m : Exec A) (f : A → Exec B) (w : World) (b : B) (w' : World)
      → Returns (m >>= f) w b w'
      → (a : A) × (m w ≡ (ok a, (m w).1)) × Returns (f a) (m w).1 b w'
  bind-Returns m f w b w' h =
      let (a, e, rest) = continue-Returns f (m w).0 (m w).1 b w' h in
      (a, (λ i. (e i, (m w).1)), rest)

  -- A sequence whose first part raises ends there, with the world that this part left.
  pub bind_err :
      (m : Exec A) (f : A → Exec B) (w : World) (e : Error)
      → (m w).0 ≡ err e
      → (m >>= f) w ≡ (err e, (m w).1)
  bind_err m f w e h = rw h

  pub bind_ok :
      (m : Exec A) (f : A → Exec B) (w : World) (a : A) → (m w).0 ≡ ok a → (m >>= f) w ≡ f a (m w).1
  bind_ok m f w a h = rw h

module _ {A : Type 0} where
  pub Result-cases : (r : Result A) → ((a : A) × (r ≡ ok a)) ⊎ ((e : Error) × (r ≡ err e))
  Result-cases (ok a) = inl (a, refl)
  Result-cases (err e) = inr (e, refl)

  rescue-Returns :
      (recover : Exec (Unit {0})) (r : Result A) (w : World) (a : A) (w' : World)
      → rescue recover r w ≡ (ok a, w')
      → ◌≡◌ {A = Result A × World} (r, w) (ok a, w')
  rescue-Returns recover (ok b) w a w' h = h
  rescue-Returns recover (err e) w a w' h =
      let (u, _, raised) = bind-Returns recover (λ _. raise e) w a w' h in cc raised

  -- The handler of `on_exception` raises again, so what it guards has returned by itself.
  pub on_exception-Returns :
      (m : Exec A) (recover : Exec (Unit {0})) (w : World) (a : A) (w' : World)
      → Returns (on_exception m recover) w a w'
      → Returns m w a w'
  on_exception-Returns m recover w a w' h = rescue-Returns recover (m w).0 (m w).1 a w' h

  -- The handler runs, and the exception goes on.
  pub on_exception_err :
      (m : Exec A) (recover : Exec (Unit {0})) (w w1 w2 : World) (e : Error)
      → m w ≡ (err e, w1)
      → recover w1 ≡ (ok tt, w2)
      → on_exception m recover w ≡ (err e, w2)
  on_exception_err m recover w w1 w2 e h k = rw h (rw k)

  translate-Returns :
      (f : Error → Option Error) (r : Result A) (w : World) (a : A) (w' : World)
      → ◌≡◌ {A = Result A × World} (translate f r, w) (ok a, w')
      → ◌≡◌ {A = Result A × World} (r, w) (ok a, w')
  translate-Returns f (ok b) w a w' h = h
  translate-Returns f (err e) w a w' h = absurd (cc h)

  -- What returns through `except` clauses has returned by itself.
  pub translating-Returns :
      (m : Exec A) (f : Error → Option Error) (w : World) (a : A) (w' : World)
      → Returns (translating m f) w a w'
      → Returns m w a w'
  translating-Returns m f w a w' h = translate-Returns f (m w).0 (m w).1 a w' h

  -- A request that returns is committed.
  pub request_ok : (m : Exec A) (w w' : World) (a : A) → m w ≡ (ok a, w') → request m w ≡ (ok a, w')
  unfolding request
  request_ok m w w' a h = rw h refl

  -- A request that raises is rolled back.
  pub request_err :
      (m : Exec A) (w w' : World) (e : Error)
      → m w ≡ (err e, w')
      → request m w ≡ (err e, record w' { db = w.db })
  unfolding request
  request_err m w w' e h = rw h

  -- A request raises what its action raises.
  pub request_raised :
      (m : Exec A) (w : World) (e : Error) → Raises (request m) w e → m w ≡ (err e, (m w).1)
  unfolding request
  request_raised m w e h = elim (Result-cases (m w).0) [
    | inl (a, k) ↦ let bad = rw k at h in absurd (cc bad)
    | inr (x, k) ↦ let same = rw k at h in λ i. ((k ∙ same) i, (m w).1)
  ]

  pub pure-Returns : (a b : A) (w w' : World) → Returns (pure a) w b w' → (a ≡ b) × (w ≡ w')
  pure-Returns a b w w' h = (cc h, ap (λ (p : Result A × World). p.1) h)
