-- ===== src/Api/Guarded.antt =====
-- The routes behind `CurrentUser` of app/api/deps.py: who comes in, and what the others are answered.
use crypto_brokerage.Base.{
  ℕ, ◌≡◌, refl, ap, sym, ◌∙◌, ◌⊎◌, inl, inr, false, Bool-cases, Option, String, arith,
}
use crypto_brokerage.Models.{User}
use crypto_brokerage.Errors.{Error, err, http_exception}
use crypto_brokerage.Env.{Env}
use crypto_brokerage.Session.{World, Exec, request}
use crypto_brokerage.Session.Outcome.{Returns}
use crypto_brokerage.Api.{
  active_user, get_current_user, authenticated, respond, Response, Problem, problem_of, status_of,
}
use crypto_brokerage.Api.Current.{
  IsNamed, IsCurrent, named_user, get_current_user-accepts, get_current_user_cases,
}

module _ (env : Env) {A : Type 0} (code : ℕ) (header : Option String) (handler : User → Exec A)
    (w : World) where
  abbrev pub guarded : Response A × World
  guarded = respond code (authenticated env header handler) w

  guarded_passed :
      (u : User)
      → Returns (get_current_user env header) w u w
      → guarded ≡ respond code (handler u) w
  unfolding respond request
  guarded_passed u h = rw h refl

  guarded_stopped :
      (e : Error)
      → get_current_user env header w ≡ (err e, w)
      → guarded ≡ (Response.problem (problem_of e), w)
  unfolding respond request
  guarded_stopped e h = rw h refl

  stopped-IsNamed :
      (e : Error)
      → get_current_user env header w ≡ (err e, w)
      → (status_of e ≡ 401) ⊎ (status_of e ≡ 500)
      → ¬ ((u : User) × IsNamed env header w u)
  stopped-IsNamed e h s (u, n) =
      let stopped : active_user u w ≡ (err e, w) = sym (named_user env header w u n) ∙ h in
      elim (Bool-cases u.is_active) [
        | inl on ↦ let bad = rw on at stopped in absurd (cc bad)
        | inr off ↦
            let own : http_exception 403 ≡ e = cc (rw off at stopped) in
            let is_403 : 403 ≡ status_of e = ap status_of own in
            elim s [ inl t ↦ omega (arith, is_403, t) | inr t ↦ omega (arith, is_403, t) ]
      ]

  -- A route behind authentication, at any time and with any header: either the token of the header is
  -- valid, its user is there and active, and the route answers and does what its handler does for that
  -- user; or its user is there but not active, and the answer is 403; or the header names no user, and
  -- the answer is 401 or 500. In the last two cases nothing is written and no gateway is called.
  pub guarded_cases :
      ((u : User) × IsCurrent env header w u × (guarded ≡ respond code (handler u) w))
      ⊎ ((p : Problem) × (guarded ≡ (Response.problem p, w))
          × (((p.status ≡ 403) × (u : User) × IsNamed env header w u × (u.is_active ≡ false))
              ⊎ ((¬ ((u : User) × IsNamed env header w u))
                  × ((p.status ≡ 401) ⊎ (p.status ≡ 500)))))
  guarded_cases = elim (get_current_user_cases env header w) [
    | inr (e, h, s) ↦ inr (problem_of e, guarded_stopped e h, inr (stopped-IsNamed e h s, s))
    | inl (u, named) ↦ elim (Bool-cases u.is_active) [
      | inl on ↦
          let current : IsCurrent env header w u = record { named = named; active = on } in
          inl (u, current, guarded_passed u (get_current_user-accepts env header w u current))
      | inr off ↦
          let refused = named_user env header w u named ∙ rw off refl in
          inr (
            problem_of (http_exception 403),
            guarded_stopped (http_exception 403) refused,
            inl (refl, u, named, off),
          )
    ]
  ]
