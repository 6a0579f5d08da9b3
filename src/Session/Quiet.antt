-- ===== src/Session/Quiet.antt =====
-- Actions that only look: whether they return or raise, the world is as before. Rules for each way to
-- build such an action.
use crypto_brokerage.Base.{◌≡◌, refl, ◌∙◌, Bool, true, false, Option, none, some}
use crypto_brokerage.Errors.{Error, Result, ok, err}
use crypto_brokerage.Session.{
  Db, World, Exec, continue, ◌>>=◌, pure, raise, query, or_raise, raise_if,
}

pub record Quiet {A : Type 0} (m : Exec A) : Type 0 where
  pub same : (w : World) → (m w).1 ≡ w

module _ {A : Type 0} where
  pub Quiet-pure : (a : A) → Quiet (pure a)
  Quiet-pure a = record { same = λ w. refl }

  pub Quiet-raise : (e : Error) → Quiet (raise {A = A} e)
  Quiet-raise e = record { same = λ w. refl }

  pub Quiet-query : (f : Db → A) → Quiet (query f)
  Quiet-query f = record { same = λ w. refl }

  pub Quiet-or_raise : (e : Error) (o : Option A) → Quiet (or_raise e o)
  Quiet-or_raise e none = Quiet-raise e
  Quiet-or_raise e (some a) = Quiet-pure a

pub Quiet-raise_if : (b : Bool) (e : Error) → Quiet (raise_if b e)
Quiet-raise_if true e = record { same = λ w. refl }
Quiet-raise_if false e = record { same = λ w. refl }

module _ {A B : Type 0} where
  Quiet-continue : (f : A → Exec B) (r : Result A) → ((a : A) → Quiet (f a)) → Quiet (continue f r)
  Quiet-continue f (ok a) kf = record { same = λ w. (kf a).same w }
  Quiet-continue f (err e) kf = record { same = λ w. refl }

  pub Quiet-bind :
      (m : Exec A) (f : A → Exec B) → Quiet m → ((a : A) → Quiet (f a)) → Quiet (m >>= f)
  Quiet-bind m f km kf = record {
    same = λ w. (Quiet-continue f (m w).0 kf).same (m w).1 ∙ km.same w;
  }

pub ruleset quiet_rules =
    (Quiet-pure, Quiet-raise, Quiet-query, Quiet-or_raise, Quiet-raise_if, Quiet-bind)
