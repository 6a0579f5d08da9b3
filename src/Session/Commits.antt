-- ===== src/Session/Commits.antt =====
-- Invariants of what a request commits: an action that raises is rolled back, so only the worlds
-- that it returns from count.
use crypto_brokerage.Base.{◌≡◌, refl, Bool, true, false, Option, if◌then◌else◌, ap, subst}
use crypto_brokerage.Errors.{Result, ok, err, Error}
use crypto_brokerage.Session.{Db, World, Exec, ◌>>=◌, raise, translating, settle, request}
use crypto_brokerage.Session.Keeps.{Keeps}
use crypto_brokerage.Session.Outcome.{Returns, bind-Returns, translating-Returns}

-- If the action returns, it leaves tables that satisfy `P` if it found such tables.
pub record Commits {A : Type 0} (P : Db → Type 0) (m : Exec A) : Type 0 where
  pub on_return : (w : World) (a : A) (w' : World) → Returns m w a w' → P w.db → P w'.db

Commits-settle :
    {A : Type 0} (P : Db → Type 0) (before : Db) (r : Result A) (w : World)
    → P before
    → ((a : A) → r ≡ ok a → P w.db)
    → P (settle before r w).1.db
Commits-settle P before (ok a) w hb hw = hw a refl
Commits-settle P before (err e) w hb hw = hb

module _ {P : Db → Type 0} where
  module _ {A : Type 0} where
    pub Keeps-Commits : (m : Exec A) → Keeps P m → Commits P m
    Keeps-Commits m k = record {
      on_return = λ w a w' r h. subst P (ap (λ (p : Result A × World). p.1.db) r) (k.after w h);
    }

    pub Commits-raise : (e : Error) → Commits P (raise {A = A} e)
    Commits-raise e = record { on_return = λ w a w' r h. cc r }

    pub Commits-if :
        (b : Bool) (m n : Exec A) → Commits P m → Commits P n → Commits P (if b then m else n)
    Commits-if true m n km kn = km
    Commits-if false m n km kn = kn

    -- The commit or the rollback of the request establishes `P`.
    pub Commits-request : (m : Exec A) → Commits P m → Keeps P (request m)
    unfolding request
    Commits-request m k = record {
      after = λ w h.
          Commits-settle P w.db (m w).0 (m w).1 h
            (λ a e. k.on_return w a (m w).1 (λ i. (e i, (m w).1)) h);
    }

  module _ {A : Type 0} where
    pub Commits-translating :
        (m : Exec A) (f : Error → Option Error) → Commits P m → Commits P (translating m f)
    Commits-translating m f k = record {
      on_return = λ w a w' r h. k.on_return w a w' (translating-Returns m f w a w' r) h;
    }

  module _ {A B : Type 0} where
    pub Commits-bind :
        (m : Exec A) (f : A → Exec B)
        → Commits P m
        → ((a : A) → Commits P (f a))
        → Commits P (m >>= f)
    Commits-bind m f km kf = record {
      on_return = λ w b w' r h.
          let (a, first, rest) = bind-Returns m f w b w' r in
          (kf a).on_return (m w).1 b w' rest (km.on_return w a (m w).1 first h);
    }
