-- ===== src/Session/Keeps.antt =====
-- Invariants of a session: what an action keeps, by rules for each way to build an action.
use crypto_brokerage.Base.{Bool, true, false, Option, none, some, List, if◌then◌else◌}
use crypto_brokerage.Errors.{Error, Result, ok, err}
use crypto_brokerage.Gateways.{Call}
use crypto_brokerage.Env.{Env}
use crypto_brokerage.Session.{
  Db, World, Exec, continue, ◌>>=◌, pure, raise, query, or_raise, raise_if, lift, translating, now,
  uuid4, salt, dial, on_exception, rescue, request, settle,
}

-- Whether it returns or raises, the action leaves tables that satisfy `P` if it found such tables.
pub record Keeps {A : Type 0} (P : Db → Type 0) (m : Exec A) : Type 0 where
  pub after : (w : World) → P w.db → P (m w).1.db

Keeps-settle :
    {A : Type 0} (P : Db → Type 0) (before : Db) (r : Result A) (w : World)
    → P before
    → P w.db
    → P (settle before r w).1.db
Keeps-settle P before (ok a) w hb hw = hw
Keeps-settle P before (err e) w hb hw = hb

module _ {P : Db → Type 0} where
  module _ {A : Type 0} where
    pub Keeps-pure : (a : A) → Keeps P (pure a)
    Keeps-pure a = record { after = λ w h. h }

    pub Keeps-raise : (e : Error) → Keeps P (raise {A = A} e)
    Keeps-raise e = record { after = λ w h. h }

    pub Keeps-query : (f : Db → A) → Keeps P (query f)
    Keeps-query f = record { after = λ w h. h }

    pub Keeps-or_raise : (e : Error) (o : Option A) → Keeps P (or_raise e o)
    Keeps-or_raise e none = Keeps-raise e
    Keeps-or_raise e (some a) = Keeps-pure a

    pub Keeps-lift : (r : Result A) → Keeps P (lift r)
    Keeps-lift r = record { after = λ w h. h }

    pub Keeps-translating :
        (m : Exec A) (f : Error → Option Error) → Keeps P m → Keeps P (translating m f)
    Keeps-translating m f k = record { after = λ w h. k.after w h }

    pub Keeps-dial : (c : Call) (f : List Call → Result A) → Keeps P (dial c f)
    Keeps-dial c f = record { after = λ w h. h }

  pub Keeps-now : Keeps P now
  Keeps-now = record { after = λ w h. h }

  pub Keeps-salt : Keeps P salt
  Keeps-salt = record { after = λ w h. h }

  pub Keeps-uuid4 : (env : Env) → Keeps P (uuid4 env)
  Keeps-uuid4 env = record { after = λ w h. h }

  pub Keeps-raise_if : (b : Bool) (e : Error) → Keeps P (raise_if b e)
  Keeps-raise_if true e = record { after = λ w h. h }
  Keeps-raise_if false e = record { after = λ w h. h }

  module _ {A B : Type 0} where
    Keeps-continue :
        (f : A → Exec B) (r : Result A) → ((a : A) → Keeps P (f a)) → Keeps P (continue f r)
    Keeps-continue f (ok a) kf = record { after = λ w h. (kf a).after w h }
    Keeps-continue f (err e) kf = record { after = λ w h. h }

    pub Keeps-bind :
        (m : Exec A) (f : A → Exec B) → Keeps P m → ((a : A) → Keeps P (f a)) → Keeps P (m >>= f)
    Keeps-bind m f km kf = record {
      after = λ w h. (Keeps-continue f (m w).0 kf).after (m w).1 (km.after w h);
    }

  module _ {A : Type 0} where
    pub Keeps-if : (b : Bool) (m n : Exec A) → Keeps P m → Keeps P n → Keeps P (if b then m else n)
    Keeps-if true m n km kn = km
    Keeps-if false m n km kn = kn

    Keeps-rescue :
        (recover : Exec (Unit {0})) (r : Result A) → Keeps P recover → Keeps P (rescue recover r)
    Keeps-rescue recover (ok a) k = record { after = λ w h. h }
    Keeps-rescue recover (err e) k = record {
      after = λ w h. (Keeps-bind recover _ k (λ _. Keeps-raise {A = A} e)).after w h;
    }

    pub Keeps-on_exception :
        (m : Exec A) (recover : Exec (Unit {0}))
        → Keeps P m
        → Keeps P recover
        → Keeps P (on_exception m recover)
    Keeps-on_exception m recover km kr = record {
      after = λ w h. (Keeps-rescue recover (m w).0 kr).after (m w).1 (km.after w h);
    }

    -- A request that keeps `P` inside its transaction keeps it across the commit or the rollback.
    pub Keeps-request : (m : Exec A) → Keeps P m → Keeps P (request m)
    unfolding request
    Keeps-request m k = record {
      after = λ w h. Keeps-settle P w.db (m w).0 (m w).1 h (k.after w h);
    }

pub ruleset keeps_rules = (
  Keeps-pure, Keeps-raise, Keeps-query, Keeps-or_raise, Keeps-dial, Keeps-now, Keeps-salt,
  Keeps-lift, Keeps-translating, Keeps-uuid4, Keeps-raise_if, Keeps-bind, Keeps-if,
  Keeps-on_exception,
)
