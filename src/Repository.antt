-- ===== src/Repository.antt =====
-- app/repositories/base.py: `BaseRepository`, generic in the table. A flush runs the constraints
-- that the models declare: the lengths of texts, the primary key, UNIQUE and FOREIGN KEY. No update of
-- the program changes a column under a key, so an UPDATE checks only the lengths and that its row is
-- there.
pub mod Unique
pub mod Fits
pub mod Writes
pub mod Inserted
pub mod Found
pub mod Admitted
use crypto_brokerage.Base.{
  ℕ, ◌+◌, Bool, true, false, not, ◌&&◌, ◌||◌, Option, none, some, List, [], ◌∷◌, ◌++◌, ◌==◌, find,
  all, is_some, provided, if◌then◌else◌,
}
use crypto_brokerage.Base.Pages.{ascending, sort_by, page}
use crypto_brokerage.Errors.{Result, Error, ok, err, integrity, data_error, stale_data}
use crypto_brokerage.Env.{Env}
use crypto_brokerage.Session.{Db, World, Exec, ◌>>=◌, pure, raise, query, uuid4}

-- What `BaseRepository` needs of a model: its table, primary key and constraints.
pub record Entity (R : Type 0) : Type 0 where
  pub key : R → ℕ
  pub rows : Db → List R
  pub put : List R → Db → Db
  -- the UNIQUE constraints: these two rows cannot both be in the table
  pub clashes : R → R → Bool
  -- the FOREIGN KEY constraints: all the rows that this one names are there
  pub refers : R → Db → Bool

-- The row to write, if its columns can hold its texts.
abbrev pub stored : {R : Type 0} → (R → Bool) → R → Option R
stored row_fits r = provided (row_fits r) r

module _ {R : Type 0} (e : Entity R) where
  -- The two rows agree in the primary key or under a UNIQUE constraint.
  abbrev pub same : R → R → Bool
  same r s = e.key r == e.key s || e.clashes r s

  abbrev pub admits : Db → R → Bool
  admits db r = all (λ s. not (same r s)) (e.rows db) && e.refers r db

  -- `get_by_id`
  unfoldable pub get_by_id : ℕ → Exec (Option R)
  get_by_id i = query (λ db. find (λ r. e.key r == i) (e.rows db))

  -- INSERT and the refresh
  abbrev pub insert : Option R → Exec R
  insert none w = (err data_error, w)
  insert (some r) w =
      if admits w.db r
      then (ok r, record w { db = e.put (e.rows w.db ++ (r ∷ [])) w.db })
      else (err integrity, w)

  -- `add`: the primary key is drawn when the row is flushed.
  unfoldable pub add : Env → (ℕ → Option R) → Exec R
  add env new = do i ← uuid4 env; insert (new i)

  abbrev pub replace : ℕ → R → List R → List R
  replace i new [] = []
  replace i new (r ∷ rs) = if e.key r == i then new ∷ rs else r ∷ replace i new rs

  abbrev pub rewrite : ℕ → Option (Option R) → Exec R
  rewrite i none w = (err stale_data, w)
  rewrite i (some none) w = (err data_error, w)
  rewrite i (some (some r)) w = (ok r, record w { db = e.put (replace i r (e.rows w.db)) w.db })

  abbrev pub edited : (R → Option R) → Option R → Option (Option R)
  edited f none = none
  edited f (some r) = some (f r)

  -- `update`: the changed columns of the row with this key, and the refreshed row.
  unfoldable pub update : ℕ → (R → Option R) → Exec R
  update i f w = rewrite i (edited f (find (λ r. e.key r == i) (e.rows w.db))) w

  -- `get_all`; the keys are compared as numbers.
  unfoldable pub get_all : ℕ → ℕ → Exec (List R)
  get_all limit offset = query (λ db. page limit offset (sort_by ascending e.key (e.rows db)))

  abbrev pub removed : Result Db → Exec (Unit {0})
  removed (ok db) w = (ok tt, record w { db = db })
  removed (err x) w = (err x, w)

  -- `delete`: `removal` is the tables without the row and what the cascades of the ORM take with it,
  -- or the error of the flush.
  unfoldable pub delete : (R → Db → Result Db) → R → Exec (Unit {0})
  delete removal entity w = removed (removal entity w.db) w
