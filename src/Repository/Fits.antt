-- ===== src/Repository/Fits.antt =====
-- The rows of a table keep its constraints before and after each write: they are distinct, the rows
-- that they name are there, and no row that another one may name is gone.
use crypto_brokerage.Base.{
  ℕ, ◌≡◌, refl, Bool, true, false, not, Option, none, some, List, [], ◌∷◌, ◌++◌, arith, ◌==◌, ◌+◌,
  is_some, if◌then◌else◌, All, All-append, ap, sym, ◌∙◌, find, all, Bool-cases, Option-cases, inl,
  inr,
}
use mathlib.Core.Option.{some-injective}
use crypto_brokerage.Session.{Db, World}
use crypto_brokerage.Session.Keeps.{Keeps}
use crypto_brokerage.Env.{Env}
use crypto_brokerage.Repository.{
  Entity, same, admits, insert, add, replace, rewrite, edited, update,
}
use crypto_brokerage.Repository.Unique.{both, Distinct, Distinct-append, Distinct-replace, Spares}

module _ {R : Type 0} where
  present_head :
      (k l j : ℕ) (a b : R) (o : Option R)
      → k ≡ l
      → is_some (if k == j then some a else o) ≡ is_some (if l == j then some b else o)
  present_head k l j a b o same_key = ground arith

  present-cons :
      (b : Bool) (s : R) (x y : Option R)
      → is_some x ≡ is_some y
      → is_some (if b then some s else x) ≡ is_some (if b then some s else y)
  present-cons true s x y q = refl
  present-cons false s x y q = q

module _ {R : Type 0} (e : Entity R) where
  -- There is a row with this key.
  abbrev pub present : ℕ → List R → Bool
  present i rs = is_some (find (λ r. e.key r == i) rs)

  -- The rows that these rows name are there.
  abbrev pub Refer : Db → List R → Type 0
  Refer db rs = All (λ r. e.refers r db ≡ true) rs

  -- The rows can stand for those of the table: they keep its constraints, and no row is gone.
  pub record Fits (db : Db) (rs : List R) : Type 0 where
    pub distinct : Distinct e rs
    pub kept : (i : ℕ) → present i (e.rows db) ≡ true → present i rs ≡ true
    pub refer : Refer db rs

  present-append :
      (i : ℕ) (rs : List R) (r : R) → present i rs ≡ true → present i (rs ++ (r ∷ [])) ≡ true
  present-append i [] r h = cc
  present-append i (s ∷ rs) r h = ground (arith, present-append i rs r)

  present-replace :
      (i j : ℕ) (rs : List R) (r r' : R)
      → find (λ s. e.key s == i) rs ≡ some r
      → e.key r' ≡ e.key r
      → present j (replace e i r' rs) ≡ present j rs
  present-replace i j [] r r' h k = refl
  present-replace i j (s ∷ rs) r r' h k = elim (Bool-cases (e.key s == i)) [
    | inl at ↦
        let found : s ≡ r = some-injective _ _ (rw at at h) in
        let own : e.key r' ≡ e.key s = k ∙ ap e.key (sym found) in
        rw at (present_head (e.key r') (e.key s) j r' s _ own)
    | inr past ↦
        rw past (present-cons (e.key s == j) s _ _ (present-replace i j rs r r' (rw past at h) k))
  ]

  Refer-replace :
      (db : Db) (i : ℕ) (rs : List R) (r r' : R)
      → find (λ s. e.key s == i) rs ≡ some r
      → e.refers r' db ≡ e.refers r db
      → Refer db rs
      → Refer db (replace e i r' rs)
  Refer-replace db i [] r r' h k a = tt
  Refer-replace db i (s ∷ rs) r r' h k a = elim (Bool-cases (e.key s == i)) [
    | inl at ↦
        let found : s ≡ r = some-injective _ _ (rw at at h) in
        rw at (k ∙ ap (λ x. e.refers x db) (sym found) ∙ a.0, a.1)
    | inr past ↦ rw past (a.0, Refer-replace db i rs r r' (rw past at h) k a.1)
  ]

  Fits-append :
      (db : Db) (r : R)
      → Distinct e (e.rows db)
      → Refer db (e.rows db)
      → admits e db r ≡ true
      → Fits db (e.rows db ++ (r ∷ []))
  Fits-append db r d a h =
      let (new, refers) = both (all (λ s. not (same e r s)) (e.rows db)) (e.refers r db) h in
      record {
        distinct = Distinct-append e (e.rows db) r d new;
        kept = λ i. present-append i (e.rows db) r;
        refer = All-append _ (e.rows db) (r ∷ []) a (refers, tt);
      }

  Fits-replace :
      (db : Db) (i : ℕ) (f : R → Option R) (r r' : R)
      → Spares e f
      → find (λ s. e.key s == i) (e.rows db) ≡ some r
      → f r ≡ some r'
      → Distinct e (e.rows db)
      → Refer db (e.rows db)
      → Fits db (replace e i r' (e.rows db))
  Fits-replace db i f r r' sp at k d a = record {
    distinct = Distinct-replace e i f (e.rows db) r r' sp at k d;
    kept = λ j h. present-replace i j (e.rows db) r r' at (sp.key r r' k) ∙ h;
    refer = Refer-replace db i (e.rows db) r r' at (sp.refer r r' db k) a;
  }

  -- What a write leaves keeps the constraints if the table did. `P` is the same of all the tables: it follows
  -- from its part for this table and from its part for the others, which a write spares.
  module _ (P : Db → Type 0)
      (of_rows : (rs : List R) (db : Db) → P db → Fits db rs → P (e.put rs db))
      (to_rows : (db : Db) → P db → Distinct e (e.rows db) × Refer db (e.rows db)) where
    insert-Keeps : (o : Option R) → Keeps P (insert e o)
    insert-Keeps none = record { after = λ w h. h }
    insert-Keeps (some r) = record {
      after = λ w h. elim (Bool-cases (admits e w.db r)) [
        | inl fits ↦
            let (d, a) = to_rows w.db h in rw fits (of_rows _ w.db h (Fits-append w.db r d a fits))
        | inr refused ↦ rw refused h
      ];
    }

    pub add-Keeps : (env : Env) (new : ℕ → Option R) → Keeps P (add e env new)
    unfolding add
    add-Keeps env new = record {
      after = λ w h.
          (insert-Keeps (new (env.uuid4 w.draws))).after (record w { draws = w.draws + 1 }) h;
    }

    rewrite-Keeps :
        (i : ℕ) (f : R → Option R) (w : World) (found : Option R)
        → Spares e f
        → find (λ r. e.key r == i) (e.rows w.db) ≡ found
        → P w.db
        → P (rewrite e i (edited e f found) w).1.db
    rewrite-Keeps i f w none sp at h = h
    rewrite-Keeps i f w (some r) sp at h = elim (Option-cases (f r)) [
      | inl over ↦ rw over h
      | inr (r', k) ↦
          let (d, a) = to_rows w.db h in
          rw k (of_rows _ w.db h (Fits-replace w.db i f r r' sp at k d a))
    ]

    pub update-Keeps : (i : ℕ) (f : R → Option R) → Spares e f → Keeps P (update e i f)
    unfolding update
    update-Keeps i f sp = record { after = λ w h. rewrite-Keeps i f w _ sp refl h }
