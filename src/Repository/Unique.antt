-- ===== src/Repository/Unique.antt =====
-- Rows are distinct under the primary key and the UNIQUE constraints of their table, before and after
-- each write.
use crypto_brokerage.Base.{
  provided, false, ℕ, ◌≡◌, refl, Bool, true, not, ◌&&◌, Option, none, some, List, [], ◌∷◌, ◌++◌,
  arith, ◌==◌, and_then, ap, sym, ◌∙◌, find, all, Bool-cases, inl, inr,
}
use mathlib.Core.Option.{some-injective}
use crypto_brokerage.Session.{Db}
use crypto_brokerage.Repository.{Entity, same, replace}

pub both : (a b : Bool) → (a && b) ≡ true → (a ≡ true) × (b ≡ true)
both a b h = ground arith

module _ {R : Type 0} (e : Entity R) where
  -- No two rows agree in the primary key or under a UNIQUE constraint.
  abbrev pub Distinct : List R → Type 0
  Distinct [] = Unit
  Distinct (r ∷ rs) = (all (λ s. not (same e s r)) rs ≡ true) × Distinct rs

  -- The write changes no column under a constraint.
  pub record Spares (f : R → Option R) : Type 0 where
    pub before : (r r' s : R) → f r ≡ some r' → same e r' s ≡ same e r s
    pub behind : (r r' s : R) → f r ≡ some r' → same e s r' ≡ same e s r
    pub key : (r r' : R) → f r ≡ some r' → e.key r' ≡ e.key r
    pub refer : (r r' : R) (db : Db) → f r ≡ some r' → e.refers r' db ≡ e.refers r db

  -- A write of other columns spares the constraints.
  pub Spares-some :
      (g : R → R)
      → ((r s : R) → same e (g r) s ≡ same e r s)
      → ((r s : R) → same e s (g r) ≡ same e s r)
      → ((r : R) → e.key (g r) ≡ e.key r)
      → ((r : R) (db : Db) → e.refers (g r) db ≡ e.refers r db)
      → Spares (λ r. some (g r))
  Spares-some g before behind key refer = record {
    before = λ r r' s h. ap (λ x. same e x s) (sym (some-injective _ _ h)) ∙ before r s;
    behind = λ r r' s h. ap (λ x. same e s x) (sym (some-injective _ _ h)) ∙ behind r s;
    key = λ r r' h. ap e.key (sym (some-injective _ _ h)) ∙ key r;
    refer = λ r r' db h. ap (λ x. e.refers x db) (sym (some-injective _ _ h)) ∙ refer r db;
  }

  pub Spares-provided :
      (b : Bool) (g : R → R) → Spares (λ r. some (g r)) → Spares (λ r. provided b (g r))
  Spares-provided true g h = h
  Spares-provided false g h = record {
    before = λ r r' s k. absurd (cc k);
    behind = λ r r' s k. absurd (cc k);
    key = λ r r' k. absurd (cc k);
    refer = λ r r' db k. absurd (cc k);
  }

  pub Spares-and_then :
      {U : Type 0} (o : Option U) (f : U → R → Option R)
      → ((u : U) → Spares (f u))
      → Spares (λ r. and_then o (λ u. f u r))
  Spares-and_then none f h = record {
    before = λ r r' s k. absurd (cc k);
    behind = λ r r' s k. absurd (cc k);
    key = λ r r' k. absurd (cc k);
    refer = λ r r' db k. absurd (cc k);
  }
  Spares-and_then (some u) f h = record {
    before = (h u).before;
    behind = (h u).behind;
    key = (h u).key;
    refer = (h u).refer;
  }

  all_append :
      (p : R → Bool) (rs : List R) (r : R)
      → all p rs ≡ true
      → p r ≡ true
      → all p (rs ++ (r ∷ [])) ≡ true
  all_append p [] r h k = ground arith
  all_append p (s ∷ rs) r h k = ground (arith, all_append p rs r)

  all-ext : (p q : R → Bool) (rs : List R) → ((s : R) → p s ≡ q s) → all p rs ≡ all q rs
  all-ext p q [] h = refl
  all-ext p q (s ∷ rs) h = rw (h s, all-ext p q rs h)

  all-replace :
      (p : R → Bool) (i : ℕ) (rs : List R) (r r' : R)
      → find (λ s. e.key s == i) rs ≡ some r
      → p r' ≡ p r
      → all p (replace e i r' rs) ≡ all p rs
  all-replace p i [] r r' h k = refl
  all-replace p i (s ∷ rs) r r' h k = elim (Bool-cases (e.key s == i)) [
    | inl at ↦ let found : s ≡ r = some-injective _ _ (rw at at h) in rw at (rw (k, found))
    | inr past ↦ rw past (rw (all-replace p i rs r r' (rw past at h) k))
  ]

  pub Distinct-append :
      (rs : List R) (r : R)
      → Distinct rs
      → all (λ s. not (same e r s)) rs ≡ true
      → Distinct (rs ++ (r ∷ []))
  Distinct-append [] r d h = (refl, tt)
  Distinct-append (s ∷ rs) r d h =
      let (new, rest) = both (not (same e r s)) (all (λ t. not (same e r t)) rs) h in
      (all_append (λ t. not (same e t s)) rs r d.0 new, Distinct-append rs r d.1 rest)

  pub Distinct-replace :
      (i : ℕ) (f : R → Option R) (rs : List R) (r r' : R)
      → Spares f
      → find (λ s. e.key s == i) rs ≡ some r
      → f r ≡ some r'
      → Distinct rs
      → Distinct (replace e i r' rs)
  Distinct-replace i f [] r r' sp h k d = tt
  Distinct-replace i f (s ∷ rs) r r' sp h k d = elim (Bool-cases (e.key s == i)) [
    | inl at ↦
        let found : s ≡ r = some-injective _ _ (rw at at h) in
        let moved : all (λ t. not (same e t r')) rs ≡ all (λ t. not (same e t r)) rs =
          all-ext _ _ rs (λ t. ap not (sp.behind r r' t k)) in
        rw at (moved ∙ ap (λ x. all (λ t. not (same e t x)) rs) (sym found) ∙ d.0, d.1)
    | inr past ↦
        let later : find (λ t. e.key t == i) rs ≡ some r = rw past at h in
        let kept : not (same e r' s) ≡ not (same e r s) = ap not (sp.before r r' s k) in
        rw past (
          all-replace (λ t. not (same e t s)) i rs r r' later kept ∙ d.0,
          Distinct-replace i f rs r r' sp later k d.1,
        )
  ]
