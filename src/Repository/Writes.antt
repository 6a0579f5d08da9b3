-- ===== src/Repository/Writes.antt =====
-- What an INSERT or an UPDATE that returns has done, and what it spares.
use crypto_brokerage.Base.{
  ℕ, ◌+◌, ◌≡◌, refl, Bool, true, false, Option, none, some, List, [], ◌∷◌, ◌++◌, ◌==◌, find, ap,
  sym, ◌∙◌, if◌then◌else◌, Option-cases, Bool-cases, ◌⊎◌, inl, inr,
}
use crypto_brokerage.Errors.{Error, Result, ok, err, integrity, data_error}
use crypto_brokerage.Env.{Env}
use crypto_brokerage.Session.{Db, World}
use crypto_brokerage.Session.Keeps.{Keeps}
use crypto_brokerage.Session.Outcome.{Returns}
use crypto_brokerage.Repository.{Entity, admits, insert, add, replace, rewrite, edited, update}

module _ {R : Type 0} (e : Entity R) where
  -- The world with the row at the end of its table.
  abbrev pub with_row : World → R → World
  with_row w r = record w { db = e.put (e.rows w.db ++ (r ∷ [])) w.db }

  insert_row-Returns :
      (b : Bool) (w : World) (r r' : R) (w' : World)
      → ◌≡◌ {A = Result R × World}
          (if b then (ok r, with_row w r) else (err integrity, w))
          (ok r', w')
      → (r ≡ r') × (b ≡ true) × (with_row w r ≡ w')
  insert_row-Returns true w r r' w' h = (cc h, refl, ap (λ (p : Result R × World). p.1) h)
  insert_row-Returns false w r r' w' h = absurd (cc h)

  insert-Returns :
      (o : Option R) (w : World) (r : R) (w' : World)
      → Returns (insert e o) w r w'
      → (o ≡ some r) × (admits e w.db r ≡ true) × (w' ≡ with_row w r)
  insert-Returns none w r w' h = absurd (cc h)
  insert-Returns (some s) w r w' h =
      let (same_row, fits, left) = insert_row-Returns (admits e w.db s) w s r w' h in
      (ap some same_row, rw same_row at fits, sym left ∙ ap (with_row w) same_row)

  -- An INSERT that returns has drawn a key, met the constraints and added the row to its table.
  pub add-Returns :
      (env : Env) (new : ℕ → Option R) (w : World) (r : R) (w' : World)
      → Returns (add e env new) w r w'
      → (new (env.uuid4 w.draws) ≡ some r)
        × (admits e w.db r ≡ true)
        × (w' ≡ with_row (record w { draws = w.draws + 1 }) r)
  unfolding add
  add-Returns env new w r w' h =
      insert-Returns (new (env.uuid4 w.draws)) (record w { draws = w.draws + 1 }) r w' h

  rewrite-Returns :
      (i : ℕ) (f : R → Option R) (found : Option R) (w : World) (r : R) (w' : World)
      → rewrite e i (edited e f found) w ≡ (ok r, w')
      → (s : R) × (found ≡ some s)
        × (f s ≡ some r)
        × (w' ≡ record w { db = e.put (replace e i r (e.rows w.db)) w.db })
  rewrite-Returns i f none w r w' h = absurd (cc h)
  rewrite-Returns i f (some s) w r w' h = elim (Option-cases (f s)) [
    | inl over ↦ let bad = rw over at h in absurd (cc bad)
    | inr (t, k) ↦
        let done = rw k at h in
        let same_row : t ≡ r = cc done in
        (
          s,
          refl,
          k ∙ ap some same_row,
          sym (ap (λ (p : Result R × World). p.1) done)
              ∙ ap (λ x. record w { db = e.put (replace e i x (e.rows w.db)) w.db }) same_row,
        )
  ]

  -- An UPDATE that returns has found its row and put the changed one in its place.
  pub update-Returns :
      (i : ℕ) (f : R → Option R) (w : World) (r : R) (w' : World)
      → Returns (update e i f) w r w'
      → (s : R) × (find (λ t. e.key t == i) (e.rows w.db) ≡ some s)
        × (f s ≡ some r)
        × (w' ≡ record w { db = e.put (replace e i r (e.rows w.db)) w.db })
  unfolding update
  update-Returns i f w r w' h = rewrite-Returns i f _ w r w' h

  -- What a row at the end of a table leaves is kept by the inserts.
  module _ (P : Db → Type 0)
      (appended : (r : R) (db : Db) → P db → P (e.put (e.rows db ++ (r ∷ [])) db)) where
    insert_appends : (o : Option R) → Keeps P (insert e o)
    insert_appends none = record { after = λ w h. h }
    insert_appends (some r) = record {
      after = λ w h. elim (Bool-cases (admits e w.db r)) [
        | inl fits ↦ rw fits (appended r w.db h)
        | inr refused ↦ rw refused h
      ];
    }

    pub add_appends : (env : Env) (new : ℕ → Option R) → Keeps P (add e env new)
    unfolding add
    add_appends env new = record {
      after = λ w h.
          (insert_appends (new (env.uuid4 w.draws))).after (record w { draws = w.draws + 1 }) h;
    }

  -- What does not speak of a table is kept by the writes to it.
  module _ (P : Db → Type 0) (spared : (rs : List R) (db : Db) → P db → P (e.put rs db)) where
    pub add_spares : (env : Env) (new : ℕ → Option R) → Keeps P (add e env new)
    add_spares = add_appends P (λ r db h. spared (e.rows db ++ (r ∷ [])) db h)

    rewrite_spares : (i : ℕ) (o : Option (Option R)) (w : World) → P w.db → P (rewrite e i o w).1.db
    rewrite_spares i none w h = h
    rewrite_spares i (some none) w h = h
    rewrite_spares i (some (some r)) w h = spared _ w.db h

    pub update_spares : (i : ℕ) (f : R → Option R) → Keeps P (update e i f)
    unfolding update
    update_spares i f = record { after = λ w h. rewrite_spares i _ w h }

  -- An INSERT raises only for a constraint or a number out of range.
  insert_err :
      (o : Option R) (w : World) (x : Error)
      → (insert e o w).0 ≡ err x
      → (x ≡ integrity) ⊎ (x ≡ data_error)
  insert_err none w x h = inr (cc h)
  insert_err (some r) w x h = elim (Bool-cases (admits e w.db r)) [
    | inl fits ↦ let bad = rw fits at h in absurd (cc bad)
    | inr refused ↦ let said = rw refused at h in inl (cc said)
  ]

  pub add_err :
      (env : Env) (new : ℕ → Option R) (w : World) (x : Error)
      → (add e env new w).0 ≡ err x
      → (x ≡ integrity) ⊎ (x ≡ data_error)
  unfolding add
  add_err env new w x h =
      insert_err (new (env.uuid4 w.draws)) (record w { draws = w.draws + 1 }) x h

  -- An UPDATE of a row that is there, with values that fit.
  pub update-found :
      (i : ℕ) (f : R → Option R) (w : World) (s r : R)
      → find (λ t. e.key t == i) (e.rows w.db) ≡ some s
      → f s ≡ some r
      → update e i f w ≡ (ok r, record w { db = e.put (replace e i r (e.rows w.db)) w.db })
  unfolding update
  update-found i f w s r at h = rw at (rw h)

  pub update-refused :
      (i : ℕ) (f : R → Option R) (w : World) (s : R)
      → find (λ t. e.key t == i) (e.rows w.db) ≡ some s
      → f s ≡ none
      → update e i f w ≡ (err data_error, w)
  unfolding update
  update-refused i f w s at h = rw at (rw h)

  insert-calls : (o : Option R) (w : World) → (insert e o w).1.calls ≡ w.calls
  insert-calls none w = refl
  insert-calls (some r) w = elim (Bool-cases (admits e w.db r)) [
    | inl fits ↦ rw fits
    | inr refused ↦ rw refused
  ]

  pub add-calls : (env : Env) (new : ℕ → Option R) (w : World) → (add e env new w).1.calls ≡ w.calls
  unfolding add
  add-calls env new w = insert-calls (new (env.uuid4 w.draws)) (record w { draws = w.draws + 1 })
