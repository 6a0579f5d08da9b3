-- ===== src/Repositories/Positions/Upsert.antt =====
-- `upsert_position` on a position that is there.
use crypto_brokerage.Base.{
  ℕ, ◌≡◌, sym, ap, ◌∙◌, inl, inr, true, false, ◌&&◌, Option, some, ◌==◌, find, Option-cases,
}
use mathlib.Core.Option.{some-injective}
use crypto_brokerage.Decimal
use crypto_brokerage.Decimal.{Decimal, nought, div}
use crypto_brokerage.Base.Int.{magnitude}
use crypto_brokerage.Models.{Position, of_units}
use crypto_brokerage.Errors.{err, decimal_error}
use crypto_brokerage.Env.{Env}
use crypto_brokerage.Session.{Db, World}
use crypto_brokerage.Session.Outcome.{Returns}
use crypto_brokerage.Repository.{replace}
use crypto_brokerage.Repository.Writes.{update-Returns}
use crypto_brokerage.Repository.Found.{find-own}
use crypto_brokerage.Tables
use crypto_brokerage.Tables.Consistent.{IsConsistent}
use crypto_brokerage.Repositories.Positions.{moved_position, upsert_position}

-- The position of the user in the asset.
abbrev pub holding : ℕ → ℕ → Db → Option Position
holding u a db = find (λ p. p.user_id == u && p.asset_id == a) db.positions

abbrev new_quantity : Position → Decimal → Decimal
new_quantity p delta = Decimal.add (of_units p.quantity) delta

moved_position-Returns :
    (env : Env) (q v : Decimal) (p r : Position)
    → moved_position env q v p ≡ some r
    → (r.id ≡ p.id) × (env.numeric q ≡ some r.quantity) × (env.numeric v ≡ some r.average_price)
moved_position-Returns env q v p r h = elim (Option-cases (env.numeric q)) [
  | inl over ↦ let bad = rw over at h in absurd (cc bad)
  | inr (x, e) ↦
      let h1 = rw e at h in
      elim (Option-cases (env.numeric v)) [
        | inl over ↦ let bad = rw over at h1 in absurd (cc bad)
        | inr (y, f) ↦
            let own = some-injective _ _ (rw f at h1) in
            (
              ap (λ (z : Position). z.id) (sym own),
              e ∙ ap (λ (z : Position). some z.quantity) own,
              f ∙ ap (λ (z : Position). some z.average_price) own,
            )
      ]
]

module _ (env : Env) (u a : ℕ) (delta price : Decimal) (w : World) (p : Position) where
  -- A purchase that closes a short position exactly is never recorded: the average is a division by
  -- zero, which raises before anything is written.
  pub upsert_position_closed :
      holding u a w.db ≡ some p
      → Decimal.lt nought delta ≡ true
      → (magnitude (new_quantity p delta).coefficient == 0) ≡ true
      → upsert_position env u a delta price w ≡ (err decimal_error, w)
  unfolding upsert_position div
  upsert_position_closed h positive zero_qty = rw h (rw positive (rw zero_qty))

  -- A sale that returns has changed the quantity of the one row and kept its average price, both as
  -- the column stores them.
  pub upsert_position_sold :
      (r : Position) (w' : World)
      → IsConsistent w.db
      → holding u a w.db ≡ some p
      → Decimal.lt nought delta ≡ false
      → Returns (upsert_position env u a delta price) w r w'
      → (r.id ≡ p.id)
        × (env.numeric (new_quantity p delta) ≡ some r.quantity)
        × (env.numeric (of_units p.average_price) ≡ some r.average_price)
        × (w' ≡ record w {
          db = record w.db { positions = replace Tables.positions p.id r w.db.positions };
        })
  unfolding upsert_position
  upsert_position_sold r w' c h negative done =
      let moved = rw (h, negative) at done in
      let (s, here, changed, left) =
        update-Returns Tables.positions p.id
          (moved_position env (new_quantity p delta) (of_units p.average_price)) w r w' moved in
      let own : s ≡ p = some-injective _ _ (
        sym here
        ∙ find-own Tables.positions (λ x. x.user_id == u && x.asset_id == a) w.db.positions p
            c.distinct_positions h) in
      let (same_row, q, v) =
        moved_position-Returns env (new_quantity p delta) (of_units p.average_price) p r (
          ap (moved_position env (new_quantity p delta) (of_units p.average_price)) (sym own)
          ∙ changed) in
      (same_row, q, v, left)
