-- ===== src/Base/Pages.antt =====
-- ORDER BY, LIMIT and OFFSET on the rows of a table. Sorting keeps the order of
-- rows with the same key.
use Prim.Native.Nat.{ℕ, zero, suc}
use mathlib.Core.Bool.{Bool}
use mathlib.Core.List.{List, [], ◌∷◌}
use crypto_brokerage.Base.Tests.{leb, if◌then◌else◌}

module _ {A : Type 0} where
  abbrev pub take : ℕ → List A → List A
  take zero xs = []
  take (suc n) [] = []
  take (suc n) (x ∷ xs) = x ∷ take n xs

  abbrev pub drop : ℕ → List A → List A
  drop zero xs = xs
  drop (suc n) [] = []
  drop (suc n) (x ∷ xs) = drop n xs

  -- `.limit(limit).offset(offset)`
  abbrev pub page : ℕ → ℕ → List A → List A
  page limit offset xs = take limit (drop offset xs)

-- ASC and DESC
pub data Direction : Type 0 where
  ascending descending : Direction

-- A row with the first key may stand before one with the second.
abbrev pub may_precede : Direction → ℕ → ℕ → Bool
may_precede ascending m n = leb m n
may_precede descending m n = leb n m

module _ {A : Type 0} (d : Direction) (key : A → ℕ) where
  abbrev pub place_in : A → List A → List A
  place_in x [] = x ∷ []
  place_in x (y ∷ ys) =
      let rest = place_in x ys in if may_precede d (key x) (key y) then x ∷ y ∷ ys else y ∷ rest

  abbrev pub sort_by : List A → List A
  sort_by [] = []
  sort_by (x ∷ xs) = place_in x (sort_by xs)

-- The rows by their key, and where keys are equal by the place that the database gives them.
abbrev pub order_by : {A : Type 0} → Direction → (A → ℕ) → (A → ℕ) → List A → List A
order_by d key tie xs = sort_by d key (sort_by ascending tie xs)
