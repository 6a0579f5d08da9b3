-- ===== src/Decimal.antt =====
-- Python's `Decimal` as the program uses it, in the default context: 28 digits, half to even.
pub mod Exact
use crypto_brokerage.Base.{
  ℕ, zero, suc, ◌+◌, ◌-◌, ◌*◌, ◌/◌, ◌%◌, ◌^◌, Bool, true, false, Option, none, some, ltb, leb, ◌==◌,
  if◌then◌else◌,
}
use crypto_brokerage.Base.Int.{ℤ, pos, negsuc, ◌+ℤ◌, ◌-ℤ◌, ◌*ℤ◌, magnitude, ltb_ℤ, leb_ℤ}

-- The number `coefficient / 10 ^ scale`.
pub record Decimal : Type 0 where
  pub coefficient : ℤ
  pub scale : ℕ

abbrev pub decimal : ℤ → ℕ → Decimal
decimal c s = record { coefficient = c; scale = s }

-- `Decimal("0")`
abbrev pub nought : Decimal
nought = decimal (pos 0) 0

abbrev pub precision : ℕ
precision = 28

-- The number of decimal digits by which `n` is longer than the precision.
excess : ℕ → ℕ → ℕ
excess zero n = 0
excess (suc fuel) n = elim (ltb n (10 ^ precision)) [
  | true ↦ 0
  | false ↦ suc (excess fuel (n / 10))
]

-- `n / d` rounded to the nearest integer, a tie to the even one.
half_even : ℕ → ℕ → ℕ
half_even n d =
    let q = n / d in
    let r = n % d in if ltb (2 * r) d then q else if ltb d (2 * r) then q + 1 else q + q % 2

-- `n / 10 ^ s` without its last `k` digits. Of a whole number they become zeros.
shorten : ℕ → ℕ → ℕ → ℕ × ℕ
shorten n s k =
    if leb k s then (half_even n (10 ^ k), s - k) else (half_even n (10 ^ k) * 10 ^ (k - s), 0)

abbrev signed : ℤ → ℕ → ℤ
signed (pos _) n = pos n
signed (negsuc _) n = pos 0 -ℤ pos n

-- The rounding that each operation ends with.
pub round : Decimal → Decimal
unfolding excess half_even shorten ◌-ℤ◌
round d =
    let n = magnitude d.coefficient in
    let k = excess n n in
    if k == 0 then d else let (m, s) = shorten n d.scale k in decimal (signed d.coefficient m) s

-- The coefficient at a scale that is no smaller.
abbrev rescale : Decimal → ℕ → ℤ
rescale d s = d.coefficient *ℤ pos (10 ^ (s - d.scale))

abbrev max_scale : Decimal → Decimal → ℕ
max_scale a b = if leb a.scale b.scale then b.scale else a.scale

-- `a + b`, `a - b`, `a * b`, `-a`
unfoldable pub add : Decimal → Decimal → Decimal
unfolding round ◌+ℤ◌ ◌*ℤ◌
add a b = let s = max_scale a b in round (decimal (rescale a s +ℤ rescale b s) s)

unfoldable pub sub : Decimal → Decimal → Decimal
unfolding round ◌-ℤ◌ ◌*ℤ◌
sub a b = let s = max_scale a b in round (decimal (rescale a s -ℤ rescale b s) s)

unfoldable pub mul : Decimal → Decimal → Decimal
unfolding round ◌*ℤ◌
mul a b = round (decimal (a.coefficient *ℤ b.coefficient) (a.scale + b.scale))

unfoldable pub neg : Decimal → Decimal
unfolding round ◌-ℤ◌
neg a = round (decimal (pos 0 -ℤ a.coefficient) a.scale)

-- `a < b` and `a <= b` are exact.
unfoldable pub lt : Decimal → Decimal → Bool
unfolding ◌*ℤ◌
lt a b = ltb_ℤ (a.coefficient *ℤ pos (10 ^ b.scale)) (b.coefficient *ℤ pos (10 ^ a.scale))

unfoldable pub le : Decimal → Decimal → Bool
unfolding ◌*ℤ◌
le a b = leb_ℤ (a.coefficient *ℤ pos (10 ^ b.scale)) (b.coefficient *ℤ pos (10 ^ a.scale))

digits : ℕ → ℕ → ℕ
digits zero n = 0
digits (suc fuel) n = elim (n == 0) [ true ↦ 0 | false ↦ suc (digits fuel (n / 10)) ]

-- A quotient to 30 digits or more, whose last digit shows whether something was cut off.
quotient : ℕ → ℕ → ℕ → ℕ
quotient n d up =
    let q = n * 10 ^ up / d in if n * 10 ^ up % d == 0 then q else if q % 5 == 0 then q + 1 else q

-- `a / b` with `b` not zero: the exact quotient, rounded once.
divide : Decimal → Decimal → Decimal
unfolding quotient digits round ◌-ℤ◌ ◌*ℤ◌
divide a b =
    let n = magnitude a.coefficient in
    let d = magnitude b.coefficient in
    let up = digits d d + precision + 2 + b.scale in
    let q = quotient n d up in
    let sign = a.coefficient *ℤ signed b.coefficient 1 in
    round (decimal (signed sign q) (a.scale + (up - b.scale)))

-- `a / b`; `none` is `DivisionByZero`, or `InvalidOperation` where both are zero.
unfoldable pub div : Decimal → Decimal → Option Decimal
unfolding divide
div a b = if magnitude b.coefficient == 0 then none else some (divide a b)
