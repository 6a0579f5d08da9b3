-- ===== src/Decimal/Exact.antt =====
-- Where the 28 digits of the context are enough, nothing is rounded.
use crypto_brokerage.Base.{ℕ, zero, suc, ◌^◌, ◌<◌, ◌≡◌, refl, ap, ◌∙◌, true, ltb, arith}
use crypto_brokerage.Base.Int.{ℤ, pos, negsuc, ◌-ℤ◌, ◌*ℤ◌, magnitude}
use crypto_brokerage.Decimal.{Decimal, decimal, precision, excess, round, sub}

excess_short : (fuel n : ℕ) → n < 10 ^ precision → excess fuel n ≡ 0
unfolding excess
excess_short zero n h = refl
excess_short (suc fuel) n h =
    let short : ltb n (10 ^ precision) ≡ true = ground arith in rw (short, excess) refl

round_short : (d : Decimal) → magnitude d.coefficient < 10 ^ precision → round d ≡ d
unfolding round
round_short d h = rw (excess_short (magnitude d.coefficient) (magnitude d.coefficient) h) refl

times_one : (a : ℤ) → a *ℤ pos 1 ≡ a
unfolding ◌*ℤ◌
times_one (pos n) = ground arith
times_one (negsuc n) = ground arith

-- A difference of two amounts is exact if it has at most 28 digits.
pub sub_exact :
    (a b : ℤ)
    → magnitude (a -ℤ b) < 10 ^ precision
    → sub (decimal a 18) (decimal b 18) ≡ decimal (a -ℤ b) 18
unfolding sub
sub_exact a b h =
    ap (λ x. round (decimal (x -ℤ (b *ℤ pos 1)) 18)) (times_one a)
    ∙ ap (λ y. round (decimal (a -ℤ y) 18)) (times_one b)
    ∙ round_short (decimal (a -ℤ b) 18) h
