-- ===== src/Integrations/Stub/Prices.antt =====
-- The portfolio that the stub prices: every symbol that is asked for has a price.
use crypto_brokerage.Base.{
  ℕ, ◌≡◌, ◌⊎◌, refl, ap, inl, inr, true, Bool-cases, String, List, [], ◌∷◌, map, str_eq, eq_iff,
  All,
}
use crypto_brokerage.Errors.{ok, err, external_gateway}
use crypto_brokerage.Gateways.{Call}
use crypto_brokerage.Services.Portfolio.{current_price, Prices}
use crypto_brokerage.Integrations.Stub.{StubExchange, price_of, stub_price, get_instrument_prices}

module _ (stub : StubExchange) where
  -- The prices of a call that returns.
  abbrev pub quoted : ℕ → List String → Prices
  quoted now symbols = map (λ s. (s, stub_price stub now s)) symbols

  priced_behind :
      (now : ℕ) (x : String) (xs l : List String)
      → All (λ s. current_price (quoted now xs) s ≡ price_of stub s) l
      → All (λ s. current_price (quoted now (x ∷ xs)) s ≡ price_of stub s) l
  priced_behind now x xs [] h = tt
  priced_behind now x xs (s ∷ l) h = elim (Bool-cases (str_eq x s)) [
    | inl own ↦ (
      rw (own, current_price) (ap (price_of stub) ((eq_iff x s).0 own)),
      priced_behind now x xs l h.1,
    )
    | inr other ↦ (rw (other, current_price) (h.0), priced_behind now x xs l h.1)
  ]

  priced :
      (now : ℕ) (symbols : List String)
      → All (λ s. current_price (quoted now symbols) s ≡ price_of stub s) symbols
  priced now [] = tt
  priced now (x ∷ xs) =
      let self : str_eq x x ≡ true = (eq_iff x x).1 refl in
      (rw (self, current_price) refl, priced_behind now x xs xs (priced now xs))

  -- Unless it is told to fail, the stub quotes every symbol that it is asked for, and the portfolio
  -- reads for each the price that was set for it, or 50000; told to fail, it raises.
  pub get_instrument_prices-current_price :
      (calls : List Call) (symbols : List String)
      → ((stub.should_fail ≡ true)
          × (get_instrument_prices stub calls symbols ≡ err external_gateway))
        ⊎ ((prices : Prices) × (get_instrument_prices stub calls symbols ≡ ok prices)
            × All (λ s. current_price prices s ≡ price_of stub s) symbols)
  unfolding get_instrument_prices
  get_instrument_prices-current_price calls symbols = elim (Bool-cases stub.should_fail) [
    | inl fails ↦ inl (fails, rw fails)
    | inr works ↦ inr (quoted (stub.time calls) symbols, rw works, priced (stub.time calls) symbols)
  ]
