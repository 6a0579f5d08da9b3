-- ===== src/Integrations/Stub/Executes.antt =====
-- The stub executes every order, unless its answer is set.
use crypto_brokerage.Base.{◌≡◌, refl, subst, inl, inr, Bool-cases, true, none}
use crypto_brokerage.Services.Trading.Filled.{is_executed}
use crypto_brokerage.Services.Trading.Executing.{IsExecuting}
use crypto_brokerage.Integrations.Stub.{
  StubExchange, stub_fill, submit_order, stub_exchange_gateway,
}

pub stub_exchange_gateway-IsExecuting :
    (stub : StubExchange)
    → stub.order_response_override ≡ none
    → IsExecuting (stub_exchange_gateway stub)
unfolding submit_order
stub_exchange_gateway-IsExecuting stub h = record {
  executes = λ calls r s k. elim (Bool-cases stub.should_fail) [
    | inl fails ↦ let bad = rw fails at k in absurd (cc bad)
    | inr works ↦
        let k0 = rw works at k in
        let k1 = rw h at k0 in
        let own : stub_fill stub calls r ≡ s = cc k1 in subst (λ x. is_executed x ≡ true) own refl
  ];
}
