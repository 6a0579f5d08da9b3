-- ===== src/Integrations/Stub.antt =====
-- `StubExchangeGateway` of app/integrations/exchange_gateway.py and `StubBankingGateway` of
-- app/integrations/banking_gateway.py.
pub mod Prices
pub mod Executes
use Prim.Native.String.{◌++◌ as str_append}
use crypto_brokerage.Base.{
  ℕ, Bool, Option, none, some, String, List, [], ◌∷◌, map, ◌==◌, str_eq, find, if◌then◌else◌,
}
use crypto_brokerage.Base.Int.{pos, magnitude}
use crypto_brokerage.Decimal.{Decimal, decimal, nought, add}
use crypto_brokerage.Errors.{Result, ok, err, external_gateway}
use crypto_brokerage.Gateways.{
  InstrumentPrice, OrderSubmission, OrderStatusResponse, TransferInitiation, TransferStatusResponse,
  OrderRequest, TransferRequest, Call, ExchangeGateway, BankingGateway,
}

-- `StubExchangeGateway.__init__`, and `time.time()` after some calls
pub record StubExchange : Type 0 where
  pub price_overrides : List (String × Decimal)
  pub order_response_override : Option OrderSubmission
  pub should_fail : Bool
  pub time : List Call → ℕ

-- `Decimal("50000.00")`
abbrev pub default_price : Decimal
default_price = decimal (pos 5000000) 2

module _ (stub : StubExchange) where
  -- `self._price_overrides.get(symbol, ...)`
  abbrev pub price_of : String → Decimal
  price_of symbol = elim (find (λ (p : String × Decimal). str_eq p.0 symbol) stub.price_overrides) [
    | none ↦ default_price
    | some p ↦ p.1
  ]

  abbrev pub stub_price : ℕ → String → InstrumentPrice
  stub_price now symbol = record {
    symbol = symbol;
    bid = price_of symbol;
    ask = add (price_of symbol) (decimal (pos 50) 0);
    last = price_of symbol;
    timestamp = now;
  }

  unfoldable pub get_instrument_prices :
      List Call → List String → Result (List (String × InstrumentPrice))
  get_instrument_prices calls symbols =
      if stub.should_fail
      then err external_gateway
      else ok (map (λ s. (s, stub_price (stub.time calls) s)) symbols)

  -- `price or Decimal("50000.00")`
  abbrev pub stub_fill_price : Option Decimal → Decimal
  stub_fill_price none = default_price
  stub_fill_price (some p) = if magnitude p.coefficient == 0 then default_price else p

  abbrev pub stub_fill : List Call → OrderRequest → OrderSubmission
  stub_fill calls r = record {
    external_order_id = str_append "stub-" r.client_order_id;
    status = "FILLED";
    filled_amount = r.amount;
    average_price = stub_fill_price r.price;
    fee = nought;
    fills =
        record {
          fill_id = str_append "fill-" r.client_order_id;
          price = stub_fill_price r.price;
          amount = r.amount;
          fee = nought;
          timestamp = stub.time calls;
        }
        ∷ [];
  }

  unfoldable pub submit_order : List Call → OrderRequest → Result OrderSubmission
  submit_order calls r =
      if stub.should_fail then err external_gateway else elim stub.order_response_override [
        | none ↦ ok (stub_fill calls r)
        | some response ↦ ok response
      ]

  abbrev pub get_order_status : List Call → String → Result OrderStatusResponse
  get_order_status calls external_order_id = ok (record {
    external_order_id = external_order_id;
    status = "FILLED";
    filled_amount = nought;
    average_price = nought;
    fills = [];
  })

  abbrev pub stub_exchange_gateway : ExchangeGateway
  stub_exchange_gateway = record {
    get_instrument_prices = get_instrument_prices;
    submit_order = submit_order;
    get_order_status = get_order_status;
  }

-- `StubBankingGateway.__init__`, and `uuid.uuid4()` as text after some calls
pub record StubBank : Type 0 where
  pub transfer_status : String
  pub should_fail : Bool
  pub uuid4 : List Call → String

module _ (stub : StubBank) where
  abbrev pub initiate_transfer : List Call → TransferRequest → Result TransferInitiation
  initiate_transfer calls r =
      if stub.should_fail
      then err external_gateway
      else ok (record {
        external_transfer_id = str_append "stub-" (stub.uuid4 calls);
        status = "PENDING";
      })

  abbrev pub get_transfer_status : List Call → String → Result TransferStatusResponse
  get_transfer_status calls external_transfer_id =
      if stub.should_fail
      then err external_gateway
      else ok (record {
        external_transfer_id = external_transfer_id;
        status = stub.transfer_status;
        failure_reason =
            if str_eq stub.transfer_status "COMPLETED" then none else some "Simulated failure.";
      })

  abbrev pub stub_banking_gateway : BankingGateway
  stub_banking_gateway = record {
    initiate_transfer = initiate_transfer;
    get_transfer_status = get_transfer_status;
  }
