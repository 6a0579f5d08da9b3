-- ===== src/Integrations/Http.antt =====
-- `HttpExchangeGateway` of app/integrations/exchange_gateway.py and `HttpBankingGateway` of
-- app/integrations/banking_gateway.py. `tenacity`'s `retry`, the clock and the random identifiers are
-- parameters: a method is the outcome of each attempt, counted from 0, handed to `retry`.
pub mod Production
use crypto_brokerage.Base.{ℕ, Bool, ◌||◌, none, String, List, [], ◌∷◌, map, ◌==◌, if◌then◌else◌}
use crypto_brokerage.Base.Int.{pos}
use crypto_brokerage.Decimal.{Decimal, decimal, nought, mul}
use crypto_brokerage.Errors.{
  Result, ok, err, external_gateway, external_gateway_timeout, external_gateway_rate_limit,
}
use crypto_brokerage.Gateways.{
  InstrumentPrice, FillEvent, OrderSubmission, OrderStatusResponse, TransferInitiation,
  TransferStatusResponse, OrderRequest, TransferRequest, Call, ExchangeGateway, BankingGateway,
}

-- What the clients take from outside.
pub record Client : Type 1 where
  -- `_retry_policy`: three attempts, on a timeout or a rate limit
  pub retry : (A : Type 0) → (ℕ → Result A) → Result A
  -- `time.time()` in the call after these calls, in an attempt
  pub time : List Call → ℕ → ℕ
  -- `str(uuid.uuid4())`, the n-th one in an attempt
  pub uuid4 : List Call → ℕ → ℕ → String

-- The status of an answer of the exchange or the bank, and `is_error` of `httpx`.
pub record HttpResponse : Type 0 where
  pub status_code : ℕ
  pub is_error : Bool

-- `_raise_for_status`, the same in both classes; no method calls it yet.
abbrev pub raise_for_status : HttpResponse → Result (Unit {0})
raise_for_status response =
    if response.status_code == 429
    then err external_gateway_rate_limit
    else if response.status_code == 408 || response.status_code == 504
    then err external_gateway_timeout
    else if response.is_error
    then err external_gateway
    else ok tt

-- `Decimal("290250.00")`, `Decimal("0.001")`
abbrev pub fill_price : Decimal
fill_price = decimal (pos 29025000) 2

abbrev pub fee_rate : Decimal
fee_rate = decimal (pos 1) 3

module _ (client : Client) where
  abbrev pub instrument_price : ℕ → String → InstrumentPrice
  instrument_price now symbol = record {
    symbol = symbol;
    bid = decimal (pos 29000000) 2;
    ask = decimal (pos 29050000) 2;
    last = decimal (pos 29025000) 2;
    timestamp = now;
  }

  -- A symbol that is asked for twice is one key of the dict; its two values are the same.
  abbrev pub get_instrument_prices :
      List Call → List String → Result (List (String × InstrumentPrice))
  get_instrument_prices calls symbols =
      client.retry (List (String × InstrumentPrice))
        λ attempt. ok (map (λ s. (s, instrument_price (client.time calls attempt) s)) symbols)

  abbrev pub submission : List Call → OrderRequest → ℕ → OrderSubmission
  submission calls r attempt = record {
    external_order_id = client.uuid4 calls attempt 0;
    status = "FILLED";
    filled_amount = r.amount;
    average_price = fill_price;
    fee = mul (mul r.amount fill_price) fee_rate;
    fills =
        record {
          fill_id = client.uuid4 calls attempt 1;
          price = fill_price;
          amount = r.amount;
          fee = mul (mul r.amount fill_price) fee_rate;
          timestamp = client.time calls attempt;
        }
        ∷ [];
  }

  abbrev pub submit_order : List Call → OrderRequest → Result OrderSubmission
  submit_order calls r = client.retry OrderSubmission (λ attempt. ok (submission calls r attempt))

  abbrev pub get_order_status : List Call → String → Result OrderStatusResponse
  get_order_status calls external_order_id = client.retry OrderStatusResponse λ attempt.
      ok (record {
        external_order_id = external_order_id;
        status = "FILLED";
        filled_amount = nought;
        average_price = nought;
        fills = [];
      })

  abbrev pub initiate_transfer : List Call → TransferRequest → Result TransferInitiation
  initiate_transfer calls r = client.retry TransferInitiation λ attempt.
      ok (record { external_transfer_id = client.uuid4 calls attempt 0; status = "PENDING" })

  abbrev pub get_transfer_status : List Call → String → Result TransferStatusResponse
  get_transfer_status calls external_transfer_id = client.retry TransferStatusResponse λ attempt.
      ok (record {
        external_transfer_id = external_transfer_id;
        status = "COMPLETED";
        failure_reason = none;
      })

  -- `get_exchange_gateway`, `get_banking_gateway` of app/api/deps.py
  abbrev pub http_exchange_gateway : ExchangeGateway
  http_exchange_gateway = record {
    get_instrument_prices = get_instrument_prices;
    submit_order = submit_order;
    get_order_status = get_order_status;
  }

  abbrev pub http_banking_gateway : BankingGateway
  http_banking_gateway = record {
    initiate_transfer = initiate_transfer;
    get_transfer_status = get_transfer_status;
  }
