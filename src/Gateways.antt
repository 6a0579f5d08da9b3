-- ===== src/Gateways.antt =====
-- app/integrations/base.py: the data that the services exchange with the exchange and the bank,
-- and the two abstract classes. What a gateway answers may depend on all the calls before; a call
-- returns or raises. A status is the text that the gateway sent.
use crypto_brokerage.Base.{ℕ, Option, String, List}
use crypto_brokerage.Decimal.{Decimal}
use crypto_brokerage.Errors.{Result}

pub record InstrumentPrice : Type 0 where
  pub symbol : String
  pub bid : Decimal
  pub ask : Decimal
  pub last : Decimal
  pub timestamp : ℕ

pub record FillEvent : Type 0 where
  pub fill_id : String
  pub price : Decimal
  pub amount : Decimal
  pub fee : Decimal
  pub timestamp : ℕ

pub record OrderSubmission : Type 0 where
  pub external_order_id : String
  pub status : String
  pub filled_amount : Decimal
  pub average_price : Decimal
  pub fee : Decimal
  pub fills : List FillEvent

pub record OrderStatusResponse : Type 0 where
  pub external_order_id : String
  pub status : String
  pub filled_amount : Decimal
  pub average_price : Decimal
  pub fills : List FillEvent

pub record TransferInitiation : Type 0 where
  pub external_transfer_id : String
  pub status : String

pub record TransferStatusResponse : Type 0 where
  pub external_transfer_id : String
  pub status : String
  pub failure_reason : Option String

-- The arguments of `submit_order`.
pub record OrderRequest : Type 0 where
  pub client_order_id : String
  pub symbol : String
  pub side : String
  pub order_type : String
  pub amount : Decimal
  pub price : Option Decimal

-- The arguments of `initiate_transfer`.
pub record TransferRequest : Type 0 where
  pub external_reference : String
  pub amount : Decimal
  pub currency : String
  pub direction : String
  pub description : String

-- A call that has left the program.
pub data Call : Type 0 where
  submit_order : OrderRequest → Call
  get_order_status : String → Call
  get_instrument_prices : List String → Call
  initiate_transfer : TransferRequest → Call
  get_transfer_status : String → Call

-- `class ExchangeGateway`
pub record ExchangeGateway : Type 0 where
  pub get_instrument_prices : List Call → List String → Result (List (String × InstrumentPrice))
  pub submit_order : List Call → OrderRequest → Result OrderSubmission
  pub get_order_status : List Call → String → Result OrderStatusResponse

-- `class BankingGateway`
pub record BankingGateway : Type 0 where
  pub initiate_transfer : List Call → TransferRequest → Result TransferInitiation
  pub get_transfer_status : List Call → String → Result TransferStatusResponse
