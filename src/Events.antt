-- ===== src/Events.antt =====
-- app/events/base.py and app/events/domain_events.py: the events. Nothing in the program makes one.
use crypto_brokerage.Base.{ℕ, Option, String}
use crypto_brokerage.Decimal.{Decimal}

pub record DomainEvent : Type 0 where
  pub event_id : ℕ
  pub occurred_at : ℕ

pub record UserRegistered : Type 0 where
  pub event : DomainEvent
  pub user_id : ℕ
  pub email : String
  pub country : String
  pub account_id : ℕ

pub record KycStatusChanged : Type 0 where
  pub event : DomainEvent
  pub user_id : ℕ
  pub old_status : String
  pub new_status : String

pub record FundsDeposited : Type 0 where
  pub event : DomainEvent
  pub user_id : ℕ
  pub account_id : ℕ
  pub transaction_id : ℕ
  pub amount : Decimal
  pub currency : String
  pub external_transfer_id : String

pub record FundsWithdrawn : Type 0 where
  pub event : DomainEvent
  pub user_id : ℕ
  pub account_id : ℕ
  pub transaction_id : ℕ
  pub amount : Decimal
  pub currency : String
  pub external_transfer_id : String
  pub bank_account_id : ℕ

pub record OrderPlaced : Type 0 where
  pub event : DomainEvent
  pub order_id : ℕ
  pub user_id : ℕ
  pub asset_id : ℕ
  pub side : String
  pub order_type : String
  pub amount : Decimal
  pub price : Option Decimal
  pub idempotency_key : String

pub record TradeExecuted : Type 0 where
  pub event : DomainEvent
  pub order_id : ℕ
  pub execution_id : ℕ
  pub user_id : ℕ
  pub asset_id : ℕ
  pub side : String
  pub executed_price : Decimal
  pub executed_amount : Decimal
  pub fee : Decimal
  pub fill_value : Decimal
  pub external_fill_id : Option String

pub record OrderFailed : Type 0 where
  pub event : DomainEvent
  pub order_id : ℕ
  pub user_id : ℕ
  pub reason : String
  pub idempotency_key : String

pub record OrderCancelled : Type 0 where
  pub event : DomainEvent
  pub order_id : ℕ
  pub user_id : ℕ
  pub reason : String
