-- ===== src/Services/Banking.antt =====
-- app/services/banking_service.py: `BankingService`.
pub mod Withdraw
pub mod Confirm
pub mod Deposit
pub mod Deposited
pub mod Completed
use Prim.Native.String.{◌++◌}
use crypto_brokerage.Base.{ℕ, Bool, not, Option, none, some, String, ◌==◌, if◌then◌else◌}
use crypto_brokerage.Decimal
use crypto_brokerage.Decimal.{Decimal}
use crypto_brokerage.Models.{BankAccount, Transaction, TransactionType, TransactionStatus}
use crypto_brokerage.Errors.{
  Error, account_not_found, bank_account_not_found, insufficient_funds, not_implemented,
}
use crypto_brokerage.Gateways.{TransferRequest, TransferInitiation, Call}
use crypto_brokerage.Env.{Env}
use crypto_brokerage.Session.{
  Exec, ◌>>=◌, ◌>>◌, pure, raise, or_raise, raise_if, dial, on_exception, uuid4,
}
use crypto_brokerage.Repository.{get_by_id}
use crypto_brokerage.Tables.{bank_accounts}
use crypto_brokerage.Repositories.Accounts.{get_by_user_and_currency, get_balance_for_update}
use crypto_brokerage.Repositories.Transactions

-- The arguments of `deposit_funds` and of `withdraw_funds`.
pub record Transfer : Type 0 where
  pub user_id : ℕ
  pub bank_account_id : ℕ
  pub amount : Decimal
  pub currency : String

-- app/services/result_types.py: `DepositResult` and `WithdrawResult`
pub record TransferResult : Type 0 where
  pub transaction_id : ℕ
  pub external_transfer_id : String
  pub status : TransactionStatus

-- `bank_account is None or bank_account.user_id != user_id`
abbrev pub owned : ℕ → Option BankAccount → Exec BankAccount
owned user_id none = raise bank_account_not_found
owned user_id (some b) = if b.user_id == user_id then pure b else raise bank_account_not_found

-- The handler of the `try` block, before it raises again.
abbrev pub mark_failed : Transaction → Exec (Unit {0})
mark_failed transaction =
    Transactions.update_status transaction TransactionStatus.failed none >> pure tt

module _ (env : Env) where
  abbrev pub inbound : Transfer → BankAccount → Transaction → TransferRequest
  inbound t bank_account transaction = record {
    external_reference = bank_account.external_reference;
    amount = t.amount;
    currency = t.currency;
    direction = "INBOUND";
    description = "Deposit for transaction " ++ env.str_uuid transaction.id;
  }

  -- The `try` block: the call of the gateway and the update that stores its reference.
  abbrev pub send : Transfer → BankAccount → Transaction → Exec TransferResult
  send t bank_account transaction = do
    transfer ←
        dial (Call.initiate_transfer (inbound t bank_account transaction))
          (λ calls. env.banking.initiate_transfer calls (inbound t bank_account transaction))
    updated ←
        Transactions.update_status transaction TransactionStatus.processing
          (some transfer.external_transfer_id)
    pure (record {
      transaction_id = updated.id;
      external_transfer_id = transfer.external_transfer_id;
      status = updated.status;
    })

  unfoldable pub initiate : Transfer → BankAccount → Transaction → Exec TransferResult
  initiate t bank_account transaction =
      on_exception (send t bank_account transaction) (mark_failed transaction)

  unfoldable pub deposit_funds : Transfer → Exec TransferResult
  deposit_funds t = do
    bank_account ← get_by_id bank_accounts t.bank_account_id >>= owned t.user_id
    get_by_user_and_currency t.user_id t.currency >>= or_raise account_not_found
    transaction ← Transactions.create env t.user_id TransactionType.deposit none
    initiate t bank_account transaction

  -- The account to lock is not looked up: its key is a new random one.
  unfoldable pub withdraw_funds : Transfer → Exec TransferResult
  withdraw_funds t = do
    account_id ← uuid4 env
    locked ← get_balance_for_update account_id
    raise_if (Decimal.lt locked.1 t.amount) (insufficient_funds locked.1 t.amount t.currency)
    raise not_implemented

abbrev pub confirm : Transaction → TransactionStatus → Exec (Unit {0})
confirm transaction TransactionStatus.completed = pure tt
confirm transaction TransactionStatus.failed = pure tt
confirm transaction _ =
    Transactions.update_status transaction TransactionStatus.completed none >> pure tt

abbrev pub confirm_found : Option Transaction → Exec (Unit {0})
confirm_found none = pure tt
confirm_found (some transaction) = confirm transaction transaction.status

unfoldable pub confirm_deposit : String → Exec (Unit {0})
confirm_deposit external_transfer_id =
    Transactions.get_by_reference external_transfer_id >>= confirm_found
