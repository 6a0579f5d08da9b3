-- ===== src/Tests/Banking.antt =====
-- Transfers and whole requests at concrete inputs.
use crypto_brokerage.Base.{◌≡◌, refl, none, List, [], ◌∷◌, ◌++◌}
use crypto_brokerage.Models.{Transaction, TransactionType, TransactionStatus}
use crypto_brokerage.Errors.{ok, err, external_gateway_timeout, account_not_found}
use crypto_brokerage.Gateways.{Call}
use crypto_brokerage.Session.{World, request}
use crypto_brokerage.Session.Outcome.{Returns}
use crypto_brokerage.Repository
use crypto_brokerage.Repositories.Accounts.{get_by_user_and_currency}
use crypto_brokerage.Repositories.Transactions
use crypto_brokerage.Tables.Consistent.{IsConsistent}
use crypto_brokerage.Services.Banking.{
  TransferResult, inbound, initiate, deposit_funds, withdraw_funds, confirm_deposit,
}
use crypto_brokerage.Services.Banking.Deposit.{deposit_funds_forgotten}
use crypto_brokerage.Services.Banking.Deposited.{IsInitiated, deposit_funds-Returns}
use crypto_brokerage.Services.Banking.Confirm.{confirmed, confirm_deposit_lem}
use crypto_brokerage.Services.Banking.Withdraw.{withdraw_funds_refused}
use crypto_brokerage.Services.Books.{SameBooks}
use crypto_brokerage.Services.Banking.Completed.{deposit_funds-confirm_deposit}
use crypto_brokerage.Requests.{Request, Route, serve_all}
use crypto_brokerage.Requests.Books.{serve_all-SameBooks}
use crypto_brokerage.Requests.Consistency.{serve_all-IsConsistent}
use crypto_brokerage.Requests.Settled.{IsSettled, serve_all-IsSettled}
use crypto_brokerage.Tests.Scene.{
  pending_deposit, calm, silent, world, tables, payment, purchase, account, bank_account,
}
use crypto_brokerage.Tests.Scene.Consistent.{tables-IsConsistent}

abbrev initiated : TransferResult
initiated = record {
  transaction_id = 100;
  external_transfer_id = "p1";
  status = TransactionStatus.processing;
}

abbrev after : World
after = (deposit_funds calm payment world).1

payment-Returns : Returns (deposit_funds calm payment) world initiated after
unfolding deposit_funds initiate get_by_user_and_currency Repository.get_by_id Repository.add
    Repository.update Transactions.create Transactions.update_status
payment-Returns = refl

deposit_funds-Returns_example : IsInitiated calm payment world after initiated
deposit_funds-Returns_example =
    deposit_funds-Returns calm payment world initiated after payment-Returns

deposit_funds-confirm_deposit_example :
    (x : Transaction) × (x.id ≡ 100)
    × (x.user_id ≡ 1)
    × (x.transaction_type ≡ TransactionType.deposit)
    × (x.status ≡ TransactionStatus.completed)
    × Returns
        (confirm_deposit "p1")
        after
        tt
        (record after { db = record tables { transactions = tables.transactions ++ (x ∷ []) } })
deposit_funds-confirm_deposit_example =
    deposit_funds-confirm_deposit calm payment world initiated after tables-IsConsistent
      payment-Returns refl

abbrev transaction : Transaction
transaction = record {
  id = 100;
  user_id = 1;
  transaction_type = TransactionType.deposit;
  status = TransactionStatus.pending;
  reference_id = none;
}

abbrev created_at : World
created_at = (Transactions.create silent 1 TransactionType.deposit none world).1

created :
    Returns (Transactions.create silent 1 TransactionType.deposit none) world transaction created_at
unfolding Transactions.create Repository.add
created = refl

deposit_funds_forgotten_example : request (deposit_funds silent payment) world ≡ (
  err external_gateway_timeout,
  record created_at {
    db = tables;
    calls =
        Call.initiate_transfer (inbound silent payment bank_account transaction) ∷ created_at.calls;
  },
)
deposit_funds_forgotten_example =
    deposit_funds_forgotten silent payment world bank_account (account 3 "BRL") transaction
      created_at external_gateway_timeout refl refl refl created refl

confirm_deposit_lem_example :
    confirm_deposit "p0" world ≡ (ok tt, record world { db = confirmed "p0" tables })
confirm_deposit_lem_example = confirm_deposit_lem "p0" world tables-IsConsistent

withdraw_funds_refused_example :
    withdraw_funds calm payment world ≡ (err account_not_found, record world { draws = 1 })
withdraw_funds_refused_example = withdraw_funds_refused calm payment world

abbrev requests : List Request
requests =
    Request.trade purchase
    ∷ Request.deposit payment
    ∷ Request.http (Route.post_login "a@b.c" "h")
    ∷ Request.pass 60
    ∷ Request.confirm "p0"
    ∷ Request.confirm "p1"
    ∷ []

serve_all-IsConsistent_example : IsConsistent (serve_all calm requests world).db
serve_all-IsConsistent_example = serve_all-IsConsistent calm requests world tables-IsConsistent

serve_all-SameBooks_example : SameBooks tables (serve_all calm requests world).db
serve_all-SameBooks_example = serve_all-SameBooks calm requests world

serve_all-IsSettled_example : IsSettled pending_deposit (serve_all calm requests world).db
serve_all-IsSettled_example =
    serve_all-IsSettled calm pending_deposit requests world tables-IsConsistent refl
