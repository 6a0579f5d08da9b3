-- ===== src/Tests/Ledger.antt =====
-- Postings at concrete inputs.
use crypto_brokerage.Base.{◌^◌, ◌<◌, arith, ◌≡◌, refl}
use crypto_brokerage.Base.Int.{pos, magnitude, ◌+ℤ◌, ◌-ℤ◌, ◌*ℤ◌}
use crypto_brokerage.Decimal
use crypto_brokerage.Decimal.{decimal, nought}
use crypto_brokerage.Models.{LedgerEntry, of_units}
use crypto_brokerage.Session.{World}
use crypto_brokerage.Session.Outcome.{Returns}
use crypto_brokerage.Repository
use crypto_brokerage.Repository.{add}
use crypto_brokerage.Repositories.Accounts.{balance_of}
use crypto_brokerage.Repositories.Ledger.Book.{book_of, transfer, create_double_entry-balance_of}
use crypto_brokerage.Repositories.Ledger.{Movement, create_double_entry}
use crypto_brokerage.Tests.Scene.{calm, world}

abbrev movement : Movement
movement = record {
  debit_account_id = 3;
  credit_account_id = 5;
  amount = decimal (pos 10) 0;
  currency = "BRL";
  reference_type = "TRADE";
  reference_id = "uuid";
}

abbrev posted : LedgerEntry
posted = record {
  id = 100;
  debit_account_id = 3;
  credit_account_id = 5;
  amount = pos 10000000000000000000;
  currency = "BRL";
  reference_type = "TRADE";
  reference_id = "uuid";
}

abbrev after : World
after = (create_double_entry calm movement world).1

movement-Returns : Returns (create_double_entry calm movement) world posted after
unfolding create_double_entry Repository.add Decimal.le ◌*ℤ◌
movement-Returns = refl

few_digits :
    magnitude (
      transfer movement.debit_account_id movement.credit_account_id posted.amount
        (book_of world.db)
        5)
    < 10 ^ Decimal.precision
unfolding ◌+ℤ◌ ◌-ℤ◌
few_digits = omega arith

create_double_entry-balance_of_example :
    balance_of 5 after.db
    ≡ of_units (
        transfer movement.debit_account_id movement.credit_account_id posted.amount
          (book_of world.db)
          5)
create_double_entry-balance_of_example =
    create_double_entry-balance_of calm movement world posted after posted.amount 5 refl
      movement-Returns few_digits
