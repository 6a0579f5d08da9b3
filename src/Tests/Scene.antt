-- ===== src/Tests/Scene.antt =====
-- A brokerage with one user, and gateways that give fixed answers.
pub mod Consistent
use crypto_brokerage.Base.{
  refl, ℕ, false, ◌+◌, ◌*◌, true, ◌^◌, ◌-◌, Option, none, some, String, [], ◌∷◌, if◌then◌else◌, leb,
  str_eq,
}
use crypto_brokerage.Base.Int.{ℤ, pos, negsuc}
use crypto_brokerage.Decimal.{Decimal, decimal, nought}
use crypto_brokerage.Models.{
  User, Account, AccountType, BankAccount, BankAccountStatus, AssetType, LedgerEntry, buy, limit,
  Transaction, TransactionType, TransactionStatus,
}
use crypto_brokerage.Errors.{Result, ok, err, external_gateway, external_gateway_timeout}
use crypto_brokerage.Gateways.{OrderSubmission, TransferInitiation, FillEvent}
use crypto_brokerage.Env.{Env, Claim, Claims, text}
use crypto_brokerage.Settings.{default_settings}
use crypto_brokerage.Security.{payload_of, get_claim}
use crypto_brokerage.Session.{Db, World, no_rows}
use crypto_brokerage.Services.Trading.{Trade}
use crypto_brokerage.Services.Banking.{Transfer}

abbrev units : ℤ → ℕ → ℤ
units (pos n) s = pos (n * 10 ^ (18 - s))
units (negsuc n) s = negsuc ((n + 1) * 10 ^ (18 - s) - 1)

abbrev to_numeric : Decimal → Option ℤ
to_numeric d = if leb d.scale 18 then some (units d.coefficient d.scale) else none

-- The tokens of a user whose key reads `uuid`, issued at 1000: the kind is the token.
abbrev claim_text : Option Claim → String
claim_text (some (text s)) = s
claim_text _ = ""

abbrev signed : Claims → String
signed claims = claim_text (get_claim "type" claims)

abbrev read_token : String → Option Claims
read_token token =
    if str_eq token "access"
    then some (payload_of "access" "uuid" 4600 1000)
    else if str_eq token "refresh"
    then some (payload_of "refresh" "uuid" 605800 1000)
    else none

-- The two gateways answer every call alike.
abbrev pub env_of : Result OrderSubmission → Result TransferInitiation → Env
env_of submission transfer = record {
  exchange = record {
    get_instrument_prices = λ calls symbols. ok [];
    submit_order = λ calls request. submission;
    get_order_status = λ calls id. err external_gateway;
  };
  banking = record {
    initiate_transfer = λ calls request. transfer;
    get_transfer_status = λ calls id. err external_gateway;
  };
  uuid4 = λ n. 100 + n;
  str_uuid = λ i. "uuid";
  numeric = to_numeric;
  lower = λ s. s;
  upper = λ s. s;
  email_str = λ s. some s;
  parse_uuid = λ s. if str_eq s "uuid" then some 1 else none;
  hashpw = λ n s. ok s;
  checkpw = λ s hashed. ok (str_eq s hashed);
  settings = default_settings "postgresql://db";
  jwt_encode = λ claims key algorithm. signed claims;
  jwt_decode = λ instant token key algorithm. read_token token;
  created_at = λ i. i;
  lazy_loads = false;
  overflows = λ d. false;
  fromtimestamp = λ t. ok t;
  tie = λ limit offset i. i;
}

abbrev pub one_fill : FillEvent
one_fill = record {
  fill_id = "f1";
  price = decimal (pos 5) 0;
  amount = decimal (pos 2) 0;
  fee = nought;
  timestamp = 1000;
}

-- An answer with this status and no fills.
abbrev pub answer : String → OrderSubmission
answer status = record {
  external_order_id = "x1";
  status = status;
  filled_amount = nought;
  average_price = nought;
  fee = nought;
  fills = [];
}

abbrev pub accepted : TransferInitiation
accepted = record { external_transfer_id = "p1"; status = "PENDING" }

-- The exchange takes the order without filling it, the bank starts the transfer.
abbrev pub calm : Env
calm = env_of (ok (answer "OPEN")) (ok accepted)

-- Neither gateway answers in time.
abbrev pub silent : Env
silent = env_of (err external_gateway_timeout) (err external_gateway_timeout)

abbrev pub account : ℕ → String → Account
account i currency = record {
  id = i;
  user_id = 1;
  currency = currency;
  account_type = AccountType.fiat;
}

abbrev pub entry : LedgerEntry
entry = record {
  id = 6;
  debit_account_id = 5;
  credit_account_id = 3;
  amount = pos (100 * 10 ^ 18);
  currency = "BRL";
  reference_type = "DEPOSIT";
  reference_id = "p0";
}

abbrev pub bank_account : BankAccount
bank_account = record {
  id = 4;
  user_id = 1;
  external_reference = "iban";
  bank_name = "bank";
  status = BankAccountStatus.active;
}

abbrev pub pending_deposit : Transaction
pending_deposit = record {
  id = 7;
  user_id = 1;
  transaction_type = TransactionType.deposit;
  status = TransactionStatus.processing;
  reference_id = some "p0";
}

abbrev pub user : User
user = record { id = 1; email = "a@b.c"; hashed_password = "h"; is_active = true }

-- User 1 has 100 BRL on account 3.
abbrev pub tables : Db
tables = record no_rows {
  users = user ∷ [];
  accounts = account 3 "BRL" ∷ account 5 "RESERVE" ∷ [];
  bank_accounts = bank_account ∷ [];
  assets =
      record {
        id = 2;
        symbol = "BTC";
        name = "Bitcoin";
        asset_type = AssetType.crypto;
        network = none;
        decimals = 8;
      }
      ∷ [];
  transactions = pending_deposit ∷ [];
  ledger_entries = entry ∷ [];
}

abbrev pub world : World
world = record { db = tables; draws = 0; clock = 1000; calls = [] }

-- 2 at the price of 5
abbrev pub purchase : Trade
purchase = record {
  user_id = 1;
  asset_id = 2;
  side = buy;
  order_type = limit;
  amount = decimal (pos 2) 0;
  price = some (decimal (pos 5) 0);
  idempotency_key = "k1";
  quote_currency = "BRL";
}

abbrev pub payment : Transfer
payment = record { user_id = 1; bank_account_id = 4; amount = decimal (pos 25) 0; currency = "BRL" }
