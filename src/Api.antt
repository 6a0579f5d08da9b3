-- ===== src/Api.antt =====
-- The HTTP interface: the answers of app/main.py, the dependencies of app/api/deps.py and the body's
-- validation, which the framework runs before a handler, in this order. The handlers of app/api/v1/
-- are in the children.
pub mod Schemas
pub mod Current
pub mod Guarded
pub mod Owned
pub mod Keeps
pub mod Auth
pub mod Accounts
pub mod Portfolio
pub mod Trading
use crypto_brokerage.Base.{ℕ, Bool, not, ◌==◌, Option, none, some, String}
use crypto_brokerage.Errors
use crypto_brokerage.Errors.{Error, Result, ok, err, http_exception, other}
use crypto_brokerage.Models.{User}
use crypto_brokerage.Decimal.{Decimal}
use crypto_brokerage.Env.{Env, Claim, text, time, Claims}
use crypto_brokerage.Session.{
  World, Exec, ◌>>=◌, ◌>>◌, pure, raise, or_raise, raise_if, translating, request,
}
use crypto_brokerage.Security.{get_claim, decode_token}
use crypto_brokerage.Repository.{get_by_id}
use crypto_brokerage.Tables.{users}

-- The text of an answer to an exception: its own message, or a fixed one.
pub data Detail : Type 0 where
  own_message : Detail
  fixed : String → Detail

-- The further fields of the answer to `InsufficientFundsError`, which sends the texts of the numbers.
pub record Shortage : Type 0 where
  pub available : Decimal
  pub required : Decimal
  pub currency : String

-- The answer to an exception: its status, `code` and `detail`.
pub record Problem : Type 0 where
  pub status : ℕ
  pub code : Option String
  pub detail : Detail
  pub shortage : Option Shortage

-- `JSONResponse(status_code, {"detail": exc.message, "code": exc.code})`
abbrev pub domain_problem : ℕ → String → Problem
domain_problem status code = record {
  status = status;
  code = some code;
  detail = own_message;
  shortage = none;
}

abbrev pub gateway_problem : String → Problem
gateway_problem code = record {
  status = 502;
  code = some code;
  detail = fixed "External service error. Please try again later.";
  shortage = none;
}

-- As the framework answers an exception without a handler.
abbrev pub server_error : Problem
server_error = record {
  status = 500;
  code = none;
  detail = fixed "Internal Server Error";
  shortage = none;
}

-- `_register_exception_handlers`: the handler of the nearest class. `exc.code` is the name of the
-- class.
abbrev pub problem_of : Error → Problem
problem_of Error.authentication = domain_problem 401 "AuthenticationError"
problem_of Error.authorization = domain_problem 403 "AuthorizationError"
problem_of Error.user_already_exists = domain_problem 409 "UserAlreadyExistsError"
problem_of Error.user_not_found = domain_problem 404 "UserNotFoundError"
problem_of Error.account_not_found = domain_problem 404 "AccountNotFoundError"
problem_of (Error.insufficient_funds available required currency) =
    record (domain_problem 422 "InsufficientFundsError") {
      shortage = some (record { available = available; required = required; currency = currency });
    }
problem_of (Error.duplicate_idempotency_key key) = domain_problem 409 "DuplicateIdempotencyKeyError"
problem_of Error.kyc_not_approved = domain_problem 403 "KYCNotApprovedError"
problem_of Error.external_gateway = gateway_problem "ExternalGatewayError"
problem_of Error.external_gateway_timeout = gateway_problem "ExternalGatewayTimeoutError"
problem_of Error.external_gateway_rate_limit = gateway_problem "ExternalGatewayRateLimitError"
problem_of Error.bank_account_not_found = domain_problem 400 "BankAccountNotFoundError"
problem_of Error.bank_account_already_linked = domain_problem 400 "BankAccountAlreadyLinkedError"
problem_of Error.asset_not_found = domain_problem 400 "AssetNotFoundError"
problem_of Error.order_not_found = domain_problem 400 "OrderNotFoundError"
problem_of Error.invalid_order = domain_problem 400 "InvalidOrderError"
problem_of Error.order_already_finalized = domain_problem 400 "OrderAlreadyFinalizedError"
problem_of Error.transaction_not_found = domain_problem 400 "TransactionNotFoundError"
problem_of Error.ledger_imbalance = domain_problem 400 "LedgerImbalanceError"
problem_of (Error.http_exception status) = record {
  status = status;
  code = none;
  detail = own_message;
  shortage = none;
}
problem_of Error.integrity = server_error
problem_of Error.data_error = server_error
problem_of Error.stale_data = server_error
problem_of Error.decimal_error = server_error
problem_of Error.not_implemented = server_error
problem_of Error.value_error = server_error
problem_of (Error.other what) = server_error

abbrev pub status_of : Error → ℕ
status_of e = (problem_of e).status

-- The answer to a client: a body with its status, or a problem.
pub data Response (A : Type 0) : Type 0 where
  reply : ℕ → A → Response A
  problem : Problem → Response A

abbrev pub status : {A : Type 0} → Response A → ℕ
status (Response.reply code body) = code
status (Response.problem p) = p.status

abbrev pub response_of : {A : Type 0} → ℕ → Result A → Response A
response_of code (ok body) = Response.reply code body
response_of code (err e) = Response.problem (problem_of e)

-- A route: its handler in a session of its own, with the status of its success.
unfoldable pub respond : {A : Type 0} → ℕ → Exec A → World → Response A × World
respond code handler w = (response_of code (request handler w).0, (request handler w).1)

-- A body that the schema refuses is answered by 422.
abbrev pub valid_or_422 : Bool → Exec (Unit {0})
valid_or_422 b = raise_if (not b) (http_exception 422)

-- `oauth2_scheme`: the bearer token of the request, if it has one
abbrev pub bearer : Option String → Exec String
bearer token = or_raise (http_exception 401) token

-- `except (AuthenticationError, ValueError)`
abbrev pub unauthorised : Error → Option Error
unauthorised Error.authentication = some (http_exception 401)
unauthorised Error.value_error = some (http_exception 401)
unauthorised _ = none

-- `if not user.is_active`
abbrev pub active_user : User → Exec User
active_user user = raise_if (not user.is_active) (http_exception 403) >> pure user

-- `row is None or row.user_id != current_user.id` before the answer 404, for an account or an order
abbrev pub own_or_404 : {A : Type 0} → (A → ℕ) → User → Option A → Exec A
own_or_404 owner current_user none = raise (http_exception 404)
own_or_404 owner current_user (some row) =
    raise_if (not (owner row == current_user.id)) (http_exception 404) >> pure row

module _ (env : Env) where
  -- `uuid.UUID(user_id_str)`, which only a text has the methods for
  abbrev pub user_id_of : Option Claim → Exec ℕ
  user_id_of none = raise Error.authentication
  user_id_of (some (text s)) = or_raise Error.value_error (env.parse_uuid s)
  user_id_of (some (time t)) = raise (other "AttributeError")

  -- The `try` block.
  abbrev pub subject_of : String → Exec ℕ
  subject_of token = decode_token env token >>= λ payload. user_id_of (get_claim "sub" payload)

  unfoldable pub get_current_user : Option String → Exec User
  get_current_user header = do
    token ← bearer header
    user_id ← translating (subject_of token) unauthorised
    user ← get_by_id users user_id >>= or_raise (http_exception 401)
    active_user user

  -- A route that depends on `CurrentUser`.
  abbrev pub authenticated : {A : Type 0} → Option String → (User → Exec A) → Exec A
  authenticated header handler = get_current_user header >>= handler
