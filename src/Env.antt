-- ===== src/Env.antt =====
-- What the services take from outside: the gateways, the settings, and third-party or random
-- functions, none of which is defined here.
use crypto_brokerage.Base.{ℕ, Bool, not, Option, provided, String, List}
use crypto_brokerage.Base.Int.{ℤ}
use crypto_brokerage.Decimal.{Decimal}
use crypto_brokerage.Errors.{Result}
use crypto_brokerage.Gateways.{ExchangeGateway, BankingGateway}
use crypto_brokerage.Settings.{Settings}

-- A value in the payload of a token; a `datetime` is encoded as its seconds since the epoch.
pub data Claim : Type 0 where
  text : String → Claim
  time : ℕ → Claim

abbrev pub Claims : Type 0
Claims = List (String × Claim)

pub record Env : Type 0 where
  pub exchange : ExchangeGateway
  pub banking : BankingGateway
  pub settings : Settings
  -- the value of the n-th call of `uuid.uuid4()`
  pub uuid4 : ℕ → ℕ
  -- `str(id)`
  pub str_uuid : ℕ → String
  -- `uuid.UUID(text)`; `none` is a `ValueError`
  pub parse_uuid : String → Option ℕ
  -- what a `NUMERIC(36, 18)` column makes of a number, in units of 10 ^ -18; `none` is an overflow
  pub numeric : Decimal → Option ℤ
  -- `str.lower`, `str.upper`
  pub lower : String → String
  pub upper : String → String
  -- pydantic's `EmailStr`: the normalised address, or `none` for a text that is no address
  pub email_str : String → Option String
  -- `bcrypt.hashpw` of a text in UTF-8 with the n-th random salt, and `bcrypt.checkpw`
  pub hashpw : ℕ → String → Result String
  pub checkpw : String → String → Result Bool
  -- `jwt.encode` of `jose`: the payload, the key, the algorithm
  pub jwt_encode : Claims → String → String → String
  -- `jwt.decode` at a time: the token, the key, the algorithm; `none` is a `JWTError`
  pub jwt_decode : ℕ → String → String → String → Option Claims
  -- the column `created_at` of the row with this key, which the database fills
  pub created_at : ℕ → ℕ
  -- whether SQLAlchemy loads a relationship when it is read, as outside an `AsyncSession`; inside one
  -- the read raises `MissingGreenlet`
  pub lazy_loads : Bool
  -- `decimal.Overflow`: whether the result of an operation is beyond the exponents of the context
  pub overflows : Decimal → Bool
  -- `datetime.fromtimestamp(t, tz=UTC)`, in seconds since the epoch, or the error that it raises for a
  -- time out of range
  pub fromtimestamp : ℕ → Result ℕ
  -- the place of the row with a key among the rows that ORDER BY leaves equal, which the database
  -- chooses for each LIMIT and OFFSET
  pub tie : ℕ → ℕ → ℕ → ℕ

-- The result of an operation on decimal numbers; `none` is an `Overflow`.
abbrev pub checked : Env → Decimal → Option Decimal
checked env d = provided (not (env.overflows d)) d
