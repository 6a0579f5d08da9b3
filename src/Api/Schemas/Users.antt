-- ===== src/Api/Schemas/Users.antt =====
-- app/api/schemas/user.py.
use Prim.Native.String.{count}
use crypto_brokerage.Base.{
  ℕ, Bool, true, ◌&&◌, Option, none, some, String, and_then, leb, if◌then◌else◌,
}
use crypto_brokerage.Models.{KycStatus}
use crypto_brokerage.Env.{Env}
use crypto_brokerage.Services.Onboarding.{Registration}

-- `min_length`, `max_length`
abbrev pub within : ℕ → ℕ → String → Bool
within low high s = leb low (count s) && leb (count s) high

abbrev pub within_or_none : ℕ → Option String → Bool
within_or_none high none = true
within_or_none high (some s) = leb (count s) high

-- The fields of the body before their validation.
pub record UserCreate : Type 0 where
  pub email : String
  pub password : String
  pub full_name : String
  pub country : String
  pub tax_id : Option String

abbrev pub is_valid_user : UserCreate → Bool
is_valid_user p =
    within 8 128 p.password
    && within 1 255 p.full_name
    && within 2 2 p.country
    && within_or_none 64 p.tax_id

-- What the handler passes to `register_user`; `none` is a refusal. `uppercase_country` runs after the
-- length test.
abbrev pub registration_of : Env → UserCreate → Option Registration
registration_of env p = and_then (env.email_str p.email) λ email.
    if is_valid_user p
    then some (record {
      email = email;
      password = p.password;
      full_name = p.full_name;
      country = env.upper p.country;
      tax_id = p.tax_id;
    })
    else none

pub record UserRead : Type 0 where
  pub id : ℕ
  pub email : String
  pub is_active : Bool
  pub created_at : ℕ

pub record TokenResponse : Type 0 where
  pub access_token : String
  pub refresh_token : String
  pub token_type : String

-- `UserProfileRead`, `UserWithProfileRead` and `LoginRequest`, which no route uses.
pub record UserProfileRead : Type 0 where
  pub id : ℕ
  pub user_id : ℕ
  pub full_name : String
  pub kyc_status : KycStatus
  pub country : String

pub record UserWithProfileRead : Type 0 where
  pub user : UserRead
  pub profile : Option UserProfileRead

pub record LoginRequest : Type 0 where
  pub email : String
  pub password : String
