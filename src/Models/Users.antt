-- ===== src/Models/Users.antt =====
-- app/models/user.py.
use crypto_brokerage.Base.{ℕ, Bool, ◌&&◌, Option, String, fits, fits_or_null}

pub data KycStatus : Type 0 where
  pending approved rejected : KycStatus

pub record User : Type 0 where
  pub id : ℕ
  pub email : String
  pub hashed_password : String
  pub is_active : Bool

pub record UserProfile : Type 0 where
  pub id : ℕ
  pub user_id : ℕ
  pub full_name : String
  pub tax_id : Option String
  pub kyc_status : KycStatus
  pub country : String

-- The lengths of the columns.
abbrev pub user_fits : User → Bool
user_fits u = fits 254 u.email && fits 128 u.hashed_password

abbrev pub profile_fits : UserProfile → Bool
profile_fits p = fits 255 p.full_name && fits_or_null 64 p.tax_id && fits 2 p.country
