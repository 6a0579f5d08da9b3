-- ===== src/Api/Auth.antt =====
-- app/api/v1/auth.py.
pub mod Login
pub mod Created
use crypto_brokerage.Base.{ℕ, Bool, Option, none, some, String, not, []}
use crypto_brokerage.Errors.{Error, http_exception}
use crypto_brokerage.Models.{User}
use crypto_brokerage.Env.{Env}
use crypto_brokerage.Session.{
  World, Exec, ◌>>=◌, ◌>>◌, pure, raise, or_raise, raise_if, lift, translating,
}
use crypto_brokerage.Security.{verify_password, create_access_token, create_refresh_token}
use crypto_brokerage.Repositories.Users.{get_by_email}
use crypto_brokerage.Services.Onboarding.{Registration, UserRegistrationResult, register_user}
use crypto_brokerage.Api.{Response, respond}
use crypto_brokerage.Api.Schemas.Users.{UserCreate, registration_of, UserRead, TokenResponse}

-- `except UserAlreadyExistsError`
abbrev pub user_conflict : Error → Option Error
user_conflict Error.user_already_exists = some (http_exception 409)
user_conflict _ = none

module _ (env : Env) where
  unfoldable pub register : Registration → Exec UserRegistrationResult
  register payload = translating (register_user env payload) user_conflict

  -- `user is None or not verify_password(...)`
  abbrev pub credentials : Option User → String → Exec User
  credentials none password = raise (http_exception 401)
  credentials (some user) password = do
    verified ← lift (verify_password env password user.hashed_password)
    raise_if (not verified) (http_exception 401)
    pure user

  unfoldable pub login : String → String → Exec TokenResponse
  login username password = do
    found ← get_by_email env username
    user ← credentials found password
    raise_if (not user.is_active) (http_exception 403)
    access ← create_access_token env (env.str_uuid user.id) [] none
    refresh ← create_refresh_token env (env.str_uuid user.id)
    pure (record { access_token = access; refresh_token = refresh; token_type = "bearer" })

  -- `get_me`: it reads no token.
  unfoldable pub get_me : Exec UserRead
  get_me = raise (http_exception 501)

  -- POST /auth/register
  abbrev pub post_register : UserCreate → World → Response UserRegistrationResult × World
  post_register p = respond 201 (or_raise (http_exception 422) (registration_of env p) >>= register)

  -- POST /auth/login
  abbrev pub post_login : String → String → World → Response TokenResponse × World
  post_login username password = respond 200 (login username password)
