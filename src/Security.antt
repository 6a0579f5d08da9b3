-- ===== src/Security.antt =====
-- app/core/security.py: passwords by `bcrypt` and tokens by `jose`, both of which are parameters.
use crypto_brokerage.Base.{
  ℕ, ◌+◌, ◌-◌, ◌*◌, Bool, Option, none, some, String, [], ◌∷◌, str_eq, ◌==◌, if◌then◌else◌,
}
use crypto_brokerage.Base.Int.{ℤ, pos, negsuc, magnitude}
use crypto_brokerage.Errors.{Result, authentication}
use crypto_brokerage.Env.{Env, Claim, text, time, Claims}
use crypto_brokerage.Session.{Exec, ◌>>=◌, pure, or_raise, now}

abbrev pub hash_password : Env → ℕ → String → Result String
hash_password env n plain_password = env.hashpw n plain_password

abbrev pub verify_password : Env → String → String → Result Bool
verify_password env plain_password hashed_password = env.checkpw plain_password hashed_password

-- A claim in a payload, in the place of an old one with its name.
abbrev pub set_claim : String → Claim → Claims → Claims
set_claim k v [] = (k, v) ∷ []
set_claim k v ((j, u) ∷ cs) = if str_eq j k then (k, v) ∷ cs else (j, u) ∷ set_claim k v cs

-- `{**claims, **extra}`
abbrev pub merge : Claims → Claims → Claims
merge claims [] = claims
merge claims ((k, v) ∷ extra) = merge (set_claim k v claims) extra

-- `payload.get(k)`
abbrev pub get_claim : String → Claims → Option Claim
get_claim k [] = none
get_claim k ((j, v) ∷ cs) = if str_eq j k then some v else get_claim k cs

-- The payload of a token of a kind for a subject.
abbrev pub payload_of : String → String → ℕ → ℕ → Claims
payload_of kind subject expire issued =
    ("sub", text subject) ∷ ("exp", time expire) ∷ ("iat", time issued) ∷ ("type", text kind) ∷ []

-- `expires_delta or timedelta(minutes=...)`, in seconds: a delta of zero counts as none.
abbrev pub lifetime : Env → Option ℤ → ℤ
lifetime env none = pos (env.settings.jwt_access_token_expire_minutes * 60)
lifetime env (some delta) =
    if magnitude delta == 0 then pos (env.settings.jwt_access_token_expire_minutes * 60) else delta

-- A time and a span of seconds; what is before the epoch counts as the epoch.
abbrev pub later : ℕ → ℤ → ℕ
later start (pos seconds) = start + seconds
later start (negsuc seconds) = start - seconds - 1

module _ (env : Env) where
  abbrev pub sign : Claims → String
  sign payload = env.jwt_encode payload env.settings.jwt_secret_key env.settings.jwt_algorithm

  unfoldable pub create_access_token : String → Claims → Option ℤ → Exec String
  create_access_token subject extra_claims expires_delta = do
    start ← now
    issued ← now
    pure (
        sign (
          merge (payload_of "access" subject (later start (lifetime env expires_delta)) issued)
            extra_claims))

  unfoldable pub create_refresh_token : String → Exec String
  create_refresh_token subject = do
    start ← now
    issued ← now
    pure (
        sign (
          payload_of "refresh" subject (start + env.settings.jwt_refresh_token_expire_days * 86400)
            issued))

  unfoldable pub decode_token : String → Exec Claims
  decode_token token = do
    instant ← now
    or_raise authentication
        (env.jwt_decode instant token env.settings.jwt_secret_key env.settings.jwt_algorithm)
