-- ===== src/Api/Auth/Login.antt =====
-- From a registration to a session: POST /auth/register, POST /auth/login and the bearer tokens.
use crypto_brokerage.Base.{
  ℕ, ◌+◌, ◌*◌, ◌≤◌, ◌≡◌, refl, ap, ◌∙◌, Bool, true, Option, some, String, [], ◌∷◌, find,
  find-append_none, str_eq, eq_iff,
}
use crypto_brokerage.Models.{User}
use crypto_brokerage.Errors.{ok}
use crypto_brokerage.Env.{Env, Claims}
use crypto_brokerage.Session.{Db, World}
use crypto_brokerage.Session.Outcome.{Returns}
use crypto_brokerage.Security.{
  payload_of, sign, verify_password, hash_password, create_access_token, create_refresh_token,
}
use crypto_brokerage.Repositories.Users.{get_by_email}
use crypto_brokerage.Services.Onboarding.{Registration, UserRegistrationResult, register_user}
use crypto_brokerage.Services.Onboarding.Registered.{register_user-Returns}
use crypto_brokerage.Api.{get_current_user}
use crypto_brokerage.Api.Current.{user_at, get_current_user-accepts}
use crypto_brokerage.Api.Schemas.Users.{TokenResponse}
use crypto_brokerage.Api.Auth.{login}

module _ (env : Env) where
  -- The payloads of the two tokens that a user is given at a time.
  abbrev pub access_payload : User → ℕ → Claims
  access_payload user clock =
      payload_of "access" (env.str_uuid user.id)
        (clock + env.settings.jwt_access_token_expire_minutes * 60) clock

  abbrev pub refresh_payload : User → ℕ → Claims
  refresh_payload user clock =
      payload_of "refresh" (env.str_uuid user.id)
        (clock + env.settings.jwt_refresh_token_expire_days * 86400) clock

  abbrev pub tokens_of : User → ℕ → TokenResponse
  tokens_of user clock = record {
    access_token = sign env (access_payload user clock);
    refresh_token = sign env (refresh_payload user clock);
    token_type = "bearer";
  }

  abbrev pub user_with : String → Db → Option User
  user_with username db = find (λ (u : User). str_eq u.email (env.lower username)) db.users

  -- An active user who gives the right password is given both tokens.
  pub login-right :
      (username password : String) (w : World) (user : User)
      → user_with username w.db ≡ some user
      → verify_password env password user.hashed_password ≡ ok true
      → user.is_active ≡ true
      → Returns (login env username password) w (tokens_of user w.clock) w
  unfolding login get_by_email create_access_token create_refresh_token
  login-right username password w user found verified active = rw found (rw verified (rw active))

  -- The `jose` library reads the token back unless it has expired, and `uuid` the user's key.
  abbrev pub Decodes : Claims → ℕ → User → World → Type 0
  Decodes payload expire user w =
      (w.clock ≤ expire
        → env.jwt_decode w.clock (sign env payload) env.settings.jwt_secret_key
            env.settings.jwt_algorithm
          ≡ some payload)
      × (env.parse_uuid (env.str_uuid user.id) ≡ some user.id)

  token_accepted :
      (kind : String) (expire issued : ℕ) (user user' : User) (later : World)
      → Decodes (payload_of kind (env.str_uuid user.id) expire issued) expire user later
      → later.clock ≤ expire
      → user_at env user.id later.db ≡ some user'
      → user'.is_active ≡ true
      → Returns
          (get_current_user env
            (some (sign env (payload_of kind (env.str_uuid user.id) expire issued))))
          later
          user'
          later
  token_accepted kind expire issued user user' later decodes early stored active =
      get_current_user-accepts env _ later user' (record {
        named = record {
          token = sign env (payload_of kind (env.str_uuid user.id) expire issued);
          sent = refl;
          claims = payload_of kind (env.str_uuid user.id) expire issued;
          decoded = decodes.0 early;
          subject = env.str_uuid user.id;
          subject_of = refl;
          user_id = user.id;
          parsed = decodes.1;
          stored = stored;
        };
        active = active;
      })

  -- An active user who gives the right password is given an access token by which a later request
  -- knows the user, as the row then reads: until the token expires, while the user is active, provided
  -- that `jose` reads back until then what it has signed, and `uuid` the text of the user's key.
  pub login-get_current_user :
      (username password : String) (w later : World) (user user' : User)
      → user_with username w.db ≡ some user
      → verify_password env password user.hashed_password ≡ ok true
      → user.is_active ≡ true
      → Decodes
          (access_payload user w.clock)
          (w.clock + env.settings.jwt_access_token_expire_minutes * 60)
          user
          later
      → later.clock ≤ w.clock + env.settings.jwt_access_token_expire_minutes * 60
      → user_at env user.id later.db ≡ some user'
      → user'.is_active ≡ true
      → (tokens : TokenResponse) × Returns (login env username password) w tokens w
        × Returns (get_current_user env (some tokens.access_token)) later user' later
  login-get_current_user username password w later user user' found verified active decodes early
        stored still =
      (
        tokens_of user w.clock,
        login-right username password w user found verified active,
        token_accepted "access" _ _ user user' later decodes early stored still,
      )

  -- An active user who gives the right password is also given a refresh token, and `get_current_user`
  -- accepts it in the place of an access token: until the refresh token expires, while the user is
  -- active, provided that `jose` reads back until then what it has signed, and `uuid` the text of the
  -- user's key. The kind of a token is not read.
  pub login-refresh_token :
      (username password : String) (w later : World) (user user' : User)
      → user_with username w.db ≡ some user
      → verify_password env password user.hashed_password ≡ ok true
      → user.is_active ≡ true
      → Decodes
          (refresh_payload user w.clock)
          (w.clock + env.settings.jwt_refresh_token_expire_days * 86400)
          user
          later
      → later.clock ≤ w.clock + env.settings.jwt_refresh_token_expire_days * 86400
      → user_at env user.id later.db ≡ some user'
      → user'.is_active ≡ true
      → (tokens : TokenResponse) × Returns (login env username password) w tokens w
        × Returns (get_current_user env (some tokens.refresh_token)) later user' later
  login-refresh_token username password w later user user' found verified active decodes early
        stored still =
      (
        tokens_of user w.clock,
        login-right username password w user found verified active,
        token_accepted "refresh" _ _ user user' later decodes early stored still,
      )

  -- A user who has registered can log in at once, with the e-mail in any letters and the password of
  -- the registration, provided that `bcrypt` verifies the passwords that it has hashed.
  pub register_user-login :
      (r : Registration) (w : World) (u : UserRegistrationResult) (w' : World) (username : String)
      → Returns (register_user env r) w u w'
      → env.lower username ≡ env.lower r.email
      → ((n : ℕ) (hashed : String)
          → hash_password env n r.password ≡ ok hashed
          → verify_password env r.password hashed ≡ ok true)
      → (user : User) × (user.id ≡ u.user_id)
        × Returns (login env username r.password) w' (tokens_of user w'.clock) w'
  register_user-login r w u w' username h same verifies =
      let (free, done) = register_user-Returns env r w u w' h in
      let p : User → Bool = λ x. str_eq x.email (env.lower r.email) in
      let own : p done.user ≡ true = (eq_iff done.user.email (env.lower r.email)).1 done.emailed in
      let alone : find p (done.user ∷ []) ≡ some done.user = rw own in
      let found : find p w'.db.users ≡ some done.user =
        ap (find p) done.users ∙ find-append_none p w.db.users (done.user ∷ []) free ∙ alone in
      let named : user_with username w'.db ≡ some done.user =
        ap (λ s. find (λ (x : User). str_eq x.email s) w'.db.users) same ∙ found in
      (
        done.user,
        done.identified,
        login-right username r.password w' done.user named (verifies done.salted _ done.hashed)
            done.active,
      )
