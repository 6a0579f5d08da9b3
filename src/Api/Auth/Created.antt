-- ===== src/Api/Auth/Created.antt =====
-- POST /auth/register with a body that the schema accepts.
use crypto_brokerage.Base.{
  ◌≡◌, refl, true, ◌&&◌, Option, none, some, String, fits, fits_or_null, Bool-cases, inl, inr,
  if◌then◌else◌, ◌+◌,
}
use crypto_brokerage.Errors.{ok}
use crypto_brokerage.Env.{Env}
use crypto_brokerage.Session.{World, request}
use crypto_brokerage.Security.{hash_password}
use crypto_brokerage.Repository.Unique.{both}
use crypto_brokerage.Tables.Consistent.{IsConsistent}
use crypto_brokerage.Services.Onboarding.{Registration, UserRegistrationResult}
use crypto_brokerage.Services.Onboarding.Registered.{taken}
use crypto_brokerage.Services.Onboarding.Completes.{
  NewKeys, user_key, account_key, registered, register_user-completes, register_user-long,
}
use crypto_brokerage.Api.{server_error, Response, respond}
use crypto_brokerage.Api.Schemas.Users.{UserCreate, within, within_or_none, is_valid_user}
use crypto_brokerage.Api.Auth.{register, post_register}

-- What the schema says of the texts of a profile.
valid_texts :
    (p : UserCreate)
    → is_valid_user p ≡ true
    → (fits 255 p.full_name ≡ true) × (fits_or_null 64 p.tax_id ≡ true)
valid_texts p h =
    let name = within 1 255 p.full_name in
    let country = within 2 2 p.country in
    let (first, tax) =
      both (within 8 128 p.password && name && country) (within_or_none 64 p.tax_id) h in
    let (named, _) = both (within 8 128 p.password && name) country first in
    let (_, full_name) = both (within 8 128 p.password) name named in
    ((both _ (fits 255 p.full_name) full_name).1, same_test p.tax_id tax)
  where
    same_test : (o : Option String) → within_or_none 64 o ≡ true → fits_or_null 64 o ≡ true
    same_test none q = refl
    same_test (some s) q = q

module _ (env : Env) (p : UserCreate) (email hashed : String) (w : World) where
  -- What the handler hands to the service.
  abbrev pub registering : Registration
  registering = record {
    email = email;
    password = p.password;
    full_name = p.full_name;
    country = env.upper p.country;
    tax_id = p.tax_id;
  }

  -- The circumstances of a registration that nothing stands against but its country: the tables keep
  -- their constraints, the address is valid and no user's, the body passes the schema, `bcrypt`
  -- hashes the password, the keys to be drawn are new, and the columns can hold the e-mail in small
  -- letters, the hash and the default currency.
  pub record IsClear : Type 0 where
    pub consistent : IsConsistent w.db
    pub addressed : env.email_str p.email ≡ some email
    pub valid : is_valid_user p ≡ true
    pub free : taken env registering w.db ≡ none
    pub secret : hash_password env w.draws p.password ≡ ok hashed
    pub keys : NewKeys env registering w hashed
    pub email_fits : fits 254 (env.lower email) ≡ true
    pub hash_fits : fits 128 hashed ≡ true
    pub currency_fits : fits 10 env.settings.default_account_currency ≡ true

  abbrev pub made : UserRegistrationResult
  made = record {
    user_id = user_key env registering w hashed;
    account_id = account_key env registering w hashed;
  }

  -- In tables that keep their constraints, for a body that passes the schema, with a free e-mail, a
  -- password that is hashed, an e-mail, a hash and a default currency that fit their columns, and new
  -- keys: if the country has at most two letters in capitals, the client is answered 201 and the user,
  -- the profile and the account are in the tables; otherwise the answer is 500 and the tables are as
  -- before.
  pub post_register_country :
      IsClear
      → post_register env p w ≡ (
          if fits 2 (env.upper p.country)
          then (Response.reply 201 made, registered env registering w hashed)
          else (Response.problem server_error, record w { draws = w.draws + 1 + 1 + 1 }))
  unfolding respond request register
  post_register_country c =
      let (name, tax) = valid_texts p c.valid in
      elim (Bool-cases (fits 2 (env.upper p.country))) [
        | inl short ↦
            let done =
              register_user-completes env registering w hashed c.consistent c.free c.secret c.keys
                (rw (c.email_fits) (c.hash_fits), rw (name, tax) short, c.currency_fits) in
            rw (short, c.addressed) (rw (c.valid) (rw done refl))
        | inr long ↦
            let refused =
              register_user-long env registering w hashed c.free c.secret (c.keys.0)
                (rw (c.email_fits) (c.hash_fits)) (rw (name, tax) long) in
            rw (long, c.addressed) (rw (c.valid) (rw refused refl))
      ]
