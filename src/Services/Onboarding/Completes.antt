-- ===== src/Services/Onboarding/Completes.antt =====
-- A registration whose e-mail is free and whose texts fit their columns goes through.
use crypto_brokerage.Base.{
  ℕ, ◌+◌, ◌≡◌, refl, ap, true, false, none, String, [], ◌∷◌, ◌++◌, str_eq, is_some, All,
}
use crypto_brokerage.Models.{
  User, UserProfile, Account, user_fits, profile_fits, account_fits, KycStatus, AccountType,
}
use crypto_brokerage.Errors.{ok, err, data_error}
use crypto_brokerage.Env.{Env}
use crypto_brokerage.Session.{World}
use crypto_brokerage.Session.Outcome.{Returns}
use crypto_brokerage.Security.{hash_password}
use crypto_brokerage.Repository.{add}
use crypto_brokerage.Repository.Fits.{present}
use crypto_brokerage.Repository.Writes.{with_row}
use crypto_brokerage.Repository.Inserted.{find-inserted}
use crypto_brokerage.Repository.Admitted.{all-fresh, add-admitted, add-refused}
use crypto_brokerage.Tables
use crypto_brokerage.Tables.Consistent.{IsConsistent}
use crypto_brokerage.Tables.Referring.{of_user_profiles, of_accounts}
use crypto_brokerage.Repositories.Accounts.{create_default_account}
use crypto_brokerage.Repositories.Users.{exists_by_email, create_with_profile}
use crypto_brokerage.Services.Onboarding.{Registration, register_user}
use crypto_brokerage.Services.Onboarding.Strangers.{unclashed, no_profile, no_account}
use crypto_brokerage.Services.Onboarding.Registered.{taken, user_row, profile_row, account_row}

module _ (env : Env) (r : Registration) (w : World) (hashed : String) where
  -- The three keys that the registration draws, after the salt.
  abbrev pub user_key : ℕ
  user_key = env.uuid4 (w.draws + 1)

  abbrev pub profile_key : ℕ
  profile_key = env.uuid4 (w.draws + 1 + 1)

  abbrev pub account_key : ℕ
  account_key = env.uuid4 (w.draws + 1 + 1 + 1)

  abbrev pub new_user : User
  new_user = record {
    id = user_key;
    email = env.lower r.email;
    hashed_password = hashed;
    is_active = true;
  }

  abbrev pub new_profile : UserProfile
  new_profile = record {
    id = profile_key;
    user_id = user_key;
    full_name = r.full_name;
    tax_id = r.tax_id;
    kyc_status = KycStatus.pending;
    country = r.country;
  }

  abbrev pub new_account : Account
  new_account = record {
    id = account_key;
    user_id = user_key;
    currency = env.settings.default_account_currency;
    account_type = AccountType.fiat;
  }

  -- What the registration needs of the world: the keys that it draws are new.
  abbrev pub NewKeys : Type 0
  NewKeys =
      (present Tables.users user_key w.db.users ≡ false)
      × (present Tables.user_profiles profile_key w.db.user_profiles ≡ false)
      × (present Tables.accounts account_key w.db.accounts ≡ false)

  -- What its texts need: their columns can hold them.
  abbrev pub FitTexts : Type 0
  FitTexts =
      (user_fits new_user ≡ true)
      × (profile_fits new_profile ≡ true)
      × (account_fits new_account ≡ true)

  abbrev salted : World
  salted = record w { draws = w.draws + 1 }

  abbrev with_user : World
  with_user = with_row Tables.users (record salted { draws = w.draws + 1 + 1 }) new_user

  abbrev with_profile : World
  with_profile =
      with_row Tables.user_profiles (record with_user { draws = w.draws + 1 + 1 + 1 }) new_profile

  abbrev pub registered : World
  registered =
      with_row Tables.accounts (record with_profile { draws = w.draws + 1 + 1 + 1 + 1 }) new_account

  user-added :
      taken env r w.db ≡ none
      → present Tables.users user_key w.db.users ≡ false
      → user_fits new_user ≡ true
      → add Tables.users env (user_row env r hashed) salted ≡ (ok new_user, with_user)
  user-added free new short =
      add-admitted Tables.users env (user_row env r hashed) salted new_user (rw short refl)
        (all-fresh Tables.users w.db.users new_user new
          (unclashed (env.lower r.email) w.db.users free))
        refl

  -- The new user is there for the rows that name it.
  user_is_there :
      present Tables.users user_key w.db.users ≡ false
      → All (λ (u : User). str_eq new_user.email u.email ≡ false) w.db.users
      → present Tables.users user_key (w.db.users ++ (new_user ∷ [])) ≡ true
  user_is_there new free = ap is_some (
      find-inserted Tables.users w.db.users new_user
        (all-fresh Tables.users w.db.users new_user new free))

  profile-added :
      IsConsistent w.db
      → taken env r w.db ≡ none
      → NewKeys
      → profile_fits new_profile ≡ true
      → add Tables.user_profiles env (profile_row env r new_user) with_user
        ≡ (ok new_profile, with_profile)
  profile-added c free (new, new1, _) short =
      add-admitted Tables.user_profiles env (profile_row env r new_user) with_user new_profile
        (rw short refl)
        (all-fresh Tables.user_profiles w.db.user_profiles new_profile new1
          (no_profile w.db user_key w.db.user_profiles (c.referring of_user_profiles) new))
        (user_is_there new (unclashed (env.lower r.email) w.db.users free))

  account-added :
      IsConsistent w.db
      → taken env r w.db ≡ none
      → NewKeys
      → account_fits new_account ≡ true
      → add Tables.accounts env (account_row env r new_user) with_profile
        ≡ (ok new_account, registered)
  account-added c free (new, _, new2) short =
      add-admitted Tables.accounts env (account_row env r new_user) with_profile new_account
        (rw short refl)
        (all-fresh Tables.accounts w.db.accounts new_account new2 (
          no_account w.db user_key new_account.currency w.db.accounts (c.referring of_accounts)
            new))
        (user_is_there new (unclashed (env.lower r.email) w.db.users free))

  -- In tables that keep their constraints: a registration with a free e-mail and a password that is
  -- hashed, whose texts fit their columns and whose keys are new, returns.
  pub register_user-completes :
      IsConsistent w.db
      → taken env r w.db ≡ none
      → hash_password env w.draws r.password ≡ ok hashed
      → NewKeys
      → FitTexts
      → Returns
          (register_user env r)
          w
          (record { user_id = user_key; account_id = account_key })
          registered
  unfolding register_user exists_by_email create_with_profile create_default_account
  register_user-completes c free secret new (f, f1, f2) = rw free (
      rw secret (
        rw (user-added free new.0 f)
          (rw (profile-added c free new f1) (rw (account-added c free new f2) refl))))

  -- Where the profile does not fit its columns, the registration raises `DataError`.
  pub register_user-long :
      taken env r w.db ≡ none
      → hash_password env w.draws r.password ≡ ok hashed
      → present Tables.users user_key w.db.users ≡ false
      → user_fits new_user ≡ true
      → profile_fits new_profile ≡ false
      → register_user env r w ≡ (err data_error, record with_user { draws = w.draws + 1 + 1 + 1 })
  unfolding register_user exists_by_email create_with_profile create_default_account
  register_user-long free secret new f long = rw free (
      rw secret (
        rw (user-added free new f) (
          rw
            (add-refused Tables.user_profiles env (profile_row env r new_user) with_user
              (rw long refl))
            refl)))
