-- ===== src/Services/Onboarding/Registered.antt =====
-- What a registration has written, and that it cannot be repeated.
use crypto_brokerage.Base.{
  String, ℕ, ◌+◌, ◌≡◌, sym, ap, ◌∙◌, inl, inr, Bool, true, Option, none, some, [], ◌∷◌, ◌++◌, find,
  find-append_none, str_eq, eq_iff, Option-cases, provided-some,
}
use crypto_brokerage.Models.{
  user_fits, profile_fits, account_fits, User, UserProfile, KycStatus, Account, AccountType,
}
use crypto_brokerage.Errors.{ok, err, user_already_exists}
use crypto_brokerage.Env.{Env}
use crypto_brokerage.Session.{Db, World, Exec, ◌>>=◌, ◌>>◌, pure}
use crypto_brokerage.Session.Outcome.{Result-cases, Returns, bind-Returns, pure-Returns}
use crypto_brokerage.Security.{hash_password}
use crypto_brokerage.Repository.{stored, add}
use crypto_brokerage.Repository.Writes.{add-Returns}
use crypto_brokerage.Tables
use crypto_brokerage.Repositories.Accounts.{create_default_account}
use crypto_brokerage.Repositories.Users.{exists_by_email, create_with_profile}
use crypto_brokerage.Services.Onboarding.{Registration, UserRegistrationResult, register_user}

-- The new rows.
pub record IsRegistered (env : Env) (r : Registration) (before after : Db)
    (u : UserRegistrationResult) : Type 0 where
  pub user : User
  pub profile : UserProfile
  pub account : Account
  pub identified : user.id ≡ u.user_id
  pub emailed : user.email ≡ env.lower r.email
  pub salted : ℕ
  pub hashed : hash_password env salted r.password ≡ ok user.hashed_password
  pub active : user.is_active ≡ true
  pub profile_of : profile.user_id ≡ user.id
  pub pending : profile.kyc_status ≡ KycStatus.pending
  pub named : profile.full_name ≡ r.full_name
  pub taxed : profile.tax_id ≡ r.tax_id
  pub residing : profile.country ≡ r.country
  pub account_of : account.user_id ≡ user.id
  pub in_default : account.currency ≡ env.settings.default_account_currency
  pub fiat : account.account_type ≡ AccountType.fiat
  pub opened : account.id ≡ u.account_id
  pub users : after.users ≡ before.users ++ (user ∷ [])
  pub user_profiles : after.user_profiles ≡ before.user_profiles ++ (profile ∷ [])
  pub accounts : after.accounts ≡ before.accounts ++ (account ∷ [])
  pub nothing_else : after ≡ record before {
    users = before.users ++ (user ∷ []);
    user_profiles = before.user_profiles ++ (profile ∷ []);
    accounts = before.accounts ++ (account ∷ []);
  }

module _ (env : Env) (r : Registration) where
  abbrev pub taken : Db → Option User
  taken db = find (λ (u : User). str_eq u.email (env.lower r.email)) db.users

  -- A registration is refused when the e-mail, in small letters, is a user's, and nothing is written.
  pub register_user-taken :
      (w : World) (u : User)
      → taken w.db ≡ some u
      → register_user env r w ≡ (err user_already_exists, w)
  unfolding register_user exists_by_email
  register_user-taken w u h = rw h

  abbrev pub user_row : String → ℕ → Option User
  user_row hashed i =
      stored user_fits
        (record { id = i; email = env.lower r.email; hashed_password = hashed; is_active = true })

  abbrev pub profile_row : User → ℕ → Option UserProfile
  profile_row user i = stored profile_fits (record {
    id = i;
    user_id = user.id;
    full_name = r.full_name;
    tax_id = r.tax_id;
    kyc_status = KycStatus.pending;
    country = r.country;
  })

  abbrev pub account_row : User → ℕ → Option Account
  account_row user i = stored account_fits (record {
    id = i;
    user_id = user.id;
    currency = env.settings.default_account_currency;
    account_type = AccountType.fiat;
  })

  abbrev open_account : User → Exec UserRegistrationResult
  open_account user = add Tables.accounts env (account_row user) >>= λ account.
      pure (record { user_id = user.id; account_id = account.id })

  -- The three inserts, one after the other.
  inserted :
      (hashed : String) (n : ℕ) (w : World) (u : UserRegistrationResult) (w' : World)
      → hash_password env n r.password ≡ ok hashed
      → Returns
          (add Tables.users env (user_row hashed)
            >>= (λ user. add Tables.user_profiles env (profile_row user) >> pure user)
            >>= open_account)
          w
          u
          w'
      → IsRegistered env r w.db w'.db u
  inserted hashed n w u w' secret h =
      let (user, h1, h2) =
        bind-Returns
          (add Tables.users env (user_row hashed) >>= λ user.
            add Tables.user_profiles env (profile_row user) >> pure user)
          open_account w u w' h in
      let (user1, h3, h4) =
        bind-Returns (add Tables.users env (user_row hashed))
          (λ user. add Tables.user_profiles env (profile_row user) >> pure user) w user _ h1 in
      let (profile, h5, h6) =
        bind-Returns (add Tables.user_profiles env (profile_row user1)) (λ _. pure user1) _ user _
          h4 in
      let (account, h7, h8) =
        bind-Returns (add Tables.accounts env (account_row user))
          (λ a. pure (record { user_id = user.id; account_id = a.id })) _ u w' h2 in
      let (made, _, left) = add-Returns Tables.users env (user_row hashed) w user1 _ h3 in
      let (made1, _, left1) =
        add-Returns Tables.user_profiles env (profile_row user1) _ profile _ h5 in
      let (made2, _, left2) = add-Returns Tables.accounts env (account_row user) _ account _ h7 in
      let (own, stayed) = pure-Returns user1 user _ _ h6 in
      let (answer, ended) = pure-Returns {A = UserRegistrationResult} _ u _ w' h8 in
      let m = (provided-some _ _ _ made).1 in
      let m1 = (provided-some _ _ _ made1).1 in
      let m2 = (provided-some _ _ _ made2).1 in
      record {
        user = user1;
        profile = profile;
        account = account;
        identified =
            ap (λ (x : User). x.id) own ∙ ap (λ (x : UserRegistrationResult). x.user_id) answer;
        emailed = ap (λ (x : User). x.email) (sym m);
        salted = n;
        hashed = secret ∙ ap (λ (x : User). ok x.hashed_password) m;
        active = ap (λ (x : User). x.is_active) (sym m);
        profile_of = ap (λ (x : UserProfile). x.user_id) (sym m1);
        pending = ap (λ (x : UserProfile). x.kyc_status) (sym m1);
        named = ap (λ (x : UserProfile). x.full_name) (sym m1);
        taxed = ap (λ (x : UserProfile). x.tax_id) (sym m1);
        residing = ap (λ (x : UserProfile). x.country) (sym m1);
        account_of = ap (λ (x : Account). x.user_id) (sym m2) ∙ ap (λ (x : User). x.id) (sym own);
        in_default = ap (λ (x : Account). x.currency) (sym m2);
        fiat = ap (λ (x : Account). x.account_type) (sym m2);
        opened = ap (λ (x : UserRegistrationResult). x.account_id) answer;
        users =
            ap (λ (x : World). x.db.users) (sym ended)
            ∙ ap (λ (x : World). x.db.users) left2
            ∙ ap (λ (x : World). x.db.users) (sym stayed)
            ∙ ap (λ (x : World). x.db.users) left1
            ∙ ap (λ (x : World). x.db.users) left;
        user_profiles =
            ap (λ (x : World). x.db.user_profiles) (sym ended)
            ∙ ap (λ (x : World). x.db.user_profiles) left2
            ∙ ap (λ (x : World). x.db.user_profiles) (sym stayed)
            ∙ ap (λ (x : World). x.db.user_profiles) left1
            ∙ ap (λ (x : World). x.db.user_profiles ++ (profile ∷ [])) left;
        accounts =
            ap (λ (x : World). x.db.accounts) (sym ended)
            ∙ ap (λ (x : World). x.db.accounts) left2
            ∙ ap (λ (x : World). x.db.accounts ++ (account ∷ [])) (sym stayed)
            ∙ ap (λ (x : World). x.db.accounts ++ (account ∷ [])) left1
            ∙ ap (λ (x : World). x.db.accounts ++ (account ∷ [])) left;
        nothing_else =
            ap (λ (x : World). x.db) (sym ended)
            ∙ ap (λ (x : World). x.db) left2
            ∙ ap (λ (x : World). record x.db { accounts = x.db.accounts ++ (account ∷ []) })
                (sym stayed)
            ∙ ap (λ (x : World). record x.db { accounts = x.db.accounts ++ (account ∷ []) }) left1
            ∙ ap
                (λ (x : World). record x.db {
                  user_profiles = x.db.user_profiles ++ (profile ∷ []);
                  accounts = x.db.accounts ++ (account ∷ []);
                })
                left;
      }

  -- A registration that returns found no user with the e-mail, in small letters, and has added three
  -- rows and changed nothing else: a user with that e-mail and the hash of the password, active; its profile with the full
  -- name, the tax number and the country of the registration, waiting for approval; and its fiat
  -- account in the default currency. The keys of the user and of the account are answered.
  pub register_user-Returns :
      (w : World) (u : UserRegistrationResult) (w' : World)
      → Returns (register_user env r) w u w'
      → (taken w.db ≡ none) × IsRegistered env r w.db w'.db u
  unfolding register_user exists_by_email create_with_profile create_default_account
  register_user-Returns w u w' h = elim (Option-cases (taken w.db)) [
    | inl free ↦
        let h1 = rw free at h in
        elim (Result-cases (hash_password env w.draws r.password)) [
          | inl (hashed, e) ↦
              (free, inserted hashed w.draws (record w { draws = w.draws + 1 }) u w' e (rw e at h1))
          | inr (x, e) ↦ let bad = rw e at h1 in absurd (cc bad)
        ]
    | inr (v, e) ↦ let bad = rw e at h in absurd (cc bad)
  ]

-- An e-mail registers once: after a registration that returned, one with the same e-mail, in small
-- letters, is refused and writes nothing.
pub register_user_again :
    (env : Env) (r r' : Registration) (w : World) (u : UserRegistrationResult) (w' : World)
    → Returns (register_user env r) w u w'
    → env.lower r'.email ≡ env.lower r.email
    → register_user env r' w' ≡ (err user_already_exists, w')
register_user_again env r r' w u w' h same =
    let (free, done) = register_user-Returns env r w u w' h in
    let p : User → Bool = λ x. str_eq x.email (env.lower r.email) in
    let own : p done.user ≡ true = (eq_iff done.user.email (env.lower r.email)).1 done.emailed in
    let alone : find p (done.user ∷ []) ≡ some done.user = rw own in
    let found : find p w'.db.users ≡ some done.user =
      ap (find p) done.users ∙ find-append_none p w.db.users (done.user ∷ []) free ∙ alone in
    register_user-taken env r' w' done.user
      (ap (λ s. find (λ (x : User). str_eq x.email s) w'.db.users) same ∙ found)
