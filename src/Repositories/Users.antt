-- ===== src/Repositories/Users.antt =====
-- app/repositories/user_repository.py: `UserRepository` and `UserProfileRepository`.
use crypto_brokerage.Base.{ℕ, Bool, true, Option, none, some, String, ◌==◌, str_eq, find, is_some}
use crypto_brokerage.Models.{user_fits, profile_fits, User, UserProfile, KycStatus}
use crypto_brokerage.Env.{Env}
use crypto_brokerage.Session.{Exec, ◌>>=◌, ◌>>◌, pure, query}
use crypto_brokerage.Repository.{stored, add, update}
use crypto_brokerage.Tables.{users, user_profiles}

module _ (env : Env) where
  unfoldable pub get_by_email : String → Exec (Option User)
  get_by_email email = query (λ db. find (λ u. str_eq u.email (env.lower email)) db.users)

  unfoldable pub exists_by_email : String → Exec Bool
  exists_by_email email =
      query (λ db. is_some (find (λ (u : User). str_eq u.email (env.lower email)) db.users))

  unfoldable pub create_with_profile : String → String → String → String → Option String → Exec User
  create_with_profile email hashed_password full_name country tax_id = do
    user ← add users env λ i. stored user_fits (record {
      id = i;
      email = env.lower email;
      hashed_password = hashed_password;
      is_active = true;
    })
    add user_profiles env λ i. stored profile_fits (record {
      id = i;
      user_id = user.id;
      full_name = full_name;
      tax_id = tax_id;
      kyc_status = KycStatus.pending;
      country = country;
    })
    pure user

unfoldable pub get_by_user_id : ℕ → Exec (Option UserProfile)
get_by_user_id user_id = query (λ db. find (λ p. p.user_id == user_id) db.user_profiles)

abbrev set_kyc_status : KycStatus → Option UserProfile → Exec (Option UserProfile)
set_kyc_status status none = pure none
set_kyc_status status (some profile) = do
  updated ← update user_profiles profile.id (λ p. some (record p { kyc_status = status }))
  pure (some updated)

unfoldable pub update_kyc_status : ℕ → KycStatus → Exec (Option UserProfile)
unfolding get_by_user_id
update_kyc_status user_id status = get_by_user_id user_id >>= set_kyc_status status
