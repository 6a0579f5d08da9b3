-- ===== src/Services/Onboarding.antt =====
-- app/services/onboarding_service.py: `OnboardingService`.
pub mod Registered
pub mod Linked
pub mod Strangers
pub mod Completes
pub mod Raced
use crypto_brokerage.Base.{ℕ, Option, some, String, is_some}
use crypto_brokerage.Models.{bank_account_fits, AccountType, BankAccountStatus}
use crypto_brokerage.Errors.{user_already_exists, bank_account_already_linked}
use crypto_brokerage.Env.{Env}
use crypto_brokerage.Session.{Exec, ◌>>=◌, ◌>>◌, pure, raise_if, salt, lift}
use crypto_brokerage.Security.{hash_password}
use crypto_brokerage.Repository.{stored, add}
use crypto_brokerage.Tables.{bank_accounts}
use crypto_brokerage.Repositories.Accounts.{create_default_account}
use crypto_brokerage.Repositories.BankAccounts.{get_by_external_reference}
use crypto_brokerage.Repositories.Users.{exists_by_email, create_with_profile}

-- The arguments of `register_user`.
pub record Registration : Type 0 where
  pub email : String
  pub password : String
  pub full_name : String
  pub country : String
  pub tax_id : Option String

-- app/services/result_types.py: `UserRegistrationResult`
pub record UserRegistrationResult : Type 0 where
  pub user_id : ℕ
  pub account_id : ℕ

module _ (env : Env) where
  -- What follows the look-up of the e-mail.
  abbrev pub enrol : Registration → Exec UserRegistrationResult
  enrol r = do
    n ← salt
    hashed ← lift (hash_password env n r.password)
    user ← create_with_profile env r.email hashed r.full_name r.country r.tax_id
    account ←
        create_default_account env user.id env.settings.default_account_currency AccountType.fiat
    pure (record { user_id = user.id; account_id = account.id })

  unfoldable pub register_user : Registration → Exec UserRegistrationResult
  register_user r = do
    exists ← exists_by_email env r.email
    raise_if exists user_already_exists
    enrol r

  -- What follows the look-up of the reference. The result is the key of the new row, as in
  -- `BankAccountLinkResult`.
  abbrev pub insert_link : ℕ → String → String → Exec ℕ
  insert_link user_id external_reference bank_name = do
    bank_account ← add bank_accounts env λ i. stored bank_account_fits (record {
      id = i;
      user_id = user_id;
      external_reference = external_reference;
      bank_name = bank_name;
      status = BankAccountStatus.active;
    })
    pure bank_account.id

  unfoldable pub link_bank_account : ℕ → String → String → Exec ℕ
  link_bank_account user_id external_reference bank_name = do
    existing ← get_by_external_reference user_id external_reference
    raise_if (is_some existing) bank_account_already_linked
    insert_link user_id external_reference bank_name
