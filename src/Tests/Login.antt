-- ===== src/Tests/Login.antt =====
-- Log-ins and the account routes at concrete inputs.
use crypto_brokerage.Base.{false, none, ◌≡◌, ◌⊎◌, refl, some, All, arith}
use crypto_brokerage.Models.{User}
use crypto_brokerage.Session.{World, request}
use crypto_brokerage.Session.Outcome.{Returns}
use crypto_brokerage.Security.{decode_token}
use crypto_brokerage.Repository
use crypto_brokerage.Repositories.Accounts
use crypto_brokerage.Repositories.Accounts.{balance_of}
use crypto_brokerage.Api.{Response, Problem, respond, get_current_user}
use crypto_brokerage.Api.Current.{IsNamed, IsCurrent}
use crypto_brokerage.Api.Guarded.{guarded, guarded_cases}
use crypto_brokerage.Api.Schemas.Users.{UserCreate, TokenResponse}
use crypto_brokerage.Api.Schemas.Accounts.{AccountRead, account_read}
use crypto_brokerage.Api.Auth.{login, post_register}
use crypto_brokerage.Api.Auth.Created.{made, IsClear, registering, post_register_country}
use crypto_brokerage.Services.Onboarding.Completes.{registered}
use crypto_brokerage.Api.Auth.Login.{login-get_current_user, login-refresh_token}
use crypto_brokerage.Api.Accounts.{list_accounts, get_balance, get_account_balance}
use crypto_brokerage.Api.Accounts.Listed.{accounts_read, list_accounts_agree}
use crypto_brokerage.Api.Owned.{get_account_balance_owned}
use crypto_brokerage.Tests.Scene.{calm, world, user, account}
use crypto_brokerage.Tests.Scene.Consistent.{tables-IsConsistent}

abbrev later : World
later = record world { clock = 4600 }

login-get_current_user_example :
    (tokens : TokenResponse) × Returns (login calm "a@b.c" "h") world tokens world
    × Returns (get_current_user calm (some tokens.access_token)) later user later
login-get_current_user_example =
    login-get_current_user calm "a@b.c" "h" world later user user refl refl refl (λ _. refl, refl)
      (omega arith) refl refl

-- Six days after the access token has expired.
abbrev much_later : World
much_later = record world { clock = 605000 }

login-refresh_token_example :
    (tokens : TokenResponse) × Returns (login calm "a@b.c" "h") world tokens world
    × Returns (get_current_user calm (some tokens.refresh_token)) much_later user much_later
login-refresh_token_example =
    login-refresh_token calm "a@b.c" "h" world much_later user user refl refl refl (λ _. refl, refl)
      (omega arith) refl refl

guarded_cases_example :
    ((u : User) × IsCurrent calm (some "access") world u
      × (guarded calm 200 (some "access") list_accounts world
          ≡ respond 200 (list_accounts u) world))
    ⊎ ((p : Problem) × (guarded calm 200 (some "access") list_accounts world
          ≡ (Response.problem p, world))
        × (((p.status ≡ 403)
              × (u : User) × IsNamed calm (some "access") world u
              × (u.is_active ≡ false))
            ⊎ ((¬ ((u : User) × IsNamed calm (some "access") world u))
                × ((p.status ≡ 401) ⊎ (p.status ≡ 500)))))
guarded_cases_example = guarded_cases calm 200 (some "access") list_accounts world

abbrev shown : AccountRead
shown = account_read (account 3 "BRL") (balance_of 3 world.db)

answered : (get_account_balance calm (some "access") 3 world).0 ≡ Response.reply 200 shown
unfolding respond request get_current_user decode_token get_balance Repository.get_by_id
    Accounts.get_balance
answered = refl

get_account_balance_owned_example :
    (u : User) × IsCurrent calm (some "access") world u
    × (shown.id ≡ 3)
    × (shown.user_id ≡ u.id)
    × (shown.balance ≡ balance_of 3 world.db)
    × ((get_account_balance calm (some "access") 3 world).1 ≡ world)
get_account_balance_owned_example =
    get_account_balance_owned calm (some "access") 3 world shown answered

list_accounts_agree_example :
    Returns (list_accounts user) world (accounts_read user world.db) world
    × All (λ r. Returns (get_balance user r.id) world r world) (accounts_read user world.db)
list_accounts_agree_example = list_accounts_agree user world tables-IsConsistent

abbrev applicant : UserCreate
applicant = record {
  email = "d@e.f";
  password = "secret phrase";
  full_name = "D";
  country = "BR";
  tax_id = none;
}

applicant-IsClear : IsClear calm applicant "d@e.f" "secret phrase" world
applicant-IsClear = record {
  consistent = tables-IsConsistent;
  addressed = refl;
  valid = refl;
  free = refl;
  secret = refl;
  keys = (refl, refl, refl);
  email_fits = refl;
  hash_fits = refl;
  currency_fits = refl;
}

post_register_country_example : post_register calm applicant world ≡ (
  Response.reply 201 (made calm applicant "d@e.f" "secret phrase" world),
  registered calm (registering calm applicant "d@e.f" "secret phrase" world) world "secret phrase",
)
post_register_country_example =
    post_register_country calm applicant "d@e.f" "secret phrase" world applicant-IsClear
