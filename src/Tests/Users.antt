-- ===== src/Tests/Users.antt =====
-- Registrations and portfolios at concrete inputs.
use crypto_brokerage.Base.{
  ◌≤◌, ◌&&◌, ◌==◌, length, select, str_eq, ℕ, ◌≡◌, refl, ap, true, none, String, eq_iff, List, [],
  ◌∷◌,
}
use crypto_brokerage.Errors.{Error, ok, err, user_already_exists}
use crypto_brokerage.Models.{User}
use crypto_brokerage.Security.{hash_password, verify_password}
use crypto_brokerage.Api.Auth.{login}
use crypto_brokerage.Api.Auth.Login.{tokens_of, register_user-login}
use crypto_brokerage.Session.{World, request}
use crypto_brokerage.Session.Outcome.{Returns, Raises}
use crypto_brokerage.Repository
use crypto_brokerage.Repositories.Accounts.{create_default_account}
use crypto_brokerage.Repositories.Users.{exists_by_email, create_with_profile}
use crypto_brokerage.Services.Onboarding.{
  Registration, UserRegistrationResult, enrol, register_user, insert_link, link_bank_account,
}
use crypto_brokerage.Services.Onboarding.Registered.{
  taken, IsRegistered, register_user-Returns, register_user_again,
}
use crypto_brokerage.Services.Onboarding.Raced.{enrol_raced, after_link, insert_link_raced}
use crypto_brokerage.Services.Onboarding.Linked.{linked, IsLinked, link_bank_account-Returns}
use crypto_brokerage.Repositories.BankAccounts.{get_by_external_reference}
use crypto_brokerage.Services.Portfolio.{empty_summary, get_portfolio_summary}
use crypto_brokerage.Repositories.Positions
use crypto_brokerage.Decimal
use crypto_brokerage.Base.Int.{pos}
use crypto_brokerage.Requests.{Request, serve_all}
use crypto_brokerage.Requests.Portfolio.{portfolio_empty}
use crypto_brokerage.Tests.Scene.{calm, user, bank_account, world, payment, purchase}

abbrev newcomer : Registration
newcomer = record {
  email = "d@e.f";
  password = "secret";
  full_name = "D";
  country = "BR";
  tax_id = none;
}

abbrev answer : UserRegistrationResult
answer = record { user_id = 101; account_id = 103 }

abbrev after : World
after = (register_user calm newcomer world).1

newcomer-Returns : Returns (register_user calm newcomer) world answer after
unfolding register_user exists_by_email create_with_profile create_default_account Repository.add
newcomer-Returns = refl

register_user-Returns_example :
    (taken calm newcomer world.db ≡ none) × IsRegistered calm newcomer world.db after.db answer
register_user-Returns_example =
    register_user-Returns calm newcomer world answer after newcomer-Returns

register_user_again_example : register_user calm newcomer after ≡ (err user_already_exists, after)
register_user_again_example =
    register_user_again calm newcomer newcomer world answer after newcomer-Returns refl

abbrev requests : List Request
requests = Request.trade purchase ∷ Request.deposit payment ∷ Request.confirm "p1" ∷ []

portfolio_empty_example :
    Returns
      (get_portfolio_summary calm 1 "BRL")
      (serve_all calm requests world)
      (empty_summary 1 "BRL")
      (serve_all calm requests world)
portfolio_empty_example = portfolio_empty calm requests world 1 "BRL" refl

abbrev held : World
held = record world {
  db = record world.db {
    positions =
        record { id = 8; user_id = 1; asset_id = 2; quantity = pos 3; average_price = pos 4 } ∷ [];
  };
}

-- The database is as it was, and the exchange has been asked.
abbrev read_at : World
read_at = (get_portfolio_summary calm 1 "BRL" held).1

abbrev linked_at : World
linked_at = (link_bank_account calm 1 "pix" "bank" world).1

link-Returns : Returns (link_bank_account calm 1 "pix" "bank") world 100 linked_at
unfolding link_bank_account get_by_external_reference Repository.add
link-Returns = refl

link_bank_account-Returns_example :
    (linked 1 "pix" world.db ≡ none) × IsLinked 1 "pix" "bank" 100 world.db linked_at.db
link_bank_account-Returns_example =
    link_bank_account-Returns calm 1 "pix" "bank" world 100 linked_at link-Returns

-- Another session has registered the e-mail in the meantime.
abbrev rival : Registration
rival = record newcomer { email = "a@b.c" }

enrol_raced_example :
    (e : Error) × Raises (request (enrol calm rival)) world e
    × ((request (enrol calm rival) world).1.db ≡ world.db)
enrol_raced_example = enrol_raced calm rival world user refl

insert_link_raced_example :
    Returns (insert_link calm 1 "iban" "bank") world 100 (after_link calm 1 "iban" "bank" world)
    × (2
        ≤ length (
            select
              (λ a. a.user_id == 1 && str_eq a.external_reference "iban")
              (after_link calm 1 "iban" "bank" world).db.bank_accounts))
insert_link_raced_example =
    insert_link_raced calm 1 "iban" "bank" world bank_account refl refl refl refl

-- A password is its own hash in these runs.
hashed_verifies :
    (n : ℕ) (hashed : String)
    → hash_password calm n newcomer.password ≡ ok hashed
    → verify_password calm newcomer.password hashed ≡ ok true
hashed_verifies n hashed h =
    let own : newcomer.password ≡ hashed = cc h in ap ok ((eq_iff newcomer.password hashed).1 own)

register_user-login_example :
    (user : User) × (user.id ≡ 101)
    × Returns (login calm "d@e.f" "secret") after (tokens_of calm user 1000) after
register_user-login_example =
    register_user-login calm newcomer world answer after "d@e.f" newcomer-Returns refl
      hashed_verifies
