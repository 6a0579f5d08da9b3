-- ===== src/Requests/Unreserved.antt =====
-- Funds that a trade was admitted for stay free for the next one.
use crypto_brokerage.Base.{◌≡◌, ap, ◌∙◌, some, List, ◌==◌, find, find-append_some, [], ◌∷◌}
use crypto_brokerage.Models.{Account}
use crypto_brokerage.Env.{Env}
use crypto_brokerage.Session.{Db, World}
use crypto_brokerage.Session.Outcome.{Returns}
use crypto_brokerage.Repository.Found.{find-own}
use crypto_brokerage.Tables
use crypto_brokerage.Tables.Consistent.{IsConsistent}
use crypto_brokerage.Repositories.Accounts.{balance_of}
use crypto_brokerage.Services.Aside.{Spared}
use crypto_brokerage.Services.Books.{execute_trade-Commits}
use crypto_brokerage.Services.Trading.{Trade, is_short, admit}
use crypto_brokerage.Services.Trading.Admitted.{paying, admit-Returns, admit-passes}
use crypto_brokerage.Requests.{Request, serve_all}
use crypto_brokerage.Requests.Aside.{serve_all_keeps}
use crypto_brokerage.Requests.Books.{balance_of-serve_all}

-- The account is the user's in the quote currency, and the one with its key.
abbrev Opens : Trade → Account → Db → Type 0
Opens t a db = (paying t db ≡ some a) × (find (λ (x : Account). x.id == a.id) db.accounts ≡ some a)

Opens-Spared : (t : Trade) (a : Account) → Spared (Opens t a)
Opens-Spared t a = record {
  enrolling = record {
    users = λ rs db h. h;
    user_profiles = λ rs db h. h;
    accounts = λ b db h.
        (find-append_some _ db.accounts (b ∷ []) h.0, find-append_some _ db.accounts (b ∷ []) h.1);
    bank_accounts = λ rs db h. h;
  };
  transactions = λ rs db h. h;
}

-- An order reserves nothing: in tables that keep their constraints, a trade that passes the checks
-- before the exchange passes them after any further requests too, with the same account, however many
-- orders were placed against the same funds.
pub admit_again :
    (env : Env) (rs : List Request) (t : Trade) (w : World) (a : Account) (w' : World)
    → IsConsistent w.db
    → Returns (admit env t) w a w'
    → Returns (admit env t) (serve_all env rs w) a (serve_all env rs w)
admit_again env rs t w a w' c h =
    let checked = admit-Returns env t w a w' c h in
    let own = find-own Tables.accounts _ w.db.accounts a c.distinct_accounts checked.account in
    let spared = Opens-Spared t a in
    let (account, locked) =
      serve_all_keeps env (Opens t a) spared
        (execute_trade-Commits (Opens t a) spared (λ os db k. k) env) rs w (checked.account, own) in
    let balance : balance_of a.id (serve_all env rs w).db ≡ balance_of a.id w.db =
      balance_of-serve_all env rs w a.id in
    admit-passes env t (serve_all env rs w) a checked.positive checked.priced account locked
      checked.small (ap (is_short t) balance ∙ checked.funded)
