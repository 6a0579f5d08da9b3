-- ===== src/Requests/Books.antt =====
-- What the requests do to the books of the brokerage.
use crypto_brokerage.Base.{ℕ, ◌≡◌, refl, List}
use crypto_brokerage.Env.{Env}
use crypto_brokerage.Session.{World}
use crypto_brokerage.Repositories.Accounts.{balance_of}
use crypto_brokerage.Services.Books.{SameBooks, SameBooks-Spared, execute_trade-SameBooks}
use crypto_brokerage.Requests.{Request, serve_all}
use crypto_brokerage.Requests.Aside.{serve_all_keeps}

-- After any requests, whatever the gateways answer, the ledger entries, the trade executions and the
-- positions are the ones that were there before.
pub serve_all-SameBooks :
    (env : Env) (rs : List Request) (w : World) → SameBooks w.db (serve_all env rs w).db
serve_all-SameBooks env rs w =
    serve_all_keeps env (SameBooks w.db) (SameBooks-Spared w.db) (execute_trade-SameBooks env w.db)
      rs w (refl, refl, refl)

-- After any requests, also deposits that were confirmed, the balance of every account is what it was.
pub balance_of-serve_all :
    (env : Env) (rs : List Request) (w : World) (account_id : ℕ)
    → balance_of account_id (serve_all env rs w).db ≡ balance_of account_id w.db
balance_of-serve_all env rs w a = rw ((serve_all-SameBooks env rs w).0)
