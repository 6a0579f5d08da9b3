-- ===== src/Requests/Portfolio.antt =====
-- The portfolios that users see.
use crypto_brokerage.Base.{ℕ, ◌≡◌, ◌∙◌, String, List, []}
use crypto_brokerage.Env.{Env}
use crypto_brokerage.Session.{World}
use crypto_brokerage.Session.Outcome.{Returns}
use crypto_brokerage.Repositories.Positions
use crypto_brokerage.Services.Portfolio.{empty_summary, get_portfolio_summary}
use crypto_brokerage.Requests.{Request, serve_all}
use crypto_brokerage.Requests.Books.{serve_all-SameBooks}

-- From tables without positions, every portfolio stays empty: after any requests, whatever the
-- exchange has executed and however much money the ledger gives the user, the summary lists nothing
-- and all its numbers are zero, the cash balance too.
pub portfolio_empty :
    (env : Env) (rs : List Request) (w : World) (u : ℕ) (q : String)
    → w.db.positions ≡ []
    → Returns
        (get_portfolio_summary env u q)
        (serve_all env rs w)
        (empty_summary u q)
        (serve_all env rs w)
unfolding get_portfolio_summary Positions.get_by_user
portfolio_empty env rs w u q h =
    let (_, _, same) = serve_all-SameBooks env rs w in
    let none_yet : (serve_all env rs w).db.positions ≡ [] = same ∙ h in rw none_yet
