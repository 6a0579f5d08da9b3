-- ===== src/Services/Portfolio/Loop.antt =====
-- What the loop over the positions adds to the portfolio.
use crypto_brokerage.Base.{
  ◌≡◌, refl, sym, ap, subst, ◌∙◌, inl, inr, Bool, Option, none, some, Option-cases, is_some, String,
  List, [], ◌∷◌, ◌++◌, ◌==◌, select, find, and_then, provided-some,
}
use mathlib.Core.Option.{some-injective}
use crypto_brokerage.Decimal
use crypto_brokerage.Decimal.{Decimal, nought}
use crypto_brokerage.Models.{Asset, Position, of_units}
use crypto_brokerage.Env.{Env, checked}
use crypto_brokerage.Session.{Db}
use crypto_brokerage.Services.Portfolio.{
  PositionSummary, Prices, asset_of, symbol_key, current_price, cost_basis, market_value,
  percentage, summary_of, Running, include, summarise,
}

and_then-some :
    {A B : Type 0} (o : Option A) (f : A → Option B) (b : B)
    → and_then o f ≡ some b
    → (a : A) × (o ≡ some a) × (f a ≡ some b)
and_then-some none f b h = absurd (cc h)
and_then-some (some a) f b h = (a, refl, h)

append_none : (ss : List PositionSummary) → ss ++ [] ≡ ss
append_none [] = refl
append_none (s ∷ ss) = ap (λ l. s ∷ l) (append_none ss)

append_one :
    (ss : List PositionSummary) (s : PositionSummary) (ts : List PositionSummary)
    → (ss ++ (s ∷ [])) ++ ts ≡ ss ++ (s ∷ ts)
append_one [] s ts = refl
append_one (x ∷ ss) s ts = ap (λ l. x ∷ l) (append_one ss s ts)

-- The sum of what `f` reads off the summaries, added one after the other.
abbrev pub total : (PositionSummary → Decimal) → Decimal → List PositionSummary → Decimal
total f acc [] = acc
total f acc (s ∷ ss) = total f (Decimal.add acc (f s)) ss

abbrev pub cost_of : PositionSummary → Decimal
cost_of s = Decimal.mul s.quantity s.average_price

module _ (db : Db) (prices : Prices) (q : String) where
  -- The summary tells the position, its asset, and what it is worth at the price of the symbol.
  pub record IsReported (p : Position) (s : PositionSummary) : Type 0 where
    pub asset : Asset
    pub known : find (λ (a : Asset). a.id == p.asset_id) db.assets ≡ some asset
    pub of_asset : s.asset_id ≡ p.asset_id
    pub symbol : s.asset_symbol ≡ asset.symbol
    pub named : s.asset_name ≡ asset.name
    pub held : s.quantity ≡ of_units p.quantity
    pub bought : s.average_price ≡ of_units p.average_price
    pub priced : s.current_price ≡ current_price prices (symbol_key q asset)
    pub valued : s.market_value ≡ Decimal.mul s.quantity s.current_price
    pub gained : s.unrealized_pnl ≡ Decimal.sub s.market_value (cost_of s)

  -- The positions whose asset is there are reported, one by one and in their order.
  abbrev pub Reports : List Position → List PositionSummary → Type 0
  Reports [] [] = Unit
  Reports [] (s ∷ ss) = ⊥
  Reports (p ∷ ps) [] = ⊥
  Reports (p ∷ ps) (s ∷ ss) = IsReported p s × Reports ps ss

  abbrev pub has_asset : Position → Bool
  has_asset p = is_some (find (λ (a : Asset). a.id == p.asset_id) db.assets)

  summary_of-IsReported :
      (env : Env) (p : Position) (a : Asset) (s : PositionSummary)
      → find (λ (x : Asset). x.id == p.asset_id) db.assets ≡ some a
      → summary_of env p a (current_price prices (symbol_key q a)) ≡ some s
      → IsReported p s
  summary_of-IsReported env p a s found h =
      let price = current_price prices (symbol_key q a) in
      let (m, e, h1) = and_then-some (checked env (market_value p price)) _ s h in
      let (g, f, h2) = and_then-some (checked env (Decimal.sub m (cost_basis p))) _ s h1 in
      let (pct, _, h3) = and_then-some (percentage env g (cost_basis p)) _ s h2 in
      let market = (provided-some _ _ _ e).1 in
      let gain = (provided-some _ _ _ f).1 in
      let made : record {
        asset_id = p.asset_id;
        asset_symbol = a.symbol;
        asset_name = a.name;
        quantity = of_units p.quantity;
        average_price = of_units p.average_price;
        current_price = price;
        market_value = m;
        unrealized_pnl = g;
        unrealized_pnl_pct = pct;
      }
          ≡ s =
        some-injective _ _ h3 in
      subst (IsReported p) made (record {
        asset = a;
        known = found;
        of_asset = refl;
        symbol = refl;
        named = refl;
        held = refl;
        bought = refl;
        priced = refl;
        valued = sym market;
        gained = sym gain;
      })

  -- What the loop adds to what it was given.
  pub record IsLooped (ps : List Position) (acc r : Running) : Type 0 where
    pub news : List PositionSummary
    pub listed : r.summaries ≡ acc.summaries ++ news
    pub reported : Reports (select has_asset ps) news
    pub worth : r.market ≡ total (λ s. s.market_value) acc.market news
    pub spent : r.cost ≡ total cost_of acc.cost news

  pub loop-IsLooped :
      (env : Env) (ps : List Position) (acc r : Running)
      → summarise env db prices q acc ps ≡ some r
      → IsLooped ps acc r
  loop-IsLooped env [] acc r h = subst (IsLooped [] acc) (some-injective _ _ h) (record {
    news = [];
    listed = sym (append_none acc.summaries);
    reported = tt;
    worth = refl;
    spent = refl;
  })
  loop-IsLooped env (p ∷ ps) acc r h =
      let (acc1, e, h1) = and_then-some (include env prices q acc p (asset_of db p)) _ r h in
      let rest = loop-IsLooped env ps acc1 r h1 in
      elim (Option-cases (find (λ (a : Asset). a.id == p.asset_id) db.assets)) [
        | inl unknown ↦
            let own : acc1 ≡ acc = sym (some-injective _ _ (rw unknown at e)) in
            record {
              news = rest.news;
              listed = rest.listed ∙ ap (λ (x : Running). x.summaries ++ rest.news) own;
              reported = rw unknown (rest.reported);
              worth =
                  rest.worth
                  ∙ ap (λ (x : Running). total (λ s. s.market_value) x.market rest.news) own;
              spent = rest.spent ∙ ap (λ (x : Running). total cost_of x.cost rest.news) own;
            }
        | inr (a, known) ↦
            let price = current_price prices (symbol_key q a) in
            let (s, es, h2) = and_then-some (summary_of env p a price) _ acc1 (rw known at e) in
            let (m, em, h3) =
              and_then-some (checked env (Decimal.add acc.market s.market_value)) _ acc1 h2 in
            let sum = (provided-some _ _ _ em).1 in
            let made : record {
              summaries = acc.summaries ++ (s ∷ []);
              market = m;
              cost = Decimal.add acc.cost (cost_basis p);
            }
                ≡ acc1 =
              some-injective _ _ h3 in
            let told = summary_of-IsReported env p a s known es in
            let cost : cost_basis p ≡ cost_of s =
              ap (λ (z : Decimal). Decimal.mul z (of_units p.average_price)) (sym told.held)
              ∙ ap (Decimal.mul s.quantity) (sym told.bought) in
            record {
              news = s ∷ rest.news;
              listed =
                  rest.listed
                  ∙ ap (λ (x : Running). x.summaries ++ rest.news) (sym made)
                  ∙ append_one acc.summaries s rest.news;
              reported = rw known (told, rest.reported);
              worth =
                  rest.worth
                  ∙ ap (λ (x : Running). total (λ s. s.market_value) x.market rest.news) (sym made)
                  ∙ ap (λ z. total (λ s. s.market_value) z rest.news) (sym sum);
              spent =
                  rest.spent
                  ∙ ap (λ (x : Running). total cost_of x.cost rest.news) (sym made)
                  ∙ ap (λ z. total cost_of (Decimal.add acc.cost z) rest.news) cost;
            }
      ]
