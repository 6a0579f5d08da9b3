-- ===== src/Services/Trading/Filled.antt =====
-- Trades that the exchange has filled: what is left of them in the tables.
use crypto_brokerage.Base.{
  ◌≡◌, refl, ap, ◌∙◌, inl, inr, Bool, true, not, ◌||◌, Bool-cases, List, [], ◌∷◌,
}
use crypto_brokerage.Models.{Order, Account, Transaction}
use crypto_brokerage.Errors.{Error, ok, err}
use crypto_brokerage.Gateways.{OrderSubmission, FillEvent, Call}
use crypto_brokerage.Env.{Env}
use crypto_brokerage.Session.{World}
use crypto_brokerage.Session.Outcome.{bind_err}
use crypto_brokerage.Services.Trading.{
  Trade, order_request, submit, is_empty, is_aggregate, aggregate_fill, fills_of, process_fills,
  finalise, settle,
}
use crypto_brokerage.Services.Trading.Fills.{IsRefusal, process_fills_refused, process_fills-calls}
use crypto_brokerage.Services.Trading.Forgotten.{Reaches, IsForgotten, execute_trade-settle, forget}

-- The exchange reports a fill, one by one or in sum.
abbrev pub is_executed : OrderSubmission → Bool
is_executed s = is_aggregate s || not (is_empty s.fills)

listed :
    (fs : List FillEvent) (w : World)
    → not (is_empty fs) ≡ true
    → (f : FillEvent) × (rest : List FillEvent) × (fs ≡ f ∷ rest)
listed [] w h = absurd (cc h)
listed (f ∷ fs) w h = (f, fs, refl)

fills_of-executed :
    (s : OrderSubmission) (w : World)
    → is_executed s ≡ true
    → (f : FillEvent) × (fs : List FillEvent) × (fills_of s w ≡ (ok (f ∷ fs), w))
unfolding fills_of
fills_of-executed s w h = elim (Bool-cases (is_aggregate s)) [
  | inl sum ↦ (aggregate_fill s w.clock, [], rw sum)
  | inr single ↦
      let (f, fs, e) = listed s.fills w (rw single at h) in
      (f, fs, rw single (ap (λ l. (ok l, w)) e))
]

module _ (env : Env) where
  pub settle_refused :
      (t : Trade) (a : Account) (o : Order) (x : Transaction) (w w1 : World) (s : OrderSubmission)
      → submit env t o x w ≡ (ok s, w1)
      → is_executed s ≡ true
      → (e : Error) × (w2 : World) × (settle env t a o x w ≡ (err e, w2))
        × (w2.calls ≡ w1.calls)
        × IsRefusal env e
  unfolding settle
  settle_refused t a o x w w1 s sent h =
      let (f, fs, reported) = fills_of-executed s w1 h in
      let (e, refused, kind) = process_fills_refused env a t.quote_currency x f fs o w1 in
      let step = process_fills env [] a t.quote_currency x (f ∷ fs) o in
      (
        e,
        (step w1).1,
        rw sent (rw reported (bind_err step (finalise s.status x) w1 e refused)),
        process_fills-calls env a t.quote_currency x f fs o w1,
        kind,
      )

  -- When the exchange has executed a trade, in part or in full, the request fails all the same: it
  -- ends with `LedgerImbalanceError`, the database's refusal of the execution, an overflow of the
  -- value of a fill, or the error of a time that is out of range; the tables are as before, without
  -- the order and without its executions, and the call has left the program.
  pub execution_forgotten :
      (t : Trade) (w : World) (r : Reaches env t w) (s : OrderSubmission)
      → env.exchange.submit_order (r.world).calls (order_request t) ≡ ok s
      → is_executed s ≡ true
      → (e : Error) × IsRefusal env e × IsForgotten env t w r.world e
  unfolding submit
  execution_forgotten t w r s hg h =
      let w2 = r.world in
      let w3 = record w2 { calls = Call.submit_order (order_request t) ∷ w2.calls } in
      let sent : submit env t (r.opened).0 (r.opened).1 w2 ≡ (ok s, w3) = rw hg in
      let (e, w4, raised, calls, kind) =
        settle_refused t r.account (r.opened).0 (r.opened).1 w2 w3 s sent h in
      (
        e,
        kind,
        forget env t w w2 w4 e
            (execute_trade-settle env t w r.locked w2 r.account r.opened r.new_key r.admitted
                r.stored
              ∙ raised)
            calls,
      )
