-- ===== src/Services/Consistent.antt =====
-- Every service keeps the tables consistent at each of its steps.
use crypto_brokerage.Base.{ℕ, true, false, Option, none, some, String, List, [], ◌∷◌}
use crypto_brokerage.Env.{Env}
use crypto_brokerage.Models.{
  Account, AccountType, Order, Transaction, BankAccount, TransactionStatus,
}
use crypto_brokerage.Gateways.{FillEvent, OrderSubmission}
use crypto_brokerage.Session.{◌>>=◌}
use crypto_brokerage.Session.Keeps.{Keeps, Keeps-bind, Keeps-pure, Keeps-raise, keeps_rules}
use crypto_brokerage.Tables.Consistent.{IsConsistent}
use crypto_brokerage.Repositories.Accounts.{create_default_account}
use crypto_brokerage.Repositories.Reads.{read_rules}
use crypto_brokerage.Repositories.Consistent.{
  row_rules, update_status-IsConsistent, apply_fill-IsConsistent, transaction_status-IsConsistent,
  upsert_position-IsConsistent, create-IsConsistent, create_double_entry-IsConsistent,
}
use crypto_brokerage.Repositories.Users.{create_with_profile}
use crypto_brokerage.Services.Trading.{
  Trade, submit, fills_of, process_fill, process_fills, contains, finalise, settle, open_order,
  admit, place, unless_known, execute_trade,
}
use crypto_brokerage.Services.Banking.{
  Transfer, owned, initiate, deposit_funds, withdraw_funds, confirm, confirm_found, confirm_deposit,
}
use crypto_brokerage.Services.Onboarding.{Registration, register_user, link_bank_account}

ruleset write_rules = (
  row_rules, update_status-IsConsistent, apply_fill-IsConsistent, transaction_status-IsConsistent,
  upsert_position-IsConsistent, create-IsConsistent, create_double_entry-IsConsistent,
)

module _ (env : Env) where
  submit-IsConsistent :
      (t : Trade) (o : Order) (x : Transaction) → Keeps IsConsistent (submit env t o x)
  unfolding submit
  submit-IsConsistent t o x = search write_rules

  fills_of-IsConsistent : (s : OrderSubmission) → Keeps IsConsistent (fills_of s)
  unfolding fills_of
  fills_of-IsConsistent s = search write_rules

  process_fill-IsConsistent :
      (o : Order) (f : FillEvent) (a : Account) (q : String) (x : Transaction)
      → Keeps IsConsistent (process_fill env o f a q x)
  unfolding process_fill
  process_fill-IsConsistent o f a q x = search write_rules depth 9

  process_fills-IsConsistent :
      (seen : List String) (a : Account) (q : String) (x : Transaction) (fs : List FillEvent)
      (o : Order)
      → Keeps IsConsistent (process_fills env seen a q x fs o)
  unfolding process_fills
  process_fills-IsConsistent seen a q x [] o = Keeps-pure o
  process_fills-IsConsistent seen a q x (f ∷ fs) o =
      elim (contains seen f.fill_id)
        as (λ b. Keeps IsConsistent (elim b [
          | true ↦ process_fills env seen a q x fs o
          | false ↦ process_fill env o f a q x >>= process_fills env (f.fill_id ∷ seen) a q x fs
        ])) [
          | true ↦ process_fills-IsConsistent seen a q x fs o
          | false ↦
              Keeps-bind _ _ (process_fill-IsConsistent o f a q x)
                (process_fills-IsConsistent (f.fill_id ∷ seen) a q x fs)
        ]

  finalise-IsConsistent :
      (s : String) (x : Transaction) (o : Order) → Keeps IsConsistent (finalise s x o)
  unfolding finalise
  finalise-IsConsistent s x o = search write_rules

  settle-IsConsistent :
      (t : Trade) (a : Account) (o : Order) (x : Transaction)
      → Keeps IsConsistent (settle env t a o x)
  unfolding settle
  settle-IsConsistent t a o x = search (
    write_rules, submit-IsConsistent, fills_of-IsConsistent, process_fills-IsConsistent,
    finalise-IsConsistent,
  )

  open_order-IsConsistent : (t : Trade) → Keeps IsConsistent (open_order env t)
  unfolding open_order
  open_order-IsConsistent t = search write_rules

  admit-IsConsistent : (t : Trade) → Keeps IsConsistent (admit env t)
  unfolding admit
  admit-IsConsistent t = search (keeps_rules, read_rules) depth 9

  place-IsConsistent : (t : Trade) → Keeps IsConsistent (place env t)
  unfolding place
  place-IsConsistent t =
      search (keeps_rules, admit-IsConsistent, open_order-IsConsistent, settle-IsConsistent)

  unless_known-IsConsistent :
      (t : Trade) (found : Option Order) → Keeps IsConsistent (unless_known env t found)
  unless_known-IsConsistent t none = place-IsConsistent t
  unless_known-IsConsistent t (some o) = Keeps-pure o

  pub execute_trade-IsConsistent : (t : Trade) → Keeps IsConsistent (execute_trade env t)
  unfolding execute_trade
  execute_trade-IsConsistent t = search (keeps_rules, read_rules, unless_known-IsConsistent)

  owned-IsConsistent : (u : ℕ) (found : Option BankAccount) → Keeps IsConsistent (owned u found)
  owned-IsConsistent u none = Keeps-raise _
  owned-IsConsistent u (some b) = search keeps_rules

  initiate-IsConsistent :
      (t : Transfer) (b : BankAccount) (x : Transaction) → Keeps IsConsistent (initiate env t b x)
  unfolding initiate
  initiate-IsConsistent t b x = search write_rules depth 9

  pub deposit_funds-IsConsistent : (t : Transfer) → Keeps IsConsistent (deposit_funds env t)
  unfolding deposit_funds
  deposit_funds-IsConsistent t =
      search (write_rules, read_rules, owned-IsConsistent, initiate-IsConsistent) depth 9

  pub withdraw_funds-IsConsistent : (t : Transfer) → Keeps IsConsistent (withdraw_funds env t)
  unfolding withdraw_funds
  withdraw_funds-IsConsistent t = search (keeps_rules, read_rules) depth 9

  create_with_profile-IsConsistent :
      (m h n c : String) (x : Option String)
      → Keeps IsConsistent (create_with_profile env m h n c x)
  unfolding create_with_profile
  create_with_profile-IsConsistent m h n c x = search row_rules

  create_default_account-IsConsistent :
      (u : ℕ) (c : String) (a : AccountType) → Keeps IsConsistent (create_default_account env u c a)
  unfolding create_default_account
  create_default_account-IsConsistent u c a = search row_rules

  pub register_user-IsConsistent : (r : Registration) → Keeps IsConsistent (register_user env r)
  unfolding register_user
  register_user-IsConsistent r =
      search
        (
          keeps_rules, read_rules, create_with_profile-IsConsistent,
          create_default_account-IsConsistent,
        )
        depth 12

  pub link_bank_account-IsConsistent :
      (u : ℕ) (ref bank : String) → Keeps IsConsistent (link_bank_account env u ref bank)
  unfolding link_bank_account
  link_bank_account-IsConsistent u ref bank = search (row_rules, read_rules) depth 9

confirm-IsConsistent : (x : Transaction) (s : TransactionStatus) → Keeps IsConsistent (confirm x s)
confirm-IsConsistent x TransactionStatus.completed = Keeps-pure tt
confirm-IsConsistent x TransactionStatus.failed = Keeps-pure tt
confirm-IsConsistent x _ = search write_rules

confirm_found-IsConsistent : (found : Option Transaction) → Keeps IsConsistent (confirm_found found)
confirm_found-IsConsistent none = Keeps-pure tt
confirm_found-IsConsistent (some x) = confirm-IsConsistent x x.status

pub confirm_deposit-IsConsistent : (ref : String) → Keeps IsConsistent (confirm_deposit ref)
unfolding confirm_deposit
confirm_deposit-IsConsistent ref = search (keeps_rules, read_rules, confirm_found-IsConsistent)
