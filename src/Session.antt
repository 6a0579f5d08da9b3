-- ===== src/Session.antt =====
-- The database of `app/models/` and the session in which a request works. An `Exec A` is a
-- coroutine of a service or a repository: what it wrote before an exception stays written in its
-- session, so the world comes back beside the error too. `request` is `get_db` of
-- app/core/database.py: it commits on success and rolls the tables back on any exception.
pub mod Keeps
pub mod Quiet
pub mod Outcome
pub mod Commits
use crypto_brokerage.Base.{ℕ, ◌+◌, Bool, Option, none, some, List, [], ◌∷◌, ◌++◌, if◌then◌else◌}
use crypto_brokerage.Models.{
  User, UserProfile, Account, BankAccount, Asset, Order, TradeExecution, Position, Transaction,
  LedgerEntry,
}
use crypto_brokerage.Errors.{Error, Result, ok, err}
use crypto_brokerage.Gateways.{Call}
use crypto_brokerage.Env.{Env}

pub record Db : Type 0 where
  pub users : List User
  pub user_profiles : List UserProfile
  pub accounts : List Account
  pub bank_accounts : List BankAccount
  pub assets : List Asset
  pub orders : List Order
  pub trade_executions : List TradeExecution
  pub positions : List Position
  pub transactions : List Transaction
  pub ledger_entries : List LedgerEntry

abbrev pub no_rows : Db
no_rows = record {
  users = [];
  user_profiles = [];
  accounts = [];
  bank_accounts = [];
  assets = [];
  orders = [];
  trade_executions = [];
  positions = [];
  transactions = [];
  ledger_entries = [];
}

-- The tables as the session sees them, the number of random values drawn, the time in seconds, and
-- the gateway calls made, the last one first.
pub record World : Type 0 where
  pub db : Db
  pub draws : ℕ
  pub clock : ℕ
  pub calls : List Call

abbrev pub Exec : Type 0 → Type 0
Exec A = World → Result A × World

infixl 5 ◌>>=◌ ◌>>◌
abbrev pub continue : {A B : Type 0} → (A → Exec B) → Result A → Exec B
continue f (ok a) w = f a w
continue f (err e) w = (err e, w)

abbrev pub ◌>>=◌ : {A B : Type 0} → Exec A → (A → Exec B) → Exec B
◌>>=◌ m f w = continue f (m w).0 (m w).1

abbrev pub ◌>>◌ : {A B : Type 0} → Exec A → Exec B → Exec B
m >> k = m >>= λ _. k

module _ {A : Type 0} where
  abbrev pub pure : A → Exec A
  pure a w = (ok a, w)

  abbrev pub raise : Error → Exec A
  raise e w = (err e, w)

  abbrev pub query : (Db → A) → Exec A
  query f w = (ok (f w.db), w)

  abbrev pub or_raise : Error → Option A → Exec A
  or_raise e none = raise e
  or_raise e (some a) = pure a

abbrev pub raise_if : Bool → Error → Exec (Unit {0})
raise_if b e = if b then raise e else pure tt

-- `datetime.now(UTC).timestamp()`
abbrev pub now : Exec ℕ
now w = (ok w.clock, w)

-- `uuid.uuid4()`
abbrev pub uuid4 : Env → Exec ℕ
uuid4 env w = (ok (env.uuid4 w.draws), record w { draws = w.draws + 1 })

abbrev pub salt : Exec ℕ
salt w = (ok w.draws, record w { draws = w.draws + 1 })

-- A gateway's method: the call leaves the program whether it returns or raises.
abbrev pub dial : {A : Type 0} → Call → (List Call → Result A) → Exec A
dial c answer w = (answer w.calls, record w { calls = c ∷ w.calls })

-- A call of a library that returns or raises.
abbrev pub lift : {A : Type 0} → Result A → Exec A
lift r w = (r, w)

-- `except` clauses that raise another exception for some
abbrev pub replaced : (Error → Option Error) → Error → Error
replaced f e = elim (f e) [ none ↦ e | some e' ↦ e' ]

abbrev pub translate : {A : Type 0} → (Error → Option Error) → Result A → Result A
translate f (ok a) = ok a
translate f (err e) = err (replaced f e)

abbrev pub translating : {A : Type 0} → Exec A → (Error → Option Error) → Exec A
translating m f w = (translate f (m w).0, (m w).1)

-- `except Exception: recover; raise`
abbrev rescue : {A : Type 0} → Exec (Unit {0}) → Result A → Exec A
rescue recover (ok a) w = (ok a, w)
rescue recover (err e) w = (recover >> raise e) w

abbrev pub on_exception : {A : Type 0} → Exec A → Exec (Unit {0}) → Exec A
on_exception m recover w = rescue recover (m w).0 (m w).1

-- `get_db` round a handler
abbrev settle : {A : Type 0} → Db → Result A → World → Result A × World
settle before (ok a) w = (ok a, w)
settle before (err e) w = (err e, record w { db = before })

unfoldable pub request : {A : Type 0} → Exec A → Exec A
request m w = settle w.db (m w).0 (m w).1
