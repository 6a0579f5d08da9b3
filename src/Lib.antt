-- ===== src/Lib.antt =====
-- A crypto brokerage backend: a FastAPI service over PostgreSQL in which users hold accounts,
-- place orders at an exchange, and move money from and to a bank (app/, alembic/).
--
-- The parts, from the bottom:
-- Base, Base/Tests, Base/Lists, Base/Pages, Base/Int: library names, tests, list functions, sorted
--   pages and integers.
-- Decimal: Python's `decimal.Decimal` in the default context, as the repositories and services use
--   it: a coefficient and a scale, each operation rounded to 28 digits, half to even. An overflow
--   of the exponent is a parameter of Env; NaN and the infinities, which the schemas refuse and no
--   client makes, are left out. Decimal/Exact says where nothing is rounded.
-- Errors: app/core/exceptions.py, and what the driver and the standard library raise.
-- Models and its children: the tables of app/models/. A NUMERIC(36, 18) column is an integer in
--   units of 10 ^ -18. A uuid is a number. The column updated_at is left out, and created_at is a
--   function of the primary key.
-- Gateways: app/integrations/base.py, the exchange and the bank as interfaces. An answer is any
--   function of the calls made before. Integrations/Http: the classes of app/integrations/ that
--   the application deploys, with tenacity's `retry`, the clock and the random identifiers as
--   parameters. Integrations/Stub: the stubs for tests.
-- Settings: app/core/config.py.
-- Env: what comes from outside, which every definition takes as a parameter: the two gateways, the
--   settings, the random uuids and their texts, `str.lower` and `str.upper`, pydantic's e-mail
--   address, bcrypt, jose, `created_at`, what the database makes of a decimal number that it
--   stores, the order in which a query returns rows that ORDER BY leaves equal, the exponents that
--   overflow, `datetime.fromtimestamp`, and whether a relationship is loaded when it is read,
--   which is false of the sessions of the application.
-- Security: app/core/security.py, passwords and tokens.
-- Session: the database and the session of a request. `Exec A` is a coroutine: a function of the
--   world (the tables, the number of random values drawn, the clock, the calls made to gateways)
--   into a result or an exception, and the world after it. `request` is `get_db` of
--   app/core/database.py. Session/Keeps, Session/Commits and Session/Quiet are the calculus of
--   invariants, Session/Outcome takes a finished action apart.
-- Repository: `BaseRepository` of app/repositories/base.py, generic in an `Entity`: a table with
--   its primary key, UNIQUE and FOREIGN KEY constraints; the lengths of the VARCHAR columns are
--   tests in the Models. Tables gives the ten tables of alembic/versions/0001_initial.py as such
--   entities; Tables/Referring and Tables/Consistent say that all the constraints hold.
-- Schema: the statements of the migration as data, what PostgreSQL documents of them, and `run`,
--   which is alembic's transaction over a database that is a parameter. Schema/Upgrade: `upgrade`
--   and `downgrade`. Schema/Metadata: the columns, keys, indexes and enumerations that the models
--   of app/models/ declare. A statement is run where no name it brings in is taken by a table, an
--   index or a type, and the columns, parents, types and defaults that it names are there.
--   Schema/Frame: a script beside a foreign catalog. Schema/Migrated: what the migration does to a
--   database.
-- Repositories and its children: one module for each class of app/repositories/.
-- Services/Trading: app/services/trading_service.py, `execute_trade` step by step;
--   Services/Filling: its step 7 and `_process_fill`; Services/Trading/Executing is the law of an
--   exchange that reports every order as executed, which the deployed client and the stub fulfil.
--   Services/Banking: app/services/banking_service.py. Services/Onboarding:
--   app/services/onboarding_service.py. Services/Portfolio: app/services/portfolio_service.py.
--   Services/Aside is the calculus of what the services without orders keep.
-- Requests: any sequence of requests, each in a session of its own: the routes, and the methods of
--   the services, of which banking has no route yet.
-- Api: the answers of app/main.py to exceptions and the dependencies of app/api/deps.py; Api/Auth,
--   Api/Accounts, Api/Portfolio and Api/Trading: the handlers of app/api/v1/, each as a coroutine
--   and as a route, which finds the user by the token, validates the body, runs the handler and
--   ends its session. Api/Schemas: app/api/schemas/ for these routes. Api/Current, Api/Guarded and
--   Api/Owned: whose token it is, what the others are answered and whose data is sent;
--   Api/Auth/Created: what the schema does not spare the registration.
-- Events: the data classes of app/events/.
-- Tests: concrete runs.
--
-- Nothing runs on fuel but the count of the digits of a number, where the number itself is the
-- fuel: a number has no more digits than its value. The loop over fills is recursion on their
-- list.
--
-- Sessions run one after the other, but for Services/Trading/Raced and Services/Onboarding/Raced,
-- where another session commits between a look-up and the insert that follows it: row locks and
-- the other interleavings of concurrent requests are not modelled. A handler of an exception runs
-- on in its session also after a flush that failed, where SQLAlchemy refuses it with an error of
-- its own; the request fails and is rolled back in both. What the cascades of the ORM make of a
-- row that `BaseRepository.delete` removes, which nothing calls, is a parameter. Left out are the
-- messages of the errors, headers, middleware, startup and logging; the engine and its pool; and
-- the offline mode of alembic/env.py.
pub mod Base
pub mod Decimal
pub mod Errors
pub mod Models
pub mod Gateways
pub mod Integrations
pub mod Settings
pub mod Env
pub mod Session
pub mod Security
pub mod Repository
pub mod Tables
pub mod Schema
pub mod Repositories
pub mod Services
pub mod Requests
pub mod Api
pub mod Events
pub mod Tests
