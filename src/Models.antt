-- ===== src/Models.antt =====
-- app/models/: the rows of the tables and their enumerations. A row is what a query returns after
-- a flush and a refresh. `NUMERIC(36, 18)` columns hold whole units of 10 ^ -18. The audit columns
-- `created_at` and `updated_at` and the ORM's relationships are left out.
mod Users
mod Accounts
mod Assets
mod Orders
mod Transactions
mod Entries
pub use Users.*
pub use Accounts.*
pub use Assets.*
pub use Orders.*
pub use Transactions.*
pub use Entries.*
