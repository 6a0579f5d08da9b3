-- ===== src/Repositories.antt =====
-- app/repositories/: one module for each repository class. The list queries with ORDER BY, LIMIT and
-- OFFSET are left out.
pub mod Reads
pub mod Consistent
pub mod Accounts
pub mod BankAccounts
pub mod Ledger
pub mod Orders
pub mod Positions
pub mod Transactions
pub mod Users
