-- ===== src/Api/Schemas.antt =====
-- app/api/schemas/: the bodies of the requests with their validation, and the bodies of the answers.
-- Types are checked by the framework; the tests here are the constraints of the fields.
pub mod Users
pub mod Accounts
pub mod Orders
pub mod Portfolio
pub mod Transactions
