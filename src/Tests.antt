-- ===== src/Tests.antt =====
-- Concrete runs: a small brokerage, and each theorem that has hypotheses at one of its states.
pub mod Scene
pub mod Trading
pub mod Answered
pub mod Banking
pub mod Ledger
pub mod Users
pub mod Positions
pub mod Login
pub mod Deployed
pub mod Migration
