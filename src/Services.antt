-- ===== src/Services.antt =====
-- app/services/: the use cases. A service method is an action of `Session.Exec`, and the theorems
-- about it stand in the modules below its own.
pub mod Consistent
pub mod Aside
pub mod Books
pub mod Filling
pub mod Trading
pub mod Banking
pub mod Onboarding
pub mod Portfolio
