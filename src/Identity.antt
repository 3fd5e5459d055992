-- ===== src/Identity.antt =====
-- identity/: roles, session tokens, and who may do what.
pub mod Rbac
pub mod Tokens
pub mod Access
pub mod Accounts
mod Tests
