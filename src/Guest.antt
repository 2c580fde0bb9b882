-- ===== src/Guest.antt =====
-- Access without an account.
pub mod Policy
pub mod Rate
pub mod Chat
