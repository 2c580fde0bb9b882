-- ===== src/Quota.antt =====
-- Token quotas: the calendar of their windows, policies, evaluation and reservation.
pub mod Calendar
pub mod Window
pub mod Policy
pub mod Evaluate
pub mod Reserve
pub mod Effective
pub mod Resets
