-- ===== src/Runtime.antt =====
-- cmd/api/model_runtime.go: what a request may cost, and when a model admits it.
pub mod Budget
pub mod Admission
pub mod Failure
pub mod Reasoning
pub mod Pool
pub mod Recovery
pub mod Context
