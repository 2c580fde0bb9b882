-- ===== src/Inference.antt =====
-- internal/inference: routing and the queue of inference requests.
pub mod Queue
pub mod Router
