-- ===== src/Examples/Queue.antt =====
-- Concrete inputs of the results on the inference queue.
use daiki_aipass_backend.Prelude.{◌≡◌, refl, some, true, [], ◌∷◌, arith}
use daiki_aipass_backend.Prelude.Int.{pos}
use daiki_aipass_backend.Redis.Sorted.Memory.{in_memory_sorted, empty_sorted, Store}
use daiki_aipass_backend.Inference.Queue.{
  fast, QueueConfig, Request, runs, enqueue, try_acquire, acquire, release, has_expired, is_idle,
  is_eligible, select, drop_expired_leases, is_at_capacity, workload_limit, take_slot,
}
use daiki_aipass_backend.Inference.Queue.Grants.{IsGranted, try_acquire-IsGranted}
use daiki_aipass_backend.Inference.Queue.Outcomes.{
  IsReleased, release-IsReleased, HasEnded, acquire-HasEnded,
}

abbrev small_queue : QueueConfig
small_queue = record {
  global_limit = pos 2;
  per_principal_limit = pos 1;
  workload_limits = some (λ w. pos 1);
  lease_ttl = pos 30_000_000_000;
  max_wait = pos 120_000_000_000;
  poll_interval = pos 100_000_000;
}

abbrev first_request : Request
first_request = record { request_id = "r1"; principal = "u1"; workload = fast }

abbrev queued_store : Store
queued_store = enqueue in_memory_sorted small_queue empty_sorted first_request 5 1000

abbrev granted_store : Store
granted_store = (try_acquire in_memory_sorted small_queue queued_store first_request 2000).0

granted_lem :
    try_acquire in_memory_sorted small_queue queued_store first_request 2000 ≡ (granted_store, true)
unfolding enqueue try_acquire drop_expired_leases is_at_capacity workload_limit select has_expired
    is_idle is_eligible take_slot
granted_lem = refl

try_acquire-IsGranted_example :
    IsGranted in_memory_sorted small_queue queued_store first_request 2000 granted_store
try_acquire-IsGranted_example =
    try_acquire-IsGranted in_memory_sorted small_queue queued_store granted_store first_request 2000
      (omega arith) granted_lem

release-IsReleased_example :
    IsReleased in_memory_sorted granted_store first_request
      (release in_memory_sorted granted_store first_request)
release-IsReleased_example = release-IsReleased in_memory_sorted granted_store first_request

acquire-HasEnded_example :
    HasEnded in_memory_sorted small_queue first_request true
      (acquire in_memory_sorted small_queue empty_sorted first_request
        (pos 5)
        1000
        true
        (runs (λ d. d) 2000 ∷ [])
        "timeout"
        true).0
      (acquire in_memory_sorted small_queue empty_sorted first_request
        (pos 5)
        1000
        true
        (runs (λ d. d) 2000 ∷ [])
        "timeout"
        true).1
acquire-HasEnded_example =
    acquire-HasEnded in_memory_sorted small_queue empty_sorted first_request (pos 5) 1000
      (runs (λ d. d) 2000 ∷ []) "timeout" true (omega arith) refl
