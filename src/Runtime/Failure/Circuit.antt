-- ===== src/Runtime/Failure/Circuit.antt =====
-- What the classification of Runtime/Failure guarantees.
use daiki_aipass_backend.Prelude.{
  ℕ, ◌+◌, ◌*◌, ◌≤◌, ◌<◌, ◌≡◌, refl, ◌↔◌, min, String, Bool, true, false, not, str_eq, if◌then◌else◌,
  arith,
}
use daiki_aipass_backend.Runtime.Failure.{
  recoverable_provider_status, failure_kind_for_status, model_circuit_ttl,
  model_circuit_ttl_for_failure, seconds_30, minutes_15, one_second,
}

str_eq_if :
    (c : Bool) (a b k : String)
    → str_eq (if c then a else b) k ≡ (if c then str_eq a k else str_eq b k)
str_eq_if true a b k = refl
str_eq_if false a b k = refl

own_kind :
    (status : ℕ)
    → str_eq (failure_kind_for_status status) "provider_error"
      ≡ not (recoverable_provider_status status)
unfolding recoverable_provider_status failure_kind_for_status
own_kind status =
    rw (failure_kind_for_status, str_eq_if, str_eq_if, str_eq_if, str_eq_if, str_eq_if, str_eq_if)
      (ground arith)

-- The statuses that the runtime recovers from are exactly those whose failure has a kind of its own.
pub failure_kind-recoverable :
    (status : ℕ)
    → (recoverable_provider_status status ≡ true)
      ↔ (str_eq (failure_kind_for_status status) "provider_error" ≡ false)
failure_kind-recoverable status =
    (λ h. ground (arith, own_kind status), λ h. ground (arith, own_kind status))

-- A model's circuit stays open for 30 seconds to 15 minutes whatever failed; and if the provider of a
-- rate-limited request asks for a delay, for that delay and two seconds more, or for the 15 minutes.
pub model_circuit_ttl_for_failure-bounds :
    (status : ℕ) (kind : String) (retry : ℕ)
    → (seconds_30 ≤ model_circuit_ttl_for_failure status kind retry)
      × (model_circuit_ttl_for_failure status kind retry ≤ minutes_15)
      × (status ≡ 429
          → 0 < retry
          → min (retry + 2 * one_second) minutes_15
            ≤ model_circuit_ttl_for_failure status kind retry)
unfolding model_circuit_ttl_for_failure model_circuit_ttl
model_circuit_ttl_for_failure-bounds status kind retry =
    (ground arith, ground arith, λ h k. ground arith)
