-- ===== src/Runtime/Failure.antt =====
-- cmd/api/model_runtime.go: how the failure of a provider is classified, how long the model's circuit
-- stays open, and whether a request may fall back. A retry delay is what providerRetryAfter reads from
-- the body, in nanoseconds; 0 if there is none. A status is an HTTP status code.
pub mod Circuit
use daiki_aipass_backend.Prelude.{
  ℕ, ◌+◌, ◌*◌, String, Bool, true, false, not, ◌&&◌, ◌||◌, str_eq, ltb, leb, ◌==◌, if◌then◌else◌,
  to_lower, trim_space,
}
use daiki_aipass_backend.Runtime.Budget.{ProviderModel}

unfoldable pub recoverable_provider_status : ℕ → Bool
recoverable_provider_status status =
    (status == 401)
    || (status == 403)
    || (status == 404)
    || (status == 408)
    || (status == 413)
    || (status == 429)
    || leb 500 status

unfoldable pub failure_kind_for_status : ℕ → String
failure_kind_for_status status =
    if (status == 401) || (status == 403)
    then "provider_auth"
    else if status == 404
    then "provider_model"
    else if status == 408
    then "provider_timeout"
    else if status == 413
    then "provider_payload_too_large"
    else if status == 429
    then "provider_rate_limit"
    else if leb 500 status
    then "provider_upstream"
    else "provider_error"

abbrev pub one_second : ℕ
one_second = 1_000_000_000

abbrev pub seconds_30 : ℕ
seconds_30 = 30_000_000_000

abbrev pub minutes_15 : ℕ
minutes_15 = 900_000_000_000

unfoldable pub model_circuit_ttl : ℕ → String → ℕ
model_circuit_ttl status kind =
    if (status == 401) || (status == 403) || (status == 404)
    then 600_000_000_000
    else if status == 429
    then 60_000_000_000
    else if status == 408
    then 45_000_000_000
    else if leb 500 status
    then 45_000_000_000
    else if str_eq kind "hermes_transport"
    then 45_000_000_000
    else seconds_30

unfoldable pub model_circuit_ttl_for_failure : ℕ → String → ℕ → ℕ
model_circuit_ttl_for_failure status kind retry =
    let waited = retry + 2 * one_second in
    let least = if ltb waited seconds_30 then seconds_30 else waited in
    if not (status == 429) || (retry == 0)
    then model_circuit_ttl status kind
    else if ltb minutes_15 least
    then minutes_15
    else least

unfoldable pub profile_requires_provider_tools : String → Bool
profile_requires_provider_tools profile =
    let p = to_lower (trim_space profile) in
    str_eq p "skills"
    || str_eq p "guest-skills"
    || str_eq p "agent"
    || str_eq p "guest-media"
    || str_eq p "vision"

unfoldable pub model_can_fallback : ProviderModel → String → String → Bool
model_can_fallback m current_model strategy =
    (str_eq strategy "adaptive" || str_eq strategy "fallback")
    && not (str_eq (trim_space m.fallback_model_name) "")
    && not (str_eq m.fallback_model_name current_model)
