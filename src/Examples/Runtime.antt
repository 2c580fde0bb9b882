-- ===== src/Examples/Runtime.antt =====
-- Concrete inputs of the results on budgets, admission and failures.
use daiki_aipass_backend.Prelude.{
  ◌+◌, ◌-◌, ◌*◌, ◌≤◌, ◌≡◌, refl, String, Option, none, true, List, [], ◌∷◌, arith,
}
use daiki_aipass_backend.Prelude.Int.{ℤ, pos, is_neg, two_63}
use daiki_aipass_backend.Redis.{in_memory}
use daiki_aipass_backend.Runtime.Budget.{ProviderModel, Payload, reservation_tokens}
use daiki_aipass_backend.Runtime.Budget.Bounds.{reservation_tokens_overflow}
use daiki_aipass_backend.Runtime.Admission.{Bucket, token, try_model_daily_admission}
use daiki_aipass_backend.Runtime.Admission.Rate.{Attempt, admitted_from, admitted_from-bounds}
use daiki_aipass_backend.Runtime.Admission.Daily.{IsDaily, try_model_daily_admission-IsDaily}

abbrev small_model : ProviderModel
small_model = record {
  litellm_model_name = "small";
  max_input_tokens = pos 8000;
  max_output_tokens = pos 1000;
  tpm_limit = pos 6000;
  itpm_limit = pos 0;
  otpm_limit = pos 2000;
  rpd_limit = pos 20;
  free_pool_weight = pos 100;
  free_pool_priority = pos 0;
  quality_score = pos 60;
  context_strategy = "adaptive";
  context_target_tokens = pos 4000;
  agent_overhead_tokens = pos 500;
  research_overhead_tokens = pos 0;
  fallback_model_name = "backup";
  max_retries = pos 2;
  retry_backoff_ms = pos 0;
}

abbrev greedy_chat : Payload
greedy_chat = record {
  estimate = 300;
  max_tokens = pos 0;
  max_completion_tokens = pos (two_63 - 1);
}

reservation_tokens_overflow_example : is_neg (reservation_tokens 1200 greedy_chat) ≡ true
reservation_tokens_overflow_example =
    reservation_tokens_overflow 1200 greedy_chat (two_63 - 1) refl (omega arith) (omega arith)

abbrev full_bucket : Bucket
full_bucket = record { tokens = 300_000; last = 1000 }

abbrev three_calls : List Attempt
three_calls =
    record { now = 1000; cost = 4 }
    ∷ record { now = 1500; cost = 3 }
    ∷ record { now = 4000; cost = 2 }
    ∷ []

admitted_from-bounds_example :
    (admitted_from 5 60 full_bucket three_calls).0 * token ≤ 300_000 + (4000 - 1000) * 60
admitted_from-bounds_example =
    admitted_from-bounds 5 60 full_bucket three_calls 4000 (omega arith) (omega arith)
      (omega arith, (omega arith, (omega arith, tt)))

abbrev no_requests : String → Option ℤ
no_requests k = none

try_model_daily_admission-IsDaily_example :
    IsDaily in_memory no_requests "model:rpd:a:2026-01-01"
      (pos 20)
      (try_model_daily_admission in_memory no_requests true "model:rpd:a:2026-01-01"
        (pos 20)
        3600).0
      (try_model_daily_admission in_memory no_requests true "model:rpd:a:2026-01-01"
        (pos 20)
        3600).1
try_model_daily_admission-IsDaily_example =
    try_model_daily_admission-IsDaily in_memory no_requests "model:rpd:a:2026-01-01" (pos 20) 3600
      refl (omega arith) (omega arith)
