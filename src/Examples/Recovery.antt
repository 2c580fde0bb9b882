-- ===== src/Examples/Recovery.antt =====
-- Concrete inputs of the results on the recovery of requests.
use daiki_aipass_backend.Prelude.{
  ℕ, suc, ◌/◌, ◌≡◌, refl, String, some, none, Bool, true, false, str_eq, leb, trim_space,
  if◌then◌else◌, ok,
}
use daiki_aipass_backend.Prelude.Int.{pos}
use daiki_aipass_backend.Runtime.Budget.{ProviderModel}
use daiki_aipass_backend.Runtime.Failure.{model_can_fallback}
use daiki_aipass_backend.Runtime.Recovery.{Bodies, Models, ErrorBody, replied, Answers, Turn}
use daiki_aipass_backend.Runtime.Recovery.Steps.{recover, allows_fallback}
use daiki_aipass_backend.Runtime.Recovery.Start.{do_model_request_with_recovery}
use daiki_aipass_backend.Runtime.Recovery.Ends.{Ended, do_model_request_with_recovery-Ended}
use daiki_aipass_backend.Runtime.Recovery.Endless.{recover-endless}

-- A body is its estimate.
abbrev sizes : Bodies
sizes = record {
  Body = ℕ;
  payload_of = λ n. record { estimate = n; max_tokens = pos 0; max_completion_tokens = pos 0 };
  has_image = λ n. leb 1000 n;
  output_cap = λ n cap. n;
  set_model = λ n name. n;
  trim = λ n target. some (n / 2);
  text_only = λ n. n;
  reasoning = λ n name. ok (suc n);
}

abbrev backed_by : String → ProviderModel
backed_by name = record {
  litellm_model_name = "model";
  max_input_tokens = pos 8000;
  max_output_tokens = pos 1000;
  tpm_limit = pos 0;
  itpm_limit = pos 0;
  otpm_limit = pos 0;
  rpd_limit = pos 20;
  free_pool_weight = pos 100;
  free_pool_priority = pos 0;
  quality_score = pos 60;
  context_strategy = "adaptive";
  context_target_tokens = pos 4000;
  agent_overhead_tokens = pos 500;
  research_overhead_tokens = pos 0;
  fallback_model_name = name;
  max_retries = pos 2;
  retry_backoff_ms = pos 0;
}

-- Two models, each the other's fallback.
abbrev two_models : Models
two_models = record {
  Pool = Unit;
  runtime_model = λ name. if str_eq name "a" then backed_by "b" else backed_by "a";
  shrink_by = λ attempt t. t / 2;
  is_vision = λ p. false;
  candidate_count = λ p. 0;
  prepare = λ p name m. (p, m);
}

abbrev plain_error : ErrorBody
plain_error = record {
  refuses_tools = false;
  blocked_tool_call = false;
  rate_kind = "";
  rate_limit = pos 0;
  rate_requested = pos 0;
}

abbrev answers : Bool → ℕ → Answers
answers admitted attempt = record {
  admission = ok (true, 0);
  fallback_admission = (true, 0);
  waiting = ok tt;
  daily = ok admitted;
  request = ok tt;
  reply = replied 503 plain_error;
  backoff = ok tt;
}

do_model_request_with_recovery-Ended_example :
    Ended sizes two_models "chat"
      (allows_fallback sizes two_models 2000 tt)
      "a"
      (do_model_request_with_recovery sizes two_models "chat" 6 (answers true) 2000 "a" tt false)
do_model_request_with_recovery-Ended_example =
    do_model_request_with_recovery-Ended sizes two_models "chat" (answers true) 2000 "a" tt false
      (λ n. refl)

abbrev on_a : Turn sizes two_models
on_a = record {
  body = 100;
  current = "a";
  runtime = backed_by "b";
  overhead = pos 500;
  strategy = "adaptive";
  attempt = 0;
  text_only_tried = false;
  failure = "";
  pool = tt;
}

recover-endless_example : recover sizes two_models "chat" true 2 1000 (answers false) on_a ≡ none
unfolding model_can_fallback trim_space
recover-endless_example =
    recover-endless sizes two_models "chat" 2 (answers false) (λ n. (refl, refl))
      (λ body name. (suc body, refl)) "b" "a" (λ p. (refl, refl)) (λ p. (refl, refl)) 1000 on_a refl
      refl
