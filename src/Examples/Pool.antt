-- ===== src/Examples/Pool.antt =====
-- Concrete inputs of the results on the model pool.
use daiki_aipass_backend.Prelude.{refl, String, some, none, false, List, [], ◌∷◌}
use daiki_aipass_backend.Prelude.Int.{ℤ, pos, pos_part, ltb_ℤ, eqb_ℤ, ◌+ℤ◌, scale}
use daiki_aipass_backend.Runtime.Budget.{ProviderModel}
use daiki_aipass_backend.Runtime.Pool.{View, normalize_pool_route}
use daiki_aipass_backend.Runtime.Pool.Score.{Scores}
use daiki_aipass_backend.Runtime.Pool.Choice.{select_free_pool_model}
use daiki_aipass_backend.Runtime.Pool.Choice.Fallback.{PoolRequest}
use daiki_aipass_backend.Runtime.Pool.Choice.Selected.{
  IsSelected, select_free_pool_model-IsSelected,
}

-- Whole numbers in place of float64.
abbrev whole_scores : Scores
whole_scores = record {
  Score = ℤ;
  of_int = λ a. a;
  hundredths = λ a. pos a;
  add = λ a b. a +ℤ b;
  mul = λ a b. scale a (pos_part b);
  div = λ a b. a;
  is_less = ltb_ℤ;
  is_same = eqb_ℤ;
  round = λ a. a;
}

abbrev quiet : View
quiet = record {
  circuit_open = λ name. false;
  health_fields = λ name. none;
  daily_value = λ name. none;
  ceil_of_progress = λ capacity. pos 0;
  next_counter = λ route. some (pos 7);
}

abbrev model_named : String → ProviderModel
model_named name = record {
  litellm_model_name = name;
  max_input_tokens = pos 8000;
  max_output_tokens = pos 1000;
  tpm_limit = pos 6000;
  itpm_limit = pos 0;
  otpm_limit = pos 2000;
  rpd_limit = pos 20;
  free_pool_weight = pos 100;
  free_pool_priority = pos 0;
  quality_score = pos 60;
  context_strategy = "";
  context_target_tokens = pos 4000;
  agent_overhead_tokens = pos 500;
  research_overhead_tokens = pos 0;
  fallback_model_name = "backup";
  max_retries = pos 2;
  retry_backoff_ms = pos 0;
}

abbrev pool : String → List ProviderModel
pool route = model_named "a" ∷ model_named "b" ∷ []

select_free_pool_model-IsSelected_example :
    IsSelected whole_scores quiet
      (pool (normalize_pool_route "fast"))
      ("a" ∷ [])
      (select_free_pool_model whole_scores quiet pool "fast" ("a" ∷ [])).model_name
unfolding normalize_pool_route
select_free_pool_model-IsSelected_example =
    select_free_pool_model-IsSelected whole_scores quiet pool "fast" ("a" ∷ []) refl

abbrev vision_request : PoolRequest whole_scores
vision_request = record { pool_route = "vision"; visited = "b" ∷ []; initial = none }
