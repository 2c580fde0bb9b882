-- ===== src/Runtime/Pool/Choice/Fallback.antt =====
-- The fallbacks of a request in a pool: withModelPoolRoute, selectInitialFreePoolModel and
-- preparePoolFallback of cmd/api/model_pool.go. The state that the context points to is passed on as
-- a value.
use daiki_aipass_backend.Prelude.{
  String, Option, some, none, not, ◌&&◌, ◌||◌, str_eq, if◌then◌else◌, List, [], ◌∷◌,
}
use daiki_aipass_backend.Runtime.Budget.{ProviderModel}
use daiki_aipass_backend.Runtime.Pool.{View, normalize_pool_route}
use daiki_aipass_backend.Runtime.Pool.Score.{Scores}
use daiki_aipass_backend.Runtime.Pool.Choice.{Selection, select_free_pool_model}

abbrev pub pool_strategy : String → String
pool_strategy strategy =
    if str_eq strategy "" || str_eq strategy "reject" || str_eq strategy "trim"
    then "adaptive"
    else strategy

-- `m.FallbackModelName = name; m.ContextStrategy = strategy`
abbrev pub with_fallback : ProviderModel → String → String → ProviderModel
with_fallback m name strategy = record {
  litellm_model_name = m.litellm_model_name;
  max_input_tokens = m.max_input_tokens;
  max_output_tokens = m.max_output_tokens;
  tpm_limit = m.tpm_limit;
  itpm_limit = m.itpm_limit;
  otpm_limit = m.otpm_limit;
  rpd_limit = m.rpd_limit;
  free_pool_weight = m.free_pool_weight;
  free_pool_priority = m.free_pool_priority;
  quality_score = m.quality_score;
  context_strategy = strategy;
  context_target_tokens = m.context_target_tokens;
  agent_overhead_tokens = m.agent_overhead_tokens;
  research_overhead_tokens = m.research_overhead_tokens;
  fallback_model_name = name;
  max_retries = m.max_retries;
  retry_backoff_ms = m.retry_backoff_ms;
}

module _ (scores : Scores) where
  -- modelPoolRequestState
  pub record PoolRequest : Type 0 where
    pub pool_route : String
    pub visited : List String
    pub initial : Option (Selection scores)

  -- withModelPoolRoute
  unfoldable pub with_model_pool_route : Option PoolRequest → String → Option PoolRequest
  unfolding normalize_pool_route
  with_model_pool_route none route =
      let r = normalize_pool_route route in
      if str_eq r "" then none else some (record { pool_route = r; visited = []; initial = none })
  with_model_pool_route (some state) route =
      let r = normalize_pool_route route in
      some (
        if str_eq r ""
        then state
        else record { pool_route = r; visited = state.visited; initial = state.initial })

  abbrev visit : String → List String → List String
  visit name visited = if str_eq name "" then visited else name ∷ visited

  -- selectInitialFreePoolModel
  unfoldable pub select_initial_free_pool_model :
      View
      → (String → List ProviderModel)
      → Option PoolRequest
      → String
      → Option PoolRequest × Selection scores
  unfolding with_model_pool_route select_free_pool_model
  select_initial_free_pool_model view models context route =
      let selection = select_free_pool_model scores view models route [] in
      elim (with_model_pool_route context route) [
        | none ↦ (none, selection)
        | some state ↦ (
          some (record {
            pool_route = state.pool_route;
            visited = visit selection.model_name state.visited;
            initial = some selection;
          }),
          selection,
        )
      ]

  abbrev pub fallback_of : Selection scores → String → String → ProviderModel → ProviderModel
  fallback_of selection route current m =
      if not (str_eq selection.model_name "") && not (str_eq selection.model_name current)
      then with_fallback m selection.model_name (pool_strategy m.context_strategy)
      else if str_eq route "vision"
      then with_fallback m "" m.context_strategy
      else m

  -- preparePoolFallback
  unfoldable pub prepare_pool_fallback :
      View
      → (String → List ProviderModel)
      → Option PoolRequest
      → String
      → ProviderModel
      → Option PoolRequest × ProviderModel
  unfolding select_free_pool_model
  prepare_pool_fallback view models none current m = (none, m)
  prepare_pool_fallback view models (some state) current m =
      let tried = current ∷ state.visited in
      let selection = select_free_pool_model scores view models state.pool_route tried in
      if str_eq state.pool_route "" then (some state, m) else (
        some (record { pool_route = state.pool_route; visited = tried; initial = state.initial }),
        fallback_of selection state.pool_route current m,
      )
