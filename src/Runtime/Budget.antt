-- ===== src/Runtime/Budget.antt =====
-- cmd/api/model_runtime.go: the token budgets of a model, and cmd/api/access.go: reservationTokens.
-- `int(float64(n)*0.90)` and its like are exact for n below 2^46, as `n * 90 / 100`. A body enters with
-- what the code reads from it: its estimated tokens and its two limits on the completion.
pub mod Bounds
use Prim.Native.String
use daiki_aipass_backend.Prelude.{
  ℕ, zero, ◌+◌, ◌-◌, ◌*◌, ◌/◌, ◌≤◌, max, min, String, Option, none, some, Bool, true, false, not,
  ◌&&◌, ◌||◌, List, [], ◌∷◌, ◌++◌, str_eq, ltb, leb, ◌==◌, if◌then◌else◌, to_lower, trim_space,
}
use daiki_aipass_backend.Prelude.Int.{
  ℤ, pos, negsuc, is_pos, is_neg, pos_part, ltb_ℤ, leb_ℤ, eqb_ℤ, max_ℤ, min_ℤ, ◌+ℤ◌, ◌-ℤ◌, wrap64,
}

-- The fields of store.ProviderModel that the budgets read.
pub record ProviderModel : Type 0 where
  pub litellm_model_name : String
  pub max_input_tokens : ℤ
  pub max_output_tokens : ℤ
  pub tpm_limit : ℤ
  pub itpm_limit : ℤ
  pub otpm_limit : ℤ
  pub rpd_limit : ℤ
  pub free_pool_weight : ℤ
  pub free_pool_priority : ℤ
  pub quality_score : ℤ
  pub context_strategy : String
  pub context_target_tokens : ℤ
  pub agent_overhead_tokens : ℤ
  pub research_overhead_tokens : ℤ
  pub fallback_model_name : String
  pub max_retries : ℤ
  pub retry_backoff_ms : ℤ

-- What the code reads from a chat payload.
pub record Payload : Type 0 where
  pub estimate : ℕ
  pub max_tokens : ℤ
  pub max_completion_tokens : ℤ

-- `int(float64(n)*p/100)` of a positive `n`.
abbrev pub percent : ℤ → ℕ → ℤ
percent n p = pos (pos_part n * p / 100)

unfoldable pub runtime_output_cap : ProviderModel → ℤ
runtime_output_cap m =
    let cap = m.max_output_tokens in
    let safe = max_ℤ (pos 1) (percent m.otpm_limit 90) in
    if is_pos m.otpm_limit && (not (is_pos cap) || ltb_ℤ safe cap) then safe else cap

unfoldable pub request_completion_limit : Payload → ℤ
request_completion_limit p =
    if is_pos p.max_completion_tokens then p.max_completion_tokens else max_ℤ (pos 0) p.max_tokens

abbrev when_pos : ℤ → ℤ → List ℤ
when_pos test value = if is_pos test then value ∷ [] else []

unfoldable pub context_candidates : ProviderModel → ℤ → List ℤ
context_candidates m observed =
    when_pos m.context_target_tokens m.context_target_tokens
    ++ when_pos m.max_input_tokens m.max_input_tokens
    ++ when_pos m.itpm_limit (percent m.itpm_limit 78)
    ++ when_pos observed (percent observed 78)

-- The loop over the other candidates.
unfoldable pub least_candidate : ℤ → List ℤ → ℤ
least_candidate target [] = target
least_candidate target (v ∷ vs) =
    least_candidate (if is_pos v && ltb_ℤ v target then v else target) vs

-- A factor strictly between 0 and 1 as the function `int(float64(x)*factor)`; none for any other.
pub data Factor : Type 0 where
  whole : Factor
  shrink : (ℕ → ℕ) → Factor

abbrev pub apply_factor : Factor → ℤ → ℤ
apply_factor whole t = t
apply_factor (shrink f) t = pos (f (pos_part t))

context_target_of : Factor → List ℤ → ℤ
context_target_of factor [] = pos 0
context_target_of factor (c ∷ cs) = max_ℤ (pos 256) (apply_factor factor (least_candidate c cs))

unfoldable pub runtime_context_target : ProviderModel → ℤ → Factor → ℤ
unfolding context_target_of
runtime_context_target m observed factor = context_target_of factor (context_candidates m observed)

unfoldable pub is_research_profile : String → Bool
is_research_profile profile =
    let p = to_lower (trim_space profile) in
    str_eq p "research" || str_eq p "research-direct" || str_eq p "guest" || str_eq p "vision"

unfoldable pub runtime_agent_overhead : ProviderModel → String → ℤ
runtime_agent_overhead m profile =
    if is_research_profile profile && is_pos m.research_overhead_tokens
    then m.research_overhead_tokens
    else m.agent_overhead_tokens

unfoldable pub runtime_token_limit : ProviderModel → ℤ
runtime_token_limit m =
    if not (is_pos m.tpm_limit) || (is_pos m.itpm_limit && ltb_ℤ m.itpm_limit m.tpm_limit)
    then m.itpm_limit
    else m.tpm_limit

-- The first of the values that is positive, or the last.
abbrev pub first_positive : List ℤ → ℤ → ℤ
first_positive [] standard = standard
first_positive (x ∷ xs) standard = if is_pos x then x else first_positive xs standard

unfoldable pub request_completion_reserve : Payload → ProviderModel → ℤ
request_completion_reserve p m =
    min_ℤ
      (first_positive (p.max_completion_tokens ∷ p.max_tokens ∷ m.max_output_tokens ∷ []) (pos 256))
      (pos 256)

-- 85% of a limit, at least 1.
abbrev pub admission_capacity : ℤ → ℤ
admission_capacity limit = max_ℤ (pos 1) (percent limit 85)

unfoldable pub model_admission_cost : Payload → ProviderModel → String → ℤ
model_admission_cost p m profile =
    let limit = runtime_token_limit m in
    let cost =
      pos p.estimate +ℤ runtime_agent_overhead m profile +ℤ request_completion_reserve p m in
    let capacity = admission_capacity limit in
    if not (is_pos limit)
    then pos 0
    else max_ℤ (pos 1) (if ltb_ℤ capacity cost then capacity else cost)

unfoldable pub model_daily_admission_capacity : ℤ → ℤ
model_daily_admission_capacity limit =
    if not (is_pos limit) then pos 0 else max_ℤ (pos 1) (percent limit 90)

-- The input limit, or the limit on all tokens where that is smaller or the only one.
unfoldable pub input_limit : ProviderModel → ℤ
input_limit m =
    if not (is_pos m.itpm_limit) || (is_pos m.tpm_limit && ltb_ℤ m.tpm_limit m.itpm_limit)
    then m.tpm_limit
    else m.itpm_limit

-- What is kept for the completion where a limit counts all tokens.
unfoldable pub completion_share : ProviderModel → ℤ
completion_share m =
    if is_pos m.tpm_limit && is_pos m.max_output_tokens
    then min_ℤ m.max_output_tokens (max_ℤ (pos 128) (percent m.tpm_limit 20))
    else pos 0

unfoldable pub runtime_safe_input_budget : ProviderModel → ℤ → ℤ
runtime_safe_input_budget m overhead =
    let limit = input_limit m in
    let message_budget = percent limit 90 -ℤ completion_share m -ℤ overhead in
    if not (is_pos limit)
    then pos 0
    else if not (is_pos message_budget)
    then negsuc 0
    else max_ℤ (pos 256) message_budget

-- The limit of runtimeMessageTarget: an observed limit counts where it is smaller.
unfoldable pub observed_limit : ProviderModel → ℤ → ℤ
observed_limit m observed =
    let limit = input_limit m in
    if is_pos observed && (eqb_ℤ limit (pos 0) || ltb_ℤ observed limit) then observed else limit

unfoldable pub runtime_message_target : ProviderModel → ℤ → Factor → ℤ → ℤ
runtime_message_target m observed factor overhead =
    let target = runtime_context_target m observed factor in
    let limit = observed_limit m observed in
    let message_budget = percent limit 90 -ℤ overhead -ℤ completion_share m in
    let bounded =
      if is_pos limit && (eqb_ℤ target (pos 0) || ltb_ℤ message_budget target)
      then message_budget
      else target in
    if is_pos limit && not (is_pos message_budget)
    then pos 0
    else if not (is_pos bounded)
    then pos 0
    else max_ℤ (pos 256) bounded

unfoldable pub should_preflight_fallback : ProviderModel → Payload → ℤ → Bool
should_preflight_fallback m p overhead =
    let budget = runtime_safe_input_budget m overhead in
    if str_eq (trim_space m.fallback_model_name) ""
      || not (str_eq m.context_strategy "adaptive" || str_eq m.context_strategy "fallback")
    then false
    else if is_neg budget
    then true
    else if eqb_ℤ budget (pos 0)
    then false
    else ltb_ℤ budget (pos p.estimate)

-- The prompt's share is a quarter of the body's bytes, at most 16000.
unfoldable pub reservation_tokens : ℕ → Payload → ℤ
reservation_tokens body_bytes p = wrap64 (
    pos (min (body_bytes / 4 + 256) 16_000)
    +ℤ first_positive (p.max_completion_tokens ∷ p.max_tokens ∷ []) (pos 2048))
