-- ===== src/Runtime/Recovery.antt =====
-- doModelRequestWithRecovery and applyFallbackModel of cmd/api/model_runtime.go: the attempts of one
-- request. The functions that rewrite its body are the interface Bodies, and what the models, the pool
-- and the outside answer are Models and Answers. Of the metadata only the kind of the last failure is
-- kept.
pub mod Steps
pub mod Start
pub mod Endless
pub mod Bounded
pub mod Attempt
pub mod Ends
use daiki_aipass_backend.Prelude.{
  ℕ, zero, suc, ◌+◌, ◌-◌, ◌*◌, min, String, Option, some, none, Bool, true, false, not, ◌&&◌, ◌||◌,
  str_eq, ltb, leb, ◌==◌, if◌then◌else◌, Result, err, ok,
}
use daiki_aipass_backend.Prelude.Int.{
  ℤ, pos, pos_part, is_pos, ltb_ℤ, leb_ℤ, eqb_ℤ, max_ℤ, min_ℤ, ◌-ℤ◌,
}
use daiki_aipass_backend.Runtime.Budget.{
  ProviderModel, Payload, Factor, whole, shrink, percent, runtime_agent_overhead,
  runtime_output_cap, runtime_message_target, request_completion_limit, should_preflight_fallback,
}
use daiki_aipass_backend.Runtime.Failure.{model_can_fallback}

-- The functions on chat payloads.
pub record Bodies : Type 1 where
  pub Body : Type 0
  -- What the budgets read of a body, with its estimateChatInputTokens.
  pub payload_of : Body → Payload
  -- chatPayloadHasImage
  pub has_image : Body → Bool
  -- applyModelOutputCap
  pub output_cap : Body → ℤ → Body
  -- setRequestModel
  pub set_model : Body → String → Body
  -- trimChatContext; none on an error
  pub trim : Body → ℤ → Option Body
  -- applyTextOnlyProviderCompatibility
  pub text_only : Body → Body
  -- applyReasoningForModel, for the effort that the first body asks for
  pub reasoning : Body → String → Result Body

-- runtimeModel, and preparePoolFallback with the state of the pool.
pub record Models : Type 1 where
  pub Pool : Type 0
  pub runtime_model : String → ProviderModel
  -- Whether the request is in the pool of the route vision, and CandidateCount of its initial choice,
  -- which is 0 if it is in no pool.
  pub is_vision : Pool → Bool
  pub candidate_count : Pool → ℕ
  pub prepare : Pool → String → ProviderModel → Pool × ProviderModel
  -- int(float64(t) * (1 - float64(attempt)*0.18))
  pub shrink_by : ℕ → ℕ → ℕ

-- What the code reads of the body of a failed response.
pub record ErrorBody : Type 0 where
  -- providerToolCompatibilityFailure
  pub refuses_tools : Bool
  -- unexpectedBlockedToolCall
  pub blocked_tool_call : Bool
  -- parseRateLimitObservation
  pub rate_kind : String
  pub rate_limit : ℤ
  pub rate_requested : ℤ

-- How a call of the provider ends; a status takes soft failures into account.
pub data Reply : Type 0 where
  no_response : Reply
  unreadable : Reply
  replied : ℕ → ErrorBody → Reply

-- What the outside answers in one attempt. Waits are nanoseconds.
pub record Answers : Type 0 where
  pub admission : Result (Bool × ℕ)
  pub fallback_admission : Bool × ℕ
  pub waiting : Result (Unit {0})
  pub daily : Result Bool
  pub request : Result (Unit {0})
  pub reply : Reply
  pub backoff : Result (Unit {0})

abbrev pub or_adaptive : String → String
or_adaptive strategy = if str_eq strategy "" then "adaptive" else strategy

module _ (bodies : Bodies) (models : Models) where
  open bodies use {Body, payload_of, output_cap, set_model, trim, text_only, reasoning}
  open models use {Pool, runtime_model, prepare, shrink_by}

  -- The variables of the loop.
  pub record Turn : Type 0 where
    pub body : Body
    pub current : String
    pub runtime : ProviderModel
    pub overhead : ℤ
    pub strategy : String
    pub attempt : ℕ
    pub text_only_tried : Bool
    pub failure : String
    pub pool : Pool

  pub data Ending : Type 0 where
    failed : String → Ending
    responded : ℕ → Ending
    -- dailyLimitResponse
    daily_limited : Ending

  pub data Step : Type 0 where
    again : Turn → Step
    done : Ending → Turn → Step

  abbrev pub set_body : Turn → Body → Turn
  set_body t b = record {
    body = b;
    current = t.current;
    runtime = t.runtime;
    overhead = t.overhead;
    strategy = t.strategy;
    attempt = t.attempt;
    text_only_tried = t.text_only_tried;
    failure = t.failure;
    pool = t.pool;
  }

  abbrev pub set_failure : Turn → String → Turn
  set_failure t kind = record {
    body = t.body;
    current = t.current;
    runtime = t.runtime;
    overhead = t.overhead;
    strategy = t.strategy;
    attempt = t.attempt;
    text_only_tried = t.text_only_tried;
    failure = kind;
    pool = t.pool;
  }

  -- `continue`
  abbrev pub next_attempt : Turn → Step
  next_attempt t = again (record {
    body = t.body;
    current = t.current;
    runtime = t.runtime;
    overhead = t.overhead;
    strategy = t.strategy;
    attempt = suc t.attempt;
    text_only_tried = t.text_only_tried;
    failure = t.failure;
    pool = t.pool;
  })

  -- The retry without tools.
  abbrev pub try_text_only : Turn → Turn
  try_text_only t = record {
    body = text_only t.body;
    current = t.current;
    runtime = t.runtime;
    overhead = t.overhead;
    strategy = t.strategy;
    attempt = t.attempt;
    text_only_tried = true;
    failure = "provider_tool_choice";
    pool = t.pool;
  }

  -- applyFallbackModel
  unfoldable pub apply_fallback_model : String → Turn → Turn
  unfolding runtime_agent_overhead runtime_output_cap
  apply_fallback_model profile t =
      let name = t.runtime.fallback_model_name in
      let prepared = prepare t.pool name (runtime_model name) in
      let m = prepared.1 in
      record {
        body = output_cap (set_model t.body name) (runtime_output_cap m);
        current = name;
        runtime = m;
        overhead = runtime_agent_overhead m profile;
        strategy = or_adaptive m.context_strategy;
        attempt = t.attempt;
        text_only_tried = t.text_only_tried;
        failure = t.failure;
        pool = prepared.0;
      }

  abbrev pub can_fall_back : Bool → Turn → Bool
  can_fall_back allowed t = allowed && model_can_fallback t.runtime t.current t.strategy

  abbrev completion_limit_of : Body → ℤ
  completion_limit_of b = request_completion_limit (payload_of b)

  -- After a limit on output tokens: the body with a lower cap, and whether the cap is lower.
  unfoldable pub shrink_output : ErrorBody → Turn → Body × Bool
  unfolding request_completion_limit
  shrink_output e t =
      let limit = completion_limit_of t.body in
      let before = if is_pos limit then limit else e.rate_requested in
      let room = max_ℤ (pos 1) (percent e.rate_limit 90) in
      let configured = t.runtime.max_output_tokens in
      let target = if is_pos configured && ltb_ℤ configured room then configured else room in
      let capped = output_cap t.body target in
      let final = completion_limit_of capped in
      if str_eq e.rate_kind "otpm"
        && is_pos e.rate_limit
        && (not (is_pos before) || ltb_ℤ target before)
      then (capped, is_pos final && (not (is_pos before) || ltb_ℤ final before))
      else (t.body, false)

  abbrev factor_of : ℕ → Factor
  factor_of zero = whole
  factor_of (suc n) = shrink (shrink_by (suc n))

  abbrev trimmed_or : Body → Option Body → Body × Bool
  trimmed_or b none = (b, false)
  trimmed_or b (some c) =
      if ltb (payload_of c).estimate (payload_of b).estimate then (c, true) else (b, false)

  -- After a limit on input tokens: a shorter context, if there is one.
  unfoldable pub shrink_input : ErrorBody → Turn → Body × Bool
  unfolding runtime_message_target ◌-ℤ◌
  shrink_input e t =
      let first = runtime_message_target t.runtime e.rate_limit (factor_of t.attempt) t.overhead in
      let observed = max_ℤ (pos 256) (percent e.rate_limit 72 -ℤ t.overhead) in
      let retarget =
        eqb_ℤ first (pos 0) && is_pos e.rate_limit && ltb_ℤ t.overhead (percent e.rate_limit 90) in
      let target = if retarget then observed else first in
      let trims = str_eq t.strategy "adaptive" || str_eq t.strategy "trim" in
      let kinds = str_eq e.rate_kind "itpm" || str_eq e.rate_kind "tpm" in
      if trims && kinds && is_pos target
      then trimmed_or t.body (trim t.body target)
      else (t.body, false)
