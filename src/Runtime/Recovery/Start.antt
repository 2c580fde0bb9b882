-- ===== src/Runtime/Recovery/Start.antt =====
-- The start of doModelRequestWithRecovery of cmd/api/model_runtime.go, before its loop, and the whole.
use daiki_aipass_backend.Prelude.{
  ℕ, String, Option, some, none, Bool, false, ◌&&◌, ◌||◌, str_eq, if◌then◌else◌,
}
use daiki_aipass_backend.Prelude.Int.{pos, is_pos}
use daiki_aipass_backend.Runtime.Budget.{
  whole, runtime_agent_overhead, runtime_output_cap, runtime_message_target,
  should_preflight_fallback,
}
use daiki_aipass_backend.Runtime.Failure.{model_can_fallback}
use daiki_aipass_backend.Runtime.Recovery.{
  Bodies, Models, Answers, or_adaptive, Turn, Ending, set_body, apply_fallback_model,
}
use daiki_aipass_backend.Runtime.Recovery.Steps.{recover, retry_limit, allows_fallback}

module _ (bodies : Bodies) (models : Models) (profile : String) where
  open bodies use {Body, payload_of, output_cap, set_model, trim}
  open models use {Pool, runtime_model, prepare, candidate_count}

  abbrev T : Type 0
  T = Turn bodies models

  -- The variables for a model before its first attempt.
  abbrev pub turn_for : Body → String → Pool → T
  turn_for body name pool =
      let prepared = prepare pool name (runtime_model name) in
      record {
        body = body;
        current = name;
        runtime = prepared.1;
        overhead = runtime_agent_overhead prepared.1 profile;
        strategy = or_adaptive prepared.1.context_strategy;
        attempt = 0;
        text_only_tried = false;
        failure = "";
        pool = prepared.0;
      }

  abbrev trim_or : Body → Option Body → Body
  trim_or body none = body
  trim_or body (some trimmed) = trimmed

  -- The cap on the output, and the trimming of the context.
  unfoldable pub fit_body : T → T
  unfolding runtime_output_cap runtime_message_target
  fit_body t =
      let capped = output_cap t.body (runtime_output_cap t.runtime) in
      let target = runtime_message_target t.runtime (pos 0) whole t.overhead in
      let trims = str_eq t.strategy "adaptive" || str_eq t.strategy "trim" in
      set_body bodies models t
        (if trims && is_pos target then trim_or capped (trim capped target) else capped)

  -- The choice of the model before the first attempt: around an open circuit, or around a budget that
  -- the overhead exceeds.
  unfoldable pub preflight : Bool → Bool → T → T
  unfolding apply_fallback_model should_preflight_fallback model_can_fallback
  preflight allowed circuit_open t =
      let bypass = allowed && circuit_open && model_can_fallback t.runtime t.current t.strategy in
      let name = t.runtime.fallback_model_name in
      if bypass
      then apply_fallback_model bodies models profile t
      else if allowed && should_preflight_fallback t.runtime (payload_of t.body) t.overhead
      then turn_for (set_model t.body name) name t.pool
      else t

  unfoldable pub first_turn : Body → String → Pool → Bool → T
  unfolding fit_body preflight allows_fallback
  first_turn body model pool circuit_open =
      fit_body (
        preflight (allows_fallback bodies models body pool) circuit_open (turn_for body model pool))

  -- doModelRequestWithRecovery, with at most `fuel` attempts.
  unfoldable pub do_model_request_with_recovery :
      ℕ → (ℕ → Answers) → Body → String → Pool → Bool → Option (Ending bodies models × T)
  unfolding first_turn recover retry_limit allows_fallback
  do_model_request_with_recovery fuel ask body model pool circuit_open =
      let t = first_turn body model pool circuit_open in
      recover bodies models profile (allows_fallback bodies models body pool)
        (retry_limit bodies models t.runtime.max_retries (candidate_count pool)) fuel ask t
