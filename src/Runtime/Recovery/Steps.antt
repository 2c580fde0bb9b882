-- ===== src/Runtime/Recovery/Steps.antt =====
-- One attempt of doModelRequestWithRecovery of cmd/api/model_runtime.go, its loop and its start. Every
-- stage is a function of what the stages before it left.
use daiki_aipass_backend.Prelude.{
  ℕ, zero, suc, ◌-◌, min, String, Option, some, none, Bool, false, not, ◌&&◌, ◌||◌, str_eq, ltb,
  leb, ◌==◌, if◌then◌else◌, err, ok,
}
use daiki_aipass_backend.Prelude.Int.{ℤ, pos_part, is_pos}
use daiki_aipass_backend.Runtime.Admission.{should_spill_model_admission}
use daiki_aipass_backend.Runtime.Failure.{
  recoverable_provider_status, failure_kind_for_status, profile_requires_provider_tools,
  model_can_fallback,
}
use daiki_aipass_backend.Runtime.Recovery.{
  Bodies, Models, ErrorBody, Reply, no_response, unreadable, replied, Answers, Turn, Ending, failed,
  responded, daily_limited, Step, again, done, set_body, set_failure, next_attempt, try_text_only,
  apply_fallback_model, can_fall_back, shrink_output, shrink_input,
}

module _ (bodies : Bodies) (models : Models) where
  open bodies use {Body, payload_of, has_image, output_cap, trim, reasoning}
  open models use {Pool, runtime_model, prepare, is_vision, candidate_count}

  abbrev T : Type 0
  T = Turn bodies models

  abbrev S : Type 0
  S = Step bodies models

  abbrev stop_with : Ending bodies models → T → S
  stop_with e t = done e t

  abbrev fails : String → T → S
  fails message t = stop_with (failed message) t

  -- What is fixed before the loop.
  module _ (profile : String) (allowed : Bool) (max_retries : ℕ) where
    abbrev fall_back : T → S
    fall_back t = next_attempt bodies models (apply_fallback_model bodies models profile t)

    abbrev pub may_fall_back : T → Bool
    may_fall_back t = can_fall_back bodies models allowed t

    -- `attempt < maxRetries && strategy != "reject"`
    abbrev pub has_retries : T → Bool
    has_retries t = ltb t.attempt max_retries && not (str_eq t.strategy "reject")

    abbrev pub may_try_text_only : ErrorBody → T → Bool
    may_try_text_only e t = e.blocked_tool_call && not t.text_only_tried

    abbrev text_only_again : T → S
    text_only_again t = next_attempt bodies models (try_text_only bodies models t)

    -- The last lines of the loop; `recovered` is whether the body was made smaller.
    unfoldable pub after_shrinking : Answers → ℕ → T → Bool → S
    unfolding apply_fallback_model model_can_fallback
    after_shrinking ans status t recovered =
        if not recovered && may_fall_back t
        then fall_back t
        else if recovered
        then next_attempt bodies models t
        else if not (is_pos t.runtime.retry_backoff_ms)
        then stop_with (responded status) t
        else elim ans.backoff [
          | err message ↦ fails message t
          | ok waited ↦ next_attempt bodies models t
        ]

    abbrev pub shrunk : ErrorBody → ℕ → T → Body × Bool
    shrunk e status t =
        let output = shrink_output bodies models e t in
        let input = shrink_input bodies models e (set_body bodies models t output.0) in
        if not (status == 429) then (t.body, false) else if output.1 then output else input

    -- A failure that may be recovered from.
    unfoldable pub after_failure : Answers → ErrorBody → ℕ → T → S
    unfolding after_shrinking shrink_output shrink_input failure_kind_for_status
    after_failure ans e status t =
        let noted = set_failure bodies models t (failure_kind_for_status status) in
        let smaller = shrunk e status noted in
        if not (has_retries t)
        then stop_with (responded status) noted
        else after_shrinking ans status (set_body bodies models noted smaller.0) smaller.1

    abbrev pub is_incompatible : ErrorBody → Bool
    is_incompatible e = profile_requires_provider_tools profile && e.refuses_tools

    -- A status 400.
    unfoldable pub after_bad_request : ErrorBody → T → S
    unfolding profile_requires_provider_tools apply_fallback_model model_can_fallback
    after_bad_request e t =
        let noted =
          if is_incompatible e
          then set_failure bodies models t "provider_tool_compatibility"
          else t in
        if is_incompatible e && has_retries t && may_fall_back t
        then fall_back (set_failure bodies models t "provider_tool_compatibility")
        else if may_try_text_only e t
        then text_only_again t
        else stop_with (responded 400) noted

    unfoldable pub after_status : Answers → ErrorBody → ℕ → T → S
    unfolding after_failure after_bad_request recoverable_provider_status
    after_status ans e status t =
        if status == 400
        then after_bad_request e t
        else if not (recoverable_provider_status status)
        then stop_with (responded status) t
        else if may_try_text_only e t
        then text_only_again t
        else after_failure ans e status t

    unfoldable pub after_reply : Answers → Reply → T → S
    unfolding after_status apply_fallback_model model_can_fallback
    after_reply ans no_response t =
        let noted = set_failure bodies models t "hermes_transport" in
        if has_retries t && may_fall_back t then fall_back noted else fails "no response" noted
    after_reply ans unreadable t = fails "unreadable response" t
    after_reply ans (replied status e) t = after_status ans e status t

    -- The daily admission; a refused request moves to the fallback whatever the number of attempts.
    unfoldable pub after_admission : Answers → T → S
    unfolding after_reply apply_fallback_model model_can_fallback
    after_admission ans t =
        let noted = set_failure bodies models t "provider_daily_limit" in
        elim ans.daily [
          | err message ↦ fails message t
          | ok admitted ↦
              if admitted
              then (elim ans.request [
                | err message ↦ fails message t
                | ok request ↦ after_reply ans ans.reply t
              ])
              else if may_fall_back t
              then fall_back noted
              else stop_with daily_limited noted
        ]

    abbrev pub spills : Answers → Bool → ℕ → T → Bool
    spills ans admitted wait t =
        not admitted
        && may_fall_back t
        && leb 2_000_000_000 wait
        && (ans.fallback_admission.0 || should_spill_model_admission wait ans.fallback_admission.1)

    abbrev pub admitted_or_wait : Answers → Bool → T → S
    admitted_or_wait ans admitted t =
        let go_on = after_admission ans t in
        if admitted
        then go_on
        else elim ans.waiting [ err message ↦ fails message t | ok waited ↦ go_on ]

    unfoldable pub admit_attempt : Answers → T → S
    unfolding after_admission apply_fallback_model model_can_fallback should_spill_model_admission
    admit_attempt ans t = elim ans.admission [
      | err message ↦ fails message t
      | ok (admitted, wait) ↦
          if spills ans admitted wait t
          then admitted_or_wait ans ans.fallback_admission.0
              (apply_fallback_model bodies models profile t)
          else admitted_or_wait ans admitted t
    ]

    -- One turn of the loop.
    unfoldable pub attempt_once : Answers → T → S
    unfolding admit_attempt
    attempt_once ans t = elim (reasoning t.body t.current) [
      | err message ↦ fails message t
      | ok body ↦ admit_attempt ans (set_body bodies models t body)
    ]

    -- The loop; `none` is that fuel ran out.
    unfoldable pub recover : ℕ → (ℕ → Answers) → T → Option (Ending bodies models × T)
    unfolding attempt_once
    recover zero ask t = none
    recover (suc fuel) ask t = elim (attempt_once (ask t.attempt) t) [
      | again u ↦ recover fuel ask u
      | done e u ↦ some (e, u)
    ]

  -- The limit on retries.
  unfoldable pub retry_limit : ℤ → ℕ → ℕ
  retry_limit configured candidates =
      let own = pos_part configured in
      let pool = min 4 (candidates - 1) in
      min 4 (if ltb 1 candidates && ltb own pool then pool else own)

  unfoldable pub allows_fallback : Body → Pool → Bool
  allows_fallback body pool = not (has_image body) || is_vision pool
