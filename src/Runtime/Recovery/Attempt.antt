-- ===== src/Runtime/Recovery/Attempt.antt =====
-- One attempt of Runtime/Recovery/Steps leaves fewer attempts, or refuses for the day.
use daiki_aipass_backend.Prelude.{
  false_ne_true, ℕ, ◌≡◌, refl, sym, ◌∙◌, String, Bool, true, false, not, ◌&&◌, ◌||◌, leb,
  if◌then◌else◌, if_cases, if_both, Result, err, ok, arith,
}
use daiki_aipass_backend.Runtime.Admission.{should_spill_model_admission}
use daiki_aipass_backend.Runtime.Failure.{model_can_fallback}
use daiki_aipass_backend.Runtime.Recovery.{
  Bodies, Models, Answers, Turn, Step, again, done, set_body, set_failure, next_attempt,
  apply_fallback_model, can_fall_back, daily_limited, failed,
}
use daiki_aipass_backend.Runtime.Recovery.Steps.{
  after_reply, after_admission, spills, admitted_or_wait, admit_attempt, attempt_once,
}
use daiki_aipass_backend.Runtime.Recovery.Bounded.{
  NotRefused, Moves, fall_back-Moves, after_reply-Moves,
}

all_four : (a b c d e : Bool) → (a && (b && c) && d && e) ≡ true → b ≡ true
all_four a b c d e h = ground arith

module _ (bodies : Bodies) (models : Models) (profile : String) (allowed : Bool) (limit : ℕ) where
  abbrev T : Type 0
  T = Turn bodies models

  abbrev S : Type 0
  S = Step bodies models

  abbrev M : Type 0 → T → S → Type 0
  M = Moves bodies models profile allowed limit

  after_admission-Moves :
      (ans : Answers) (t : T)
      → M (NotRefused ans.daily) t (after_admission bodies models profile allowed limit ans t)
  unfolding after_admission
  after_admission-Moves ans t = daily_cases ans.daily
    where
      request_cases :
          (fair : Type 0) (r : Result (Unit {0}))
          → M fair t (elim r [
            | err message ↦ done (failed message) t
            | ok request ↦ after_reply bodies models profile allowed limit ans ans.reply t
          ])
      request_cases fair (err message) = λ none_allowed. refl
      request_cases fair (ok request) =
          after_reply-Moves bodies models profile allowed limit fair ans ans.reply t

      daily_cases :
          (r : Result Bool)
          → M (NotRefused r) t (elim r [
            | err message ↦ done (failed message) t
            | ok admitted ↦
                if admitted
                then (elim ans.request [
                  | err message ↦ done (failed message) t
                  | ok request ↦ after_reply bodies models profile allowed limit ans ans.reply t
                ])
                else if can_fall_back bodies models allowed t
                then next_attempt bodies models (
                    apply_fallback_model bodies models profile
                      (set_failure bodies models t "provider_daily_limit"))
                else done daily_limited (set_failure bodies models t "provider_daily_limit")
          ])
      daily_cases (err message) = λ none_allowed. refl
      daily_cases (ok true) = request_cases (NotRefused (ok true)) ans.request
      daily_cases (ok false) =
          if_cases (M (NotRefused (ok false)) t) (can_fall_back bodies models allowed t)
            {b = done daily_limited (set_failure bodies models t "provider_daily_limit")}
            (λ e.
              fall_back-Moves bodies models profile allowed limit (NotRefused (ok false)) t
                (set_failure bodies models t "provider_daily_limit") e
                (λ q. absurd (false_ne_true q)) refl refl)
            λ e none_allowed. refl

  -- What holds from a turn that differs only in its model, if that needs a fallback.
  from_fallback :
      (fair : Type 0) (t u : T) (s : S)
      → t.attempt ≡ u.attempt
      → t.text_only_tried ≡ u.text_only_tried
      → allowed ≡ true
      → M fair u s
      → M fair t s
  from_fallback fair t u (again v) e f permitted (h, k) =
      (λ q. rw (e, f) (h q), λ none_allowed. absurd (false_ne_true (sym none_allowed ∙ permitted)))
  from_fallback fair t u (done end v) e f permitted h =
      λ none_allowed. absurd (false_ne_true (sym none_allowed ∙ permitted))

  admitted_or_wait-Moves :
      (ans : Answers) (admitted : Bool) (t : T)
      → M
          (NotRefused ans.daily)
          t
          (admitted_or_wait bodies models profile allowed limit ans admitted t)
  admitted_or_wait-Moves ans admitted t =
      if_both (M (NotRefused ans.daily) t) admitted (after_admission-Moves ans t)
        (waiting_cases ans.waiting)
    where
      waiting_cases :
          (r : Result (Unit {0}))
          → M (NotRefused ans.daily) t (elim r [
            | err message ↦ done (failed message) t
            | ok waited ↦ after_admission bodies models profile allowed limit ans t
          ])
      waiting_cases (err message) = λ none_allowed. refl
      waiting_cases (ok waited) = after_admission-Moves ans t

  spills-allowed :
      (ans : Answers) (admitted : Bool) (wait : ℕ) (t : T)
      → spills bodies models profile allowed limit ans admitted wait t ≡ true
      → allowed ≡ true
  spills-allowed ans admitted wait t h =
      all_four (not admitted) allowed (model_can_fallback t.runtime t.current t.strategy)
        (leb 2_000_000_000 wait)
        (ans.fallback_admission.0 || should_spill_model_admission wait ans.fallback_admission.1) h

  admit_attempt-Moves :
      (ans : Answers) (t : T)
      → M (NotRefused ans.daily) t (admit_attempt bodies models profile allowed limit ans t)
  unfolding admit_attempt apply_fallback_model
  admit_attempt-Moves ans t = admission_cases ans.admission
    where
      admission_cases :
          (r : Result (Bool × ℕ))
          → M (NotRefused ans.daily) t (elim r [
            | err message ↦ done (failed message) t
            | ok (admitted, wait) ↦
                if spills bodies models profile allowed limit ans admitted wait t
                then admitted_or_wait bodies models profile allowed limit ans
                    ans.fallback_admission.0
                    (apply_fallback_model bodies models profile t)
                else admitted_or_wait bodies models profile allowed limit ans admitted t
          ])
      admission_cases (err message) = λ none_allowed. refl
      admission_cases (ok (admitted, wait)) =
          let u = apply_fallback_model bodies models profile t in
          let spilled = ans.fallback_admission.0 in
          if_cases (M (NotRefused ans.daily) t)
            (spills bodies models profile allowed limit ans admitted wait t)
            (λ e.
              from_fallback (NotRefused ans.daily) t u
                (admitted_or_wait bodies models profile allowed limit ans spilled u) refl refl
                (spills-allowed ans admitted wait t e) (admitted_or_wait-Moves ans spilled u))
            λ e. admitted_or_wait-Moves ans admitted t

  -- A step leaves fewer attempts, if the daily admission is not refused, and keeps the model of a
  -- request that may not fall back.
  pub attempt_once-Moves :
      (ans : Answers) (t : T)
      → M (NotRefused ans.daily) t (attempt_once bodies models profile allowed limit ans t)
  unfolding attempt_once
  attempt_once-Moves ans t = reasoning_cases (bodies.reasoning t.body t.current)
    where
      same_left :
          (s : S) (body : bodies.Body)
          → M (NotRefused ans.daily) (set_body bodies models t body) s
          → M (NotRefused ans.daily) t s
      same_left (again v) body h = h
      same_left (done end v) body h = h

      reasoning_cases :
          (r : Result (bodies.Body))
          → M (NotRefused ans.daily) t (elim r [
            | err message ↦ done (failed message) t
            | ok body ↦
                admit_attempt bodies models profile allowed limit ans
                  (set_body bodies models t body)
          ])
      reasoning_cases (err message) = λ none_allowed. refl
      reasoning_cases (ok body) =
          same_left
            (admit_attempt bodies models profile allowed limit ans (set_body bodies models t body))
            body (admit_attempt-Moves ans (set_body bodies models t body))
