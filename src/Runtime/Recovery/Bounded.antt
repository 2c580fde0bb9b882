-- ===== src/Runtime/Recovery/Bounded.antt =====
-- The loop of Runtime/Recovery/Steps ends while daily admissions are not refused, and a request that
-- may not fall back keeps its model.
use daiki_aipass_backend.Prelude.{
  false_ne_true, ℕ, suc, ◌+◌, ◌-◌, ◌<◌, ◌≡◌, refl, sym, ◌∙◌, String, Bool, true, false, not, ◌&&◌,
  ◌==◌, if◌then◌else◌, if_cases, if_both, Result, err, ok, arith,
}
use daiki_aipass_backend.Prelude.Int.{is_pos}
use daiki_aipass_backend.Runtime.Failure.{
  recoverable_provider_status, failure_kind_for_status, model_can_fallback,
}
use daiki_aipass_backend.Runtime.Recovery.{
  Bodies, Models, ErrorBody, Reply, no_response, unreadable, replied, Answers, Turn, Step, again,
  done, set_body, set_failure, next_attempt, try_text_only, apply_fallback_model, can_fall_back,
  responded, failed,
}
use daiki_aipass_backend.Runtime.Recovery.Steps.{
  has_retries, after_shrinking, shrunk, after_failure, is_incompatible, after_bad_request,
  after_status, after_reply, may_fall_back, may_try_text_only,
}

-- A daily admission that is not refused.
abbrev pub NotRefused : Result Bool → Type 0
NotRefused (err message) = Unit
NotRefused (ok admitted) = admitted ≡ true

fewer_left : (max a tried : ℕ) → a < max → max - suc a + tried < max - a + tried
fewer_left max a tried h = omega (arith, h)

and_left : (a b : Bool) → (a && b) ≡ true → a ≡ true
and_left a b h = ground arith

and_right : (a b : Bool) → (a && b) ≡ true → b ≡ true
and_right a b h = ground arith

second : (a b c : Bool) → (a && b && c) ≡ true → b ≡ true
second a b c h = ground arith

third : (a b c : Bool) → (a && b && c) ≡ true → c ≡ true
third a b c h = ground arith

not-not : (a : Bool) → not a ≡ false → a ≡ true
not-not a h = ground arith

untried : (a b : Bool) → (a && not b) ≡ true → b ≡ false
untried a b h = ground arith

module _ (bodies : Bodies) (models : Models) (profile : String) (allowed : Bool) (limit : ℕ) where
  abbrev T : Type 0
  T = Turn bodies models

  abbrev S : Type 0
  S = Step bodies models

  -- The attempts that are left, counting the one without tools.
  abbrev pub left_for : T → ℕ
  left_for t = limit - t.attempt + (if t.text_only_tried then 0 else 1)

  -- After a step from `t`: a next attempt has fewer left, and without fallbacks the model is the same.
  abbrev pub Moves : Type 0 → T → S → Type 0
  Moves fair t (again u) =
      (fair → left_for u < left_for t) × (allowed ≡ false → u.current ≡ t.current)
  Moves fair t (done e u) = allowed ≡ false → u.current ≡ t.current

  has_retries-less :
      (t : T) → has_retries bodies models profile allowed limit t ≡ true → t.attempt < limit
  has_retries-less t h = ground arith

  pub fall_back-Moves :
      (fair : Type 0) (t u : T)
      → can_fall_back bodies models allowed u ≡ true
      → (fair → t.attempt < limit)
      → t.attempt ≡ u.attempt
      → t.text_only_tried ≡ u.text_only_tried
      → Moves fair t (next_attempt bodies models (apply_fallback_model bodies models profile u))
  unfolding apply_fallback_model
  fall_back-Moves fair t u h k e f = (
    λ q. rw (sym e, sym f) (fewer_left limit t.attempt (if t.text_only_tried then 0 else 1) (k q)),
    λ none_allowed. absurd (
        false_ne_true (
          sym none_allowed
          ∙ and_left allowed (model_can_fallback u.runtime u.current u.strategy) h)),
  )

  -- Two turns with the same model, attempt and flag.
  abbrev Same : T → T → Type 0
  Same t u =
      (t.attempt ≡ u.attempt) × (t.text_only_tried ≡ u.text_only_tried) × (u.current ≡ t.current)

  next-Moves :
      (fair : Type 0) (t u : T)
      → Same t u
      → t.attempt < limit
      → Moves fair t (next_attempt bodies models u)
  next-Moves fair t u (e, f, g) k = (
    λ q. rw (sym e, sym f) (fewer_left limit t.attempt (if t.text_only_tried then 0 else 1) k),
    λ none_allowed. g,
  )

  text_only_left :
      (a : ℕ) (tried : Bool)
      → tried ≡ false
      → limit - suc a + 0 < limit - a + (if tried then 0 else 1)
  text_only_left a tried h = ground arith

  text_only-Moves :
      (fair : Type 0) (t : T)
      → t.text_only_tried ≡ false
      → Moves fair t (next_attempt bodies models (try_text_only bodies models t))
  text_only-Moves fair t h =
      (λ q. text_only_left t.attempt t.text_only_tried h, λ none_allowed. refl)

  after_shrinking-Moves :
      (fair : Type 0) (ans : Answers) (status : ℕ) (t u : T) (recovered : Bool)
      → Same t u
      → t.attempt < limit
      → Moves fair t (after_shrinking bodies models profile allowed limit ans status u recovered)
  unfolding after_shrinking
  after_shrinking-Moves fair ans status t u recovered same k =
      let next = next-Moves fair t u same k in
      if_cases (Moves fair t) (not recovered && can_fall_back bodies models allowed u)
        (λ e.
          fall_back-Moves fair t u
            (and_right (not recovered) (can_fall_back bodies models allowed u) e) (λ q. k) same.0
            same.1)
        λ e. if_both (Moves fair t) recovered next (
          if_both (Moves fair t) (not (is_pos u.runtime.retry_backoff_ms))
            {a = done (responded status) u} (λ none_allowed. same.2)
            (backoff_cases ans.backoff next))
    where
      backoff_cases :
          (r : Result (Unit {0}))
          → Moves fair t (next_attempt bodies models u)
          → Moves fair t (elim r [
            | err message ↦ done (failed message) u
            | ok waited ↦ next_attempt bodies models u
          ])
      backoff_cases (err message) n = λ none_allowed. same.2
      backoff_cases (ok waited) n = n

  after_failure-Moves :
      (fair : Type 0) (ans : Answers) (e : ErrorBody) (status : ℕ) (t : T)
      → Moves fair t (after_failure bodies models profile allowed limit ans e status t)
  unfolding after_failure
  after_failure-Moves fair ans e status t =
      let noted = set_failure bodies models t (failure_kind_for_status status) in
      let smaller = shrunk bodies models profile allowed limit e status noted in
      if_cases (Moves fair t) (not (has_retries bodies models profile allowed limit t))
        {a = done (responded status) noted}
        {b = after_shrinking bodies models profile allowed limit ans status
          (set_body bodies models noted smaller.0) smaller.1}
        (λ h none_allowed. refl)
        λ h.
          after_shrinking-Moves fair ans status t (set_body bodies models noted smaller.0) smaller.1
            (refl, refl, refl)
            (has_retries-less t (not-not (has_retries bodies models profile allowed limit t) h))

  after_bad_request-Moves :
      (fair : Type 0) (e : ErrorBody) (t : T)
      → Moves fair t (after_bad_request bodies models profile allowed limit e t)
  unfolding after_bad_request
  after_bad_request-Moves fair e t =
      let incompatible = is_incompatible bodies models profile allowed limit e in
      let retries = has_retries bodies models profile allowed limit t in
      let fallback = may_fall_back bodies models profile allowed limit t in
      let noted = set_failure bodies models t "provider_tool_compatibility" in
      if_cases (Moves fair t) (incompatible && retries && fallback)
        (λ h.
          fall_back-Moves fair t noted (third incompatible retries fallback h)
            (λ q. has_retries-less t (second incompatible retries fallback h)) refl refl)
        λ h.
          if_cases (Moves fair t) (may_try_text_only bodies models profile allowed limit e t)
            {b = done (responded 400) (if incompatible then noted else t)}
            (λ k. text_only-Moves fair t (untried e.blocked_tool_call t.text_only_tried k))
            λ k none_allowed.
              if_both (λ (u : T). u.current ≡ t.current) incompatible {a = noted} {b = t} refl refl

  after_status-Moves :
      (fair : Type 0) (ans : Answers) (e : ErrorBody) (status : ℕ) (t : T)
      → Moves fair t (after_status bodies models profile allowed limit ans e status t)
  unfolding after_status
  after_status-Moves fair ans e status t =
      if_both (Moves fair t) (status == 400) (after_bad_request-Moves fair e t) (
        if_both (Moves fair t) (not (recoverable_provider_status status))
          {a = done (responded status) t} (λ none_allowed. refl)
          (if_cases (Moves fair t) (may_try_text_only bodies models profile allowed limit e t)
            (λ k. text_only-Moves fair t (untried e.blocked_tool_call t.text_only_tried k))
            λ k. after_failure-Moves fair ans e status t))

  pub after_reply-Moves :
      (fair : Type 0) (ans : Answers) (r : Reply) (t : T)
      → Moves fair t (after_reply bodies models profile allowed limit ans r t)
  unfolding after_reply
  after_reply-Moves fair ans no_response t =
      let noted = set_failure bodies models t "hermes_transport" in
      let retries = has_retries bodies models profile allowed limit t in
      let fallback = may_fall_back bodies models profile allowed limit t in
      if_cases (Moves fair t) (retries && fallback) {b = done (failed "no response") noted}
        (λ h.
          fall_back-Moves fair t noted (and_right retries fallback h)
            (λ q. has_retries-less t (and_left retries fallback h)) refl refl)
        λ h none_allowed. refl
  after_reply-Moves fair ans unreadable t = λ none_allowed. refl
  after_reply-Moves fair ans (replied status e) t = after_status-Moves fair ans e status t
