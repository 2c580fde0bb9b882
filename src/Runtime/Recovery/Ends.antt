-- ===== src/Runtime/Recovery/Ends.antt =====
-- A request whose daily admissions are not refused ends within six attempts (Runtime/Recovery/Start).
use daiki_aipass_backend.Prelude.{
  false_ne_true, ℕ, zero, suc, ◌+◌, ◌-◌, ◌≤◌, ◌<◌, ◌≡◌, ◌⊎◌, refl, sym, ◌∙◌, subst, String, Option,
  some, none, Bool, true, false, ◌&&◌, if◌then◌else◌, if_cases, inl, inr, arith,
}
use daiki_aipass_backend.Prelude.Int.{ℤ}
use daiki_aipass_backend.Runtime.Budget.{should_preflight_fallback}
use daiki_aipass_backend.Runtime.Failure.{model_can_fallback}
use daiki_aipass_backend.Runtime.Recovery.{
  Bodies, Models, Answers, Turn, Ending, Step, again, done, apply_fallback_model,
}
use daiki_aipass_backend.Runtime.Recovery.Steps.{
  attempt_once, recover, retry_limit, allows_fallback,
}
use daiki_aipass_backend.Runtime.Recovery.Start.{
  fit_body, preflight, first_turn, turn_for, do_model_request_with_recovery,
}
use daiki_aipass_backend.Runtime.Recovery.Bounded.{NotRefused, left_for, Moves}
use daiki_aipass_backend.Runtime.Recovery.Attempt.{attempt_once-Moves}

retry_limit-bounds :
    (bodies : Bodies) (models : Models) (configured : ℤ) (candidates : ℕ)
    → retry_limit bodies models configured candidates ≤ 4
unfolding retry_limit
retry_limit-bounds bodies models configured candidates = omega arith

six_enough :
    (limit a : ℕ) (tried : Bool)
    → limit ≤ 4
    → a ≡ 0
    → tried ≡ false
    → limit - a + (if tried then 0 else 1) < 6
six_enough limit a tried h k l = ground arith

below_fuel : {a b c : ℕ} → a < b → b < suc c → a < c
below_fuel h k = omega (arith, h, k)

module _ (bodies : Bodies) (models : Models) (profile : String) where
  abbrev T : Type 0
  T = Turn bodies models

  Step-cases :
      (s : Step bodies models)
      → ((u : T) × (s ≡ again u)) ⊎ ((e : Ending bodies models) × (u : T) × (s ≡ done e u))
  Step-cases (again u) = inl (u, refl)
  Step-cases (done e u) = inr (e, u, refl)

  module _ (allowed : Bool) where
    -- The loop came to an end, and a request that may not fall back kept its model.
    abbrev pub Ended : String → Option (Ending bodies models × T) → Type 0
    Ended name none = ⊥
    Ended name (some (e, u)) = allowed ≡ false → u.current ≡ name

    Ended-same :
        (a b : String) (r : Option (Ending bodies models × T))
        → (allowed ≡ false → b ≡ a)
        → Ended b r
        → Ended a r
    Ended-same a b none h e = e
    Ended-same a b (some (end, u)) h e = λ none_allowed. e none_allowed ∙ h none_allowed

    recover-Ended :
        (limit fuel : ℕ) (ask : ℕ → Answers) (t : T)
        → ((n : ℕ) → NotRefused (ask n).daily)
        → left_for bodies models profile allowed limit t < fuel
        → Ended t.current (recover bodies models profile allowed limit fuel ask t)
    unfolding recover
    recover-Ended limit zero ask t h k = absurd (omega (arith, k))
    recover-Ended limit (suc fuel) ask t h k =
        let s = attempt_once bodies models profile allowed limit (ask t.attempt) t in
        let moves = attempt_once-Moves bodies models profile allowed limit (ask t.attempt) t in
        elim (Step-cases s) [
          | inl (u, e) ↦
              let moved =
                subst
                  (Moves bodies models profile allowed limit (NotRefused (ask t.attempt).daily) t) e
                  moves in
              rw (recover, e)
                (Ended-same t.current u.current
                  (recover bodies models profile allowed limit fuel ask u) moved.1
                  (recover-Ended limit fuel ask u h (below_fuel (moved.0 (h t.attempt)) k)))
          | inr (end, u, e) ↦
              rw (recover, e)
                (subst
                  (Moves bodies models profile allowed limit (NotRefused (ask t.attempt).daily) t) e
                  moves)
        ]

  -- A turn that has made no attempt, with the model of the request if it may not fall back.
  abbrev IsFresh : Bool → String → T → Type 0
  IsFresh allowed name t =
      (t.attempt ≡ 0) × (t.text_only_tried ≡ false) × (allowed ≡ false → t.current ≡ name)

  and_allowed : (a b : Bool) → (a && b) ≡ true → a ≡ true
  and_allowed a b h = ground arith

  and_allowed_twice : (a b c : Bool) → (a && b && c) ≡ true → a ≡ true
  and_allowed_twice a b c h = ground arith

  preflight-IsFresh :
      (allowed circuit_open : Bool) (name : String) (t : T)
      → IsFresh allowed name t
      → IsFresh allowed name (preflight bodies models profile allowed circuit_open t)
  unfolding preflight apply_fallback_model
  preflight-IsFresh allowed circuit_open name t (a, b, c) =
      let can = model_can_fallback t.runtime t.current t.strategy in
      let over = should_preflight_fallback t.runtime (bodies.payload_of t.body) t.overhead in
      if_cases (IsFresh allowed name) (allowed && circuit_open && can)
        (λ e. (
          a,
          b,
          λ none_allowed.
              absurd
                (false_ne_true (sym none_allowed ∙ and_allowed_twice allowed circuit_open can e)),
        ))
        λ e.
          if_cases (IsFresh allowed name) (allowed && over) {b = t}
            (λ k. (
              refl,
              refl,
              λ none_allowed.
                  absurd (false_ne_true (sym none_allowed ∙ and_allowed allowed over k)),
            ))
            λ k. (a, b, c)

  first_turn-IsFresh :
      (body : bodies.Body) (model : String) (pool : models.Pool) (circuit_open : Bool)
      → IsFresh
          (allows_fallback bodies models body pool)
          model
          (first_turn bodies models profile body model pool circuit_open)
  unfolding first_turn fit_body
  first_turn-IsFresh body model pool circuit_open =
      preflight-IsFresh (allows_fallback bodies models body pool) circuit_open model
        (turn_for bodies models profile body model pool) (refl, refl, λ none_allowed. refl)

  -- If no daily admission is refused, six attempts are enough for every request to end, whatever the
  -- providers and the limits answer; and a request with an image outside the pool of the route vision
  -- ends with the model that it asked for.
  pub do_model_request_with_recovery-Ended :
      (ask : ℕ → Answers) (body : bodies.Body) (model : String) (pool : models.Pool)
      (circuit_open : Bool)
      → ((n : ℕ) → NotRefused (ask n).daily)
      → Ended
          (allows_fallback bodies models body pool)
          model
          (do_model_request_with_recovery bodies models profile 6 ask body model pool circuit_open)
  unfolding do_model_request_with_recovery
  do_model_request_with_recovery-Ended ask body model pool circuit_open h =
      let allowed = allows_fallback bodies models body pool in
      let t = first_turn bodies models profile body model pool circuit_open in
      let limit = retry_limit bodies models t.runtime.max_retries (models.candidate_count pool) in
      let (a, b, c) = first_turn-IsFresh body model pool circuit_open in
      let r = recover bodies models profile allowed limit 6 ask t in
      Ended-same allowed model t.current r c (
        recover-Ended allowed limit 6 ask t h (
          six_enough limit t.attempt t.text_only_tried
            (retry_limit-bounds bodies models t.runtime.max_retries (models.candidate_count pool)) a
            b))
