-- ===== src/Runtime/Recovery/Endless.antt =====
-- The daily admission is not counted among the retries of Runtime/Recovery/Steps: what becomes of a
-- request to two models that are each other's fallback and are both used up for the day.
use daiki_aipass_backend.Prelude.{
  ℕ, zero, suc, ◌≡◌, refl, sym, subst, String, none, true, false, ok,
}
use daiki_aipass_backend.Runtime.Failure.{model_can_fallback}
use daiki_aipass_backend.Runtime.Recovery.{
  Bodies, Models, Answers, or_adaptive, Turn, set_body, set_failure, next_attempt,
  apply_fallback_model,
}
use daiki_aipass_backend.Runtime.Recovery.Steps.{
  after_admission, admit_attempt, attempt_once, recover,
}

module _ (bodies : Bodies) (models : Models) (profile : String) (limit : ℕ) where
  open bodies use {Body, reasoning}
  open models use {Pool, runtime_model, prepare}

  abbrev T : Type 0
  T = Turn bodies models

  -- The model `name` may fall back, and its fallback is `other`.
  abbrev pub FallsBackTo : String → String → Type 0
  FallsBackTo name other =
      (p : Pool)
      → ((prepare p name (runtime_model name)).1.fallback_model_name ≡ other)
        × (model_can_fallback (prepare p name (runtime_model name)).1 name
              (or_adaptive (prepare p name (runtime_model name)).1.context_strategy)
            ≡ true)

  -- The token bucket lets the attempt through, and the day is used up.
  abbrev pub IsUsedUp : Answers → Type 0
  IsUsedUp ans = (ans.admission ≡ ok (true, 0)) × (ans.daily ≡ ok false)

  attempt_once-refused :
      (ans : Answers) (t : T) (later : Body)
      → IsUsedUp ans
      → reasoning t.body t.current ≡ ok later
      → model_can_fallback t.runtime t.current t.strategy ≡ true
      → attempt_once bodies models profile true limit ans t
        ≡ next_attempt bodies models (
            apply_fallback_model bodies models profile
              (set_failure bodies models (set_body bodies models t later) "provider_daily_limit"))
  unfolding attempt_once admit_attempt after_admission
  attempt_once-refused ans t later (a, d) r h = rw (attempt_once, r, a, d, h) refl

  -- The reasoning fields of every body can be rewritten for every model, to whatever body.
  abbrev pub IsRewritable : Type 0
  IsRewritable = (body : Body) (name : String) → (later : Body) × (reasoning body name ≡ ok later)

  -- If the day is used up in every attempt, the token bucket lets every attempt through, the reasoning
  -- fields of every body can be rewritten for every model, and two models are each other's fallback,
  -- then a request that may fall back to one of them does not end within any number of attempts,
  -- whatever its limit on retries.
  pub recover-endless :
      (ask : ℕ → Answers)
      → ((n : ℕ) → IsUsedUp (ask n))
      → IsRewritable
      → (a b : String) → FallsBackTo a b
      → FallsBackTo b a
      → (fuel : ℕ) (t : T) → t.runtime.fallback_model_name ≡ a
      → model_can_fallback t.runtime t.current t.strategy ≡ true
      → recover bodies models profile true limit fuel ask t ≡ none
  unfolding recover apply_fallback_model
  recover-endless ask h r a b to_b to_a zero t e k = refl
  recover-endless ask h r a b to_b to_a (suc fuel) t e k =
      let (later, rewritten) = r t.body t.current in
      let noted =
        set_failure bodies models (set_body bodies models t later) "provider_daily_limit" in
      let moved = apply_fallback_model bodies models profile noted in
      let swapped : FallsBackTo t.runtime.fallback_model_name b =
        subst (λ n. FallsBackTo n b) (sym e) to_b in
      rw (recover, attempt_once-refused (ask t.attempt) t later (h t.attempt) rewritten k)
        (recover-endless ask h r b a to_a to_b fuel
          (record {
            body = moved.body;
            current = t.runtime.fallback_model_name;
            runtime = moved.runtime;
            overhead = moved.overhead;
            strategy = moved.strategy;
            attempt = suc t.attempt;
            text_only_tried = t.text_only_tried;
            failure = "provider_daily_limit";
            pool = moved.pool;
          })
          (swapped t.pool).0 (swapped t.pool).1)
