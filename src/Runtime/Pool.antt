-- ===== src/Runtime/Pool.antt =====
-- cmd/api/model_pool.go: the pool of free models, their health and their daily pace, and the choice of
-- one of them. What Redis, the store and the clock answer during a choice is the record View.
pub mod Pace
pub mod Score
pub mod Choice
use daiki_aipass_backend.Prelude.{
  ℕ, zero, suc, ◌+◌, ◌*◌, ◌/◌, ◌%◌, String, Option, some, none, Bool, true, false, not, ◌&&◌, ◌||◌,
  str_eq, ltb, leb, ◌==◌, if◌then◌else◌, to_lower, trim_space, List, [], ◌∷◌, ◌++◌, length,
}
use daiki_aipass_backend.Prelude.Int.{
  ℤ, pos, sub_ℕ, pos_part, neg_part, is_pos, ltb_ℤ, leb_ℤ, eqb_ℤ, max_ℤ, min_ℤ, ◌+ℤ◌, ◌-ℤ◌, two_64,
}
use daiki_aipass_backend.Runtime.Budget.{ProviderModel, model_daily_admission_capacity}

-- normalizePoolRoute
unfoldable pub normalize_pool_route : String → String
unfolding to_lower trim_space
normalize_pool_route route =
    let r = to_lower (trim_space route) in
    if str_eq r "fast" || str_eq r "balanced" || str_eq r "deep" || str_eq r "vision" then r else ""

-- modelPoolHealth
pub record Health : Type 0 where
  pub successes : ℤ
  pub failures : ℤ
  pub latency_ms : ℤ
  pub observed_rpd_limit : ℤ

abbrev no_health : Health
no_health = record {
  successes = pos 0;
  failures = pos 0;
  latency_ms = pos 0;
  observed_rpd_limit = pos 0;
}

-- What Redis answers: a command that fails, or a Redis that is not configured, answers `none`.
pub record View : Type 0 where
  -- EXISTS of the model's circuit.
  pub circuit_open : String → Bool
  -- HGETALL of the model's health, each field read by ParseInt, which is 0 on an error.
  pub health_fields : String → Option (String → ℤ)
  -- GET of the model's requests of the day.
  pub daily_value : String → Option ℤ
  -- int(math.Ceil(float64(capacity) * pacificDayProgress(now)))
  pub ceil_of_progress : ℤ → ℤ
  -- INCR of the route's counter.
  pub next_counter : String → Option ℤ

-- loadModelPoolHealth
unfoldable pub load_model_pool_health : View → String → Health
load_model_pool_health view model = elim (view.health_fields model) [
  | none ↦ no_health
  | some parse ↦ record {
    successes = parse "ok";
    failures = parse "fail";
    latency_ms = parse "latency_ms";
    observed_rpd_limit = parse "observed_rpd_limit";
  }
]

-- effectiveModelRPDLimit
unfoldable pub effective_model_rpd_limit : View → String → ℤ → ℤ
unfolding load_model_pool_health
effective_model_rpd_limit view model configured =
    let health = load_model_pool_health view model in
    if is_pos configured
    then configured
    else if is_pos health.observed_rpd_limit
    then health.observed_rpd_limit
    else pos 0

-- modelDailyPacedAllowance; `burst` is max(1, min(3, capacity/5)).
unfoldable pub model_daily_paced_allowance : (ℤ → ℤ) → ℤ → ℤ
unfolding ◌+ℤ◌
model_daily_paced_allowance ceil_of_progress limit =
    let capacity = model_daily_admission_capacity limit in
    let burst = max_ℤ (pos 1) (min_ℤ (pos 3) (pos (pos_part capacity / 5))) in
    let paced = ceil_of_progress capacity +ℤ burst in
    if not (is_pos capacity) then pos 0 else min_ℤ capacity (max_ℤ paced burst)

-- What peekModelDailyAdmission returns.
pub record Peek : Type 0 where
  pub used : ℤ
  pub capacity : ℤ
  pub allowance : ℤ

abbrev used_of : Option ℤ → ℤ
used_of (some value) = if is_pos value then value else pos 0
used_of none = pos 0

-- peekModelDailyAdmission
unfoldable pub peek_model_daily_admission : View → String → ProviderModel → Peek
unfolding effective_model_rpd_limit model_daily_paced_allowance
peek_model_daily_admission view model m =
    let limit = effective_model_rpd_limit view model m.rpd_limit in
    if not (is_pos limit)
    then record { used = pos 0; capacity = pos 0; allowance = pos 0 }
    else record {
      used = used_of (view.daily_value model);
      capacity = model_daily_admission_capacity limit;
      allowance = model_daily_paced_allowance view.ceil_of_progress limit;
    }

-- The limit that observeModelRPDLimit stores of a model, if it stores one.
unfoldable pub observe_model_rpd_limit : String → ℤ → Option ℤ
unfolding trim_space
observe_model_rpd_limit model limit =
    if str_eq (trim_space model) "" || not (is_pos limit) then none else some limit

-- The counters of a model's health that recordModelPoolHealth raises, and by how much, for a request
-- that took `elapsed` nanoseconds.
unfoldable pub record_model_pool_health : String → ℤ → ℤ → List (String × ℤ)
unfolding trim_space
record_model_pool_health model status elapsed =
    if str_eq (trim_space model) ""
    then []
    else (if is_pos status && ltb_ℤ status (pos 400) then "ok" else "fail", pos 1)
      ∷ (if is_pos elapsed then ("latency_ms", pos (pos_part elapsed / 1_000_000)) ∷ [] else [])

-- modelPoolAdminStatus
pub record AdminStatus : Type 0 where
  pub state : String
  pub is_open : Bool
  pub daily : Peek
  pub successes : ℤ
  pub failures : ℤ
  pub avg_latency_ms : ℤ

-- Go's division of an integer by a positive number.
abbrev quotient : ℤ → ℤ → ℤ
quotient a b = sub_ℕ (pos_part a / pos_part b) (neg_part a / pos_part b)

abbrev pub state_of : Bool → Peek → String
state_of is_open daily =
    if is_open
    then "cooldown"
    else if is_pos daily.capacity && leb_ℤ daily.capacity daily.used
    then "daily-full"
    else if is_pos daily.allowance && leb_ℤ daily.allowance daily.used
    then "paced"
    else "ready"

-- modelPoolStatus
unfoldable pub model_pool_status : View → ProviderModel → AdminStatus
unfolding peek_model_daily_admission load_model_pool_health ◌+ℤ◌
model_pool_status view m =
    let name = m.litellm_model_name in
    let daily = peek_model_daily_admission view name m in
    let health = load_model_pool_health view name in
    let total = health.successes +ℤ health.failures in
    record {
      state = state_of (view.circuit_open name) daily;
      is_open = view.circuit_open name;
      daily = daily;
      successes = health.successes;
      failures = health.failures;
      avg_latency_ms = if is_pos total then quotient health.latency_ms total else pos 0;
    }
