-- ===== src/Runtime/Admission.antt =====
-- cmd/api/model_runtime.go: tryModelAdmission (the token bucket of a model), tryModelDailyAdmission and
-- markModelDailyExhausted (its requests of a day), and shouldSpillModelAdmission. Tokens of the bucket
-- are counted in sixty-thousandths, so that a refill of `limit` per minute is `limit` per millisecond;
-- Lua computes these fractions as doubles. The bucket's hash is none if it is not stored.
pub mod Rate
pub mod Daily
use daiki_aipass_backend.Prelude.{
  ℕ, zero, ◌+◌, ◌-◌, ◌*◌, ◌/◌, ◌≤◌, max, min, String, Option, none, some, Bool, true, false, not,
  ◌&&◌, ◌||◌, List, [], ◌∷◌, str_eq, ltb, leb, ◌==◌, if◌then◌else◌, trim_space,
}
use daiki_aipass_backend.Prelude.Int.{
  ℤ, pos, negsuc, is_pos, is_neg, pos_part, neg_part, leb_ℤ, neg,
}
use daiki_aipass_backend.Redis.{Counters, or_zero}
use daiki_aipass_backend.Runtime.Budget.{
  ProviderModel, Payload, runtime_token_limit, model_admission_cost, admission_capacity,
  model_daily_admission_capacity,
}

-- Sixty-thousandths of a token.
abbrev pub token : ℕ
token = 60_000

pub record Bucket : Type 0 where
  pub tokens : ℕ
  pub last : ℕ

-- The bucket as the script first reads it, and after the refill; `capacity` in tokens.
unfoldable pub open_bucket : Option Bucket → ℕ → ℕ → Bucket
open_bucket none capacity now = record { tokens = capacity * token; last = now }
open_bucket (some b) capacity now = record b { tokens = min (capacity * token) b.tokens }

unfoldable pub refill : ℕ → ℕ → ℕ → Bucket → Bucket
refill capacity limit now b =
    if ltb b.last now
    then record { tokens = min (capacity * token) (b.tokens + (now - b.last) * limit); last = now }
    else b

-- `math.ceil(need/refill)`
abbrev pub ceil_div : ℕ → ℕ → ℕ
ceil_div need rate = (need + (rate - 1)) / rate

-- The script: the bucket it stores, and the milliseconds to wait.
unfoldable pub admission_script : Option Bucket → ℕ → ℕ → ℕ → ℕ → Bucket × ℕ
admission_script stored now capacity limit cost =
    let b = refill capacity limit now (open_bucket stored capacity now) in
    if leb (cost * token) b.tokens
    then (record b { tokens = b.tokens - cost * token }, 0)
    else (b, ceil_div (cost * token - b.tokens) limit)

-- What tryModelAdmission returns: whether the request is admitted, the milliseconds to wait and its cost.
pub record ModelAdmission : Type 0 where
  pub admitted : Bool
  pub wait_ms : ℕ
  pub cost : ℤ

abbrev pub admit_free : ℤ → ModelAdmission
admit_free cost = record { admitted = true; wait_ms = 0; cost = cost }

after_admission : ℤ → Bucket × ℕ → Option Bucket × ModelAdmission
after_admission cost (b, wait) = (
  some b,
  if wait == 0 then admit_free cost else record { admitted = false; wait_ms = wait; cost = cost },
)

-- `configured` tells whether there is Redis, and `reached` whether the script reaches it.
unfoldable pub try_model_admission :
    Bool
    → Bool
    → Option Bucket
    → ℕ
    → Payload
    → ProviderModel
    → String
    → Option Bucket × ModelAdmission
unfolding after_admission
try_model_admission configured reached stored now p m profile =
    let limit = runtime_token_limit m in
    let cost = model_admission_cost p m profile in
    if not configured || not (is_pos limit) || not (is_pos cost)
    then (stored, admit_free (pos 0))
    else if not reached
    then (stored, admit_free cost)
    else after_admission cost (
        admission_script stored now (pos_part (admission_capacity limit)) (pos_part limit)
          (pos_part cost))

-- `fallbackWait+meaningfulGain < primaryWait`, in nanoseconds.
unfoldable pub should_spill_model_admission : ℕ → ℕ → Bool
should_spill_model_admission primary_wait fallback_wait =
    if ltb primary_wait 2_000_000_000
    then false
    else (fallback_wait == 0) || ltb (fallback_wait + 500_000_000) primary_wait

-- What tryModelDailyAdmission returns: whether the request is admitted, the count and the capacity.
pub record DailyAdmission : Type 0 where
  pub admitted : Bool
  pub used : ℤ
  pub capacity : ℤ

module _ (redis : Counters) where
  open redis use {Db, get, set, incr_by, expire}

  -- The script of tryModelDailyAdmission; `ttl` seconds are left of the day.
  unfoldable pub daily_script : Db → String → ℤ → ℕ → Db × ℤ
  daily_script d key cap ttl =
      let current = or_zero (get d key) in
      let counted = incr_by d key (pos 1) in
      let next = or_zero (get counted key) in
      if leb_ℤ cap current then (d, neg current) else (
        (if leb_ℤ next (pos 1) && leb_ℤ (pos 1) next then expire counted key ttl else counted),
        next,
      )

  abbrev open_daily : ℤ → DailyAdmission
  open_daily capacity = record { admitted = true; used = pos 0; capacity = capacity }

  after_daily : ℤ → Db × ℤ → Db × DailyAdmission
  after_daily capacity (d, value) = (
    d,
    if is_neg value
        then record { admitted = false; used = neg value; capacity = capacity }
        else record { admitted = true; used = value; capacity = capacity },
  )

  -- Where Redis is configured; `reached` tells whether the script reaches it.
  unfoldable pub try_model_daily_admission : Db → Bool → String → ℤ → ℕ → Db × DailyAdmission
  unfolding after_daily
  try_model_daily_admission d reached key limit ttl =
      let capacity = model_daily_admission_capacity limit in
      if not (is_pos limit)
      then (d, open_daily (pos 0))
      else if not reached
      then (d, open_daily capacity)
      else after_daily capacity (daily_script d key capacity ttl)

  unfoldable pub mark_model_daily_exhausted : Db → String → String → ℤ → Db
  mark_model_daily_exhausted d model key observed_limit =
      if not (is_pos observed_limit) || str_eq (trim_space model) ""
      then d
      else set d key (model_daily_admission_capacity observed_limit)
