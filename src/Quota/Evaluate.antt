-- ===== src/Quota/Evaluate.antt =====
-- cmd/api/access.go: policyQuotaSpecs, evaluateQuota and policyAllowsModel. What
-- PostgreSQL answers (store.UsageSummaryForUser, UsageSummaryForAPIKey, QuotaResetStatus) is the
-- parameter `Ledger`; `now` is the instant that time.Now gives.
pub mod Tracking
pub mod Blocking
use Prim.Native.String
use daiki_aipass_backend.Prelude.{
  ℕ, suc, ◌+◌, ◌/◌, String, Option, none, some, Bool, true, false, not, ◌&&◌, ◌||◌, List, [], ◌∷◌,
  ◌++◌, str_eq, ltb, leb, if◌then◌else◌, decimal, trim_space, Result, ok, err, ◌>>=◌, Raw, absent,
  malformed, decoded,
}
use daiki_aipass_backend.Prelude.Int.{ℤ, pos, is_pos, is_neg, max_ℤ, wrap64, ◌+ℤ◌, ◌-ℤ◌}
use daiki_aipass_backend.Quota.Policy.{QuotaLimit, Policy}
use daiki_aipass_backend.Quota.Window.{quota_window_spec}

pub record Usage : Type 0 where
  pub input_tokens : ℤ
  pub output_tokens : ℤ
  pub total_tokens : ℤ

abbrev pub no_usage : Usage
no_usage = record { input_tokens = pos 0; output_tokens = pos 0; total_tokens = pos 0 }

pub record QuotaResetGrant : Type 0 where
  pub id : ℤ
  pub user_subject : String
  pub total_resets : ℤ
  pub remaining_resets : ℤ
  pub expires_at : ℕ
  pub note : String
  pub created_by : String
  pub created_at : ℕ

pub record QuotaResetStatus : Type 0 where
  pub available : ℤ
  pub next_expiry : Option ℕ
  pub last_reset_at : Option ℕ
  pub grants : List QuotaResetGrant

-- The queries that a decision reads.
pub record Ledger : Type 0 where
  pub usage_summary_for_user : String → ℕ → Result Usage
  pub usage_summary_for_api_key : String → ℕ → Result Usage
  pub quota_reset_status : String → Result QuotaResetStatus

pub record QuotaSpec : Type 0 where
  pub id : String
  pub primary : Bool
  pub limit : ℤ
  pub interval_kind : String
  pub interval_count : ℤ
  pub interval_seconds : Option ℤ

pub record QuotaLimitDecision : Type 0 where
  pub id : String
  pub primary : Bool
  pub limit : ℤ
  pub used : ℤ
  pub remaining : ℤ
  pub reset_at : Option ℕ
  pub interval : String
  pub interval_count : ℤ
  pub window_start : ℕ

pub record QuotaDecision : Type 0 where
  pub counter_key : String
  pub mode : String
  pub limit : Option ℤ
  pub used : ℤ
  pub remaining : Option ℤ
  pub reset_at : Option ℕ
  pub interval : String
  pub interval_count : ℤ
  pub window_start : Option ℕ
  pub blocked : Bool
  pub blocking_limit_id : String
  pub limits : List QuotaLimitDecision
  pub reset_credits : Option QuotaResetStatus

-- The loop over the parallel limits, from index `i` on.
unfoldable pub parallel_specs : ℕ → List QuotaLimit → List QuotaSpec
parallel_specs i [] = []
parallel_specs i (x ∷ xs) =
    let trimmed = trim_space x.id in
    record {
      id = if str_eq trimmed "" then String.◌++◌ "parallel-" (decimal (suc i)) else trimmed;
      primary = false;
      limit = x.token_limit;
      interval_kind = x.interval_kind;
      interval_count = x.interval_count;
      interval_seconds = x.interval_seconds;
    }
    ∷ parallel_specs (suc i) xs

unfoldable pub primary_spec : Policy → ℤ → QuotaSpec
primary_spec p limit = record {
  id = "primary";
  primary = true;
  limit = limit;
  interval_kind = p.interval_kind;
  interval_count = p.interval_count;
  interval_seconds = p.interval_seconds;
}

specs_beside : QuotaSpec → Raw (List QuotaLimit) → Result (List QuotaSpec)
specs_beside first absent = ok (first ∷ [])
specs_beside first malformed = err "invalid parallel quota limits"
specs_beside first (decoded limits) = ok (first ∷ parallel_specs 0 limits)

limited_specs : Policy → Option ℤ → Result (List QuotaSpec)
limited_specs p none = ok []
limited_specs p (some limit) = specs_beside (primary_spec p limit) p.parallel_limits

unfoldable pub policy_quota_specs : Policy → Result (List QuotaSpec)
unfolding specs_beside limited_specs
policy_quota_specs p =
    if str_eq p.quota_mode "unlimited" then ok [] else limited_specs p p.token_limit

-- The variables of the loop of evaluateQuota.
pub record Progress : Type 0 where
  pub limits : List QuotaLimitDecision
  pub primary_usage : Usage
  pub used : ℤ
  pub remaining : Option ℤ
  pub reset_at : Option ℕ
  pub window_start : Option ℕ
  pub blocked : Bool
  pub blocking_limit_id : String
  pub blocking_reset : Option ℕ
  pub blocking_never : Bool

-- A redeemed reset after the start of the window, and not in the future, moves the start.
unfoldable pub window_start_after : Option ℕ → ℕ → ℕ → ℕ
window_start_after none now start = start
window_start_after (some last) now start = if ltb start last && leb last now then last else start

-- What one spec decides, given its usage: the remaining tokens are at least 0.
unfoldable pub limit_decision : QuotaSpec → ℕ → Option ℕ → Usage → QuotaLimitDecision
limit_decision spec start reset usage =
    let left = wrap64 (spec.limit -ℤ usage.total_tokens) in
    record {
      id = spec.id;
      primary = spec.primary;
      limit = spec.limit;
      used = usage.total_tokens;
      remaining = if is_neg left then pos 0 else left;
      reset_at = reset;
      interval = spec.interval_kind;
      interval_count = max_ℤ (pos 1) spec.interval_count;
      window_start = start;
    }

-- `blockingReset == nil || reset.After(*blockingReset)`
abbrev pub is_later : ℕ → Option ℕ → Bool
is_later reset none = true
is_later reset (some latest) = ltb latest reset

-- A spec with no tokens left: a window that never resets wins, and otherwise the latest reset.
unfoldable pub block : String → Option ℕ → Progress → Progress
block id none g = record g { blocked = true; blocking_never = true; blocking_limit_id = id }
block id (some reset) g =
    if not g.blocking_never && is_later reset g.blocking_reset
    then record g { blocked = true; blocking_reset = some reset; blocking_limit_id = id }
    else record g { blocked = true }

unfoldable pub record_primary : QuotaLimitDecision → Usage → Progress → Progress
record_primary l usage g =
    if l.primary
    then record g {
      primary_usage = usage;
      used = usage.total_tokens;
      remaining = some l.remaining;
      reset_at = l.reset_at;
      window_start = some l.window_start;
    }
    else g

unfoldable pub record_limit : QuotaLimitDecision → Usage → Progress → Progress
record_limit l usage g =
    let g' = record_primary l usage (record g { limits = g.limits ++ l ∷ [] }) in
    if is_pos l.remaining then g' else block l.id l.reset_at g'

-- The loop; a failing query ends it.
unfoldable pub evaluate_specs :
    (ℕ → Result Usage) → Option ℕ → ℕ → List QuotaSpec → Progress → Result Progress
evaluate_specs summary last_reset now [] g = ok g
evaluate_specs summary last_reset now (spec ∷ specs) g = do
  let window = quota_window_spec spec.interval_kind spec.interval_count spec.interval_seconds now
  let start = window_start_after last_reset now window.0
  usage ← summary start
  evaluate_specs summary last_reset now specs
      (record_limit (limit_decision spec start window.1 usage) usage g)

abbrev pub no_progress : Progress
no_progress = record {
  limits = [];
  primary_usage = no_usage;
  used = pos 0;
  remaining = none;
  reset_at = none;
  window_start = none;
  blocked = false;
  blocking_limit_id = "";
  blocking_reset = none;
  blocking_never = false;
}

-- The defaults for empty fields at the head of evaluateQuota.
unfoldable pub with_defaults : Policy → Policy
with_defaults p = record p {
  quota_mode = if str_eq p.quota_mode "" then "unlimited" else p.quota_mode;
  interval_kind = if str_eq p.interval_kind "" then "lifetime" else p.interval_kind;
  interval_count = if is_pos p.interval_count then p.interval_count else pos 1;
}

unfoldable pub counter_key : String → String → Bool → String
counter_key subject api_key_id count_as_api_key =
    if count_as_api_key && not (str_eq api_key_id "")
    then String.◌++◌ "api_key:" api_key_id
    else String.◌++◌ "user:" subject

unfoldable pub open_decision : Policy → String → QuotaDecision
open_decision p key = record {
  counter_key = key;
  mode = p.quota_mode;
  limit = p.token_limit;
  used = pos 0;
  remaining = none;
  reset_at = none;
  interval = p.interval_kind;
  interval_count = p.interval_count;
  window_start = none;
  blocked = false;
  blocking_limit_id = "";
  limits = [];
  reset_credits = none;
}

-- The end of evaluateQuota: a blocked request waits for the blocking window.
unfoldable pub close_decision : QuotaDecision → Option QuotaResetStatus → Progress → QuotaDecision
close_decision d credits g = record d {
  used = g.used;
  remaining = g.remaining;
  reset_at =
      if g.blocked then (if g.blocking_never then none else g.blocking_reset) else g.reset_at;
  window_start = g.window_start;
  blocked = g.blocked;
  blocking_limit_id = g.blocking_limit_id;
  limits = g.limits;
  reset_credits = credits;
}

unfoldable pub reset_credits_for : Ledger → String → Bool → Result (Option QuotaResetStatus)
reset_credits_for ledger subject true = ok none
reset_credits_for ledger subject false = do
  status ← ledger.quota_reset_status subject
  ok (some status)

unfoldable pub last_reset_of : Option QuotaResetStatus → Option ℕ
last_reset_of none = none
last_reset_of (some status) = status.last_reset_at

unfoldable pub summary_for : Ledger → String → String → Bool → ℕ → Result Usage
summary_for ledger subject api_key_id true start = ledger.usage_summary_for_api_key api_key_id start
summary_for ledger subject api_key_id false start = ledger.usage_summary_for_user subject start

abbrev pub is_none : Option ℤ → Bool
is_none none = true
is_none (some _) = false

unfoldable pub evaluate_quota :
    Ledger → ℕ → String → String → Policy → Bool → Result (QuotaDecision × Usage)
evaluate_quota ledger now subject api_key_id policy count_as_api_key =
    let p = with_defaults policy in
    let d = open_decision p (counter_key subject api_key_id count_as_api_key) in
    if str_eq p.quota_mode "unlimited" || is_none p.token_limit then ok (d, no_usage) else do
      specs ← policy_quota_specs p
      credits ← reset_credits_for ledger subject count_as_api_key
      g ←
          evaluate_specs (summary_for ledger subject api_key_id count_as_api_key)
            (last_reset_of credits) now specs no_progress
      ok (close_decision d credits g, g.primary_usage)

allows : List String → String → Bool
allows [] alias = false
allows (model ∷ rest) alias = str_eq model "*" || str_eq model alias || allows rest alias

-- An absent, malformed or empty list allows every model.
unfoldable pub policy_allows_model : Raw (List String) → String → Bool
unfolding allows
policy_allows_model (decoded (m ∷ ms)) alias = allows (m ∷ ms) alias
policy_allows_model _ alias = true
