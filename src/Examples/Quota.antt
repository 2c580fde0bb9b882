-- ===== src/Examples/Quota.antt =====
-- Concrete inputs of the results on quotas.
use daiki_aipass_backend.Prelude.{
  ◌<◌, ◌≤◌, ◌-◌, ℕ, ◌+◌, ◌*◌, ◌≡◌, ◌≢◌, refl, sym, ◌∙◌, str_eq, String, Option, none, some, true,
  false, [], ◌∷◌, ◌⊎◌, ok, err, absent, decoded, arith, All, Any, eq_iff, decimal,
}
use daiki_aipass_backend.Prelude.Int.{ℤ, pos, negsuc, ◌-ℤ◌, wrap64}
use daiki_aipass_backend.Redis.{in_memory}
use daiki_aipass_backend.Quota.Window.Retry.{quota_retry_after_seconds-least}
use daiki_aipass_backend.Quota.Window.{
  quota_retry_after_seconds, second, quota_window_spec, unix_epoch,
}
use daiki_aipass_backend.Quota.Window.Bounds.{Contains, quota_window-Contains}
use daiki_aipass_backend.Quota.Policy.{
  Policy, normalize_policy, no_resource_limits, normalize_quota_interval, is_interval_kind,
  has_negative, exceeds_platform, decode_resources, decode_parallel, relabel, normalize_limits,
  or_empty, normalize_resources, normalize_parallel, normalized,
}
use daiki_aipass_backend.Quota.Policy.Normal.{IsNormal, normalize_policy-IsNormal}
use daiki_aipass_backend.Quota.Policy.Stable.{normalize_policy_idem}
use daiki_aipass_backend.Quota.Evaluate.{
  Ledger, QuotaDecision, evaluate_quota, with_defaults, open_decision, counter_key,
  policy_quota_specs, primary_spec, reset_credits_for, last_reset_of, summary_for, evaluate_specs,
  window_start_after, limit_decision, record_limit, record_primary, block, close_decision,
}
use daiki_aipass_backend.Quota.Evaluate.Blocking.{BlocksRightly, evaluate_quota-BlocksRightly}
use daiki_aipass_backend.Quota.Reserve.{
  Slot, headroom, is_full, reserve_script, release_slot, each_slot,
}
use daiki_aipass_backend.Quota.Reserve.Locality.{AreDistinct, IsFresh}
use daiki_aipass_backend.Quota.Reserve.Headroom.{IsFull, IsReserved, reserve_script-IsReserved}
use daiki_aipass_backend.Quota.Reserve.Restore.{IsRestored, release-reserve_script}

-- Thursday 1 January 2026, 10:30 UTC, and the Sunday after.
abbrev thursday : ℕ
thursday = (63_902_822_400 + 37_800) * second

abbrev sunday : ℕ
sunday = (63_902_822_400 + 3 * 86_400) * second

quota_window-Contains_example : Contains (quota_window_spec "week" (pos 1) none thursday) thursday
quota_window-Contains_example =
    quota_window-Contains none thursday (omega arith, omega arith) (omega arith) "week" (pos 1)
      (omega arith)

quota_retry_after_seconds-least_example :
    (sunday ≤ thursday + quota_retry_after_seconds (some sunday) thursday * second)
    × (1 ≤ quota_retry_after_seconds (some sunday) thursday)
    × (1 < quota_retry_after_seconds (some sunday) thursday
        → thursday + (quota_retry_after_seconds (some sunday) thursday - 1) * second < sunday)
    × (quota_retry_after_seconds none thursday ≡ 0)
quota_retry_after_seconds-least_example = quota_retry_after_seconds-least sunday thursday

abbrev free_tier : Policy
free_tier = record {
  id = pos 7;
  scope_type = "user";
  scope_id = "u1";
  quota_mode = "limited";
  token_limit = some (pos 1000);
  interval_kind = "hour";
  interval_count = pos 5;
  interval_seconds = none;
  parallel_limits = decoded (
      record {
        id = "";
        token_limit = pos 5000;
        interval_kind = "week";
        interval_count = pos 3;
        interval_seconds = none;
      }
      ∷ []);
  resource_limits = absent;
  priority = pos 0;
  allowed_models = absent;
  effective_from = 0;
  expires_at = none;
}

abbrev stored_tier : Policy
stored_tier = record free_tier {
  parallel_limits = decoded (
      record {
        id = "parallel-1";
        token_limit = pos 5000;
        interval_kind = "week";
        interval_count = pos 1;
        interval_seconds = none;
      }
      ∷ []);
  resource_limits = decoded no_resource_limits;
  allowed_models = decoded [];
}

stored_tier_lem : normalize_policy free_tier ≡ ok stored_tier
unfolding normalize_policy normalize_quota_interval is_interval_kind has_negative exceeds_platform
    decode_resources decode_parallel relabel normalize_limits or_empty normalize_resources
    normalize_parallel normalized decimal
stored_tier_lem = refl

normalize_policy-IsNormal_example : IsNormal stored_tier
normalize_policy-IsNormal_example = normalize_policy-IsNormal free_tier stored_tier stored_tier_lem

normalize_policy_idem_example : normalize_policy stored_tier ≡ ok stored_tier
normalize_policy_idem_example = normalize_policy_idem free_tier stored_tier stored_tier_lem

-- 1000 tokens are used in every window.
abbrev busy_ledger : Ledger
busy_ledger = record {
  usage_summary_for_user = λ subject since.
      ok record { input_tokens = pos 600; output_tokens = pos 400; total_tokens = pos 1000 };
  usage_summary_for_api_key = λ key since.
      ok record { input_tokens = pos 600; output_tokens = pos 400; total_tokens = pos 1000 };
  quota_reset_status = λ subject. err "unavailable";
}

abbrev small_tier : Policy
small_tier = record free_tier {
  interval_kind = "lifetime";
  interval_count = pos 1;
  parallel_limits = absent;
}

abbrev blocked_decision : QuotaDecision
blocked_decision = record {
  counter_key = "api_key:k1";
  mode = "limited";
  limit = some (pos 1000);
  used = pos 1000;
  remaining = some (pos 0);
  reset_at = none;
  interval = "lifetime";
  interval_count = pos 1;
  window_start = some unix_epoch;
  blocked = true;
  blocking_limit_id = "primary";
  limits =
      record {
        id = "primary";
        primary = true;
        limit = pos 1000;
        used = pos 1000;
        remaining = pos 0;
        reset_at = none;
        interval = "lifetime";
        interval_count = pos 1;
        window_start = unix_epoch;
      }
      ∷ [];
  reset_credits = none;
}

blocked_lem :
    evaluate_quota busy_ledger thursday "u1" "k1" small_tier true
    ≡ ok (
      blocked_decision,
      record { input_tokens = pos 600; output_tokens = pos 400; total_tokens = pos 1000 },
    )
unfolding evaluate_quota with_defaults open_decision counter_key policy_quota_specs primary_spec
    reset_credits_for last_reset_of summary_for evaluate_specs quota_window_spec window_start_after
    limit_decision record_limit record_primary block close_decision wrap64 ◌-ℤ◌
blocked_lem = refl

evaluate_quota-BlocksRightly_example : BlocksRightly blocked_decision
evaluate_quota-BlocksRightly_example =
    evaluate_quota-BlocksRightly busy_ledger thursday "u1" "k1" small_tier true blocked_decision
      (record { input_tokens = pos 600; output_tokens = pos 400; total_tokens = pos 1000 })
      blocked_lem

abbrev hourly : Slot
hourly = record {
  pending_key = "p:hour";
  reservation_key = "r:hour";
  limit = pos 100;
  durable = pos 20;
}

abbrev weekly : Slot
weekly = record {
  pending_key = "p:week";
  reservation_key = "r:week";
  limit = pos 500;
  durable = pos 20;
}

true_ne_false : true ≢ false
true_ne_false h = ground arith

-- Distinct keys, by comparing them.
differ : (s t : String) → str_eq s t ≡ false → s ≢ t
differ s t h e = true_ne_false (sym ((eq_iff s t).1 e) ∙ h)

two_windows-AreDistinct : AreDistinct (hourly ∷ weekly ∷ [])
two_windows-AreDistinct = (
  differ "p:hour" "r:hour" refl,
  ((differ "p:week" "p:hour" refl, differ "r:week" "p:hour" refl), tt),
  ((differ "p:week" "r:hour" refl, differ "r:week" "r:hour" refl), tt),
  (differ "p:week" "r:week" refl, tt, tt, tt),
)

abbrev empty_counters : String → Option ℤ
empty_counters k = none

reserve_script-IsReserved_example :
    (reserve_script in_memory empty_counters (pos 90) (hourly ∷ weekly ∷ [])
        ≡ (empty_counters, negsuc 0))
      × Any (IsFull in_memory empty_counters) (hourly ∷ weekly ∷ [])
    ⊎ (e : String → Option ℤ) × (reserve_script in_memory empty_counters
          (pos 90)
          (hourly ∷ weekly ∷ [])
        ≡ (e, pos 1))
      × All (IsReserved in_memory (pos 90) empty_counters e) (hourly ∷ weekly ∷ [])
      × ((j : String) → IsFresh j (hourly ∷ weekly ∷ []) → e j ≡ empty_counters j)
reserve_script-IsReserved_example =
    reserve_script-IsReserved in_memory empty_counters (pos 90) (hourly ∷ weekly ∷ [])
      two_windows-AreDistinct

abbrev reserved_counters : String → Option ℤ
reserved_counters = (reserve_script in_memory empty_counters (pos 90) (hourly ∷ weekly ∷ [])).0

reserved_lem :
    reserve_script in_memory empty_counters (pos 90) (hourly ∷ weekly ∷ [])
    ≡ (reserved_counters, pos 1)
unfolding reserve_script is_full headroom ◌-ℤ◌
reserved_lem = refl

release-reserve_script_example :
    All
      (IsRestored in_memory empty_counters
        (each_slot in_memory (release_slot in_memory) reserved_counters (hourly ∷ weekly ∷ [])))
      (hourly ∷ weekly ∷ [])
    × ((j : String)
        → IsFresh j (hourly ∷ weekly ∷ [])
        → each_slot in_memory (release_slot in_memory) reserved_counters (hourly ∷ weekly ∷ []) j
          ≡ empty_counters j)
release-reserve_script_example =
    release-reserve_script in_memory empty_counters reserved_counters (pos 90)
      (hourly ∷ weekly ∷ []) two_windows-AreDistinct (omega arith, (omega arith, tt)) reserved_lem
