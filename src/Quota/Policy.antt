-- ===== src/Quota/Policy.antt =====
-- internal/store/store.go: Policy, QuotaLimit, ResourceLimits, normalizeQuotaInterval and
-- normalizePolicy. A json.RawMessage stands for what Unmarshal reads from it (`Raw`); times are
-- nanoseconds from year 1.
pub mod Normal
pub mod Stable
use Prim.Native.String
use daiki_aipass_backend.Prelude.{
  ℕ, suc, ◌+◌, String, Option, none, some, Bool, true, false, not, ◌&&◌, ◌||◌, List, [], ◌∷◌,
  str_eq, ltb, if◌then◌else◌, length, decimal, Result, ok, err, ◌>>=◌, ◌>>◌, fail_if, Raw, absent,
  malformed, decoded,
}
use daiki_aipass_backend.Prelude.Int.{ℤ, pos, pos_part, is_pos, is_neg, ltb_ℤ}

pub record QuotaLimit : Type 0 where
  pub id : String
  pub token_limit : ℤ
  pub interval_kind : String
  pub interval_count : ℤ
  pub interval_seconds : Option ℤ

pub record ResourceLimits : Type 0 where
  pub max_uploads_per_hour : ℤ
  pub max_stored_files : ℤ
  pub max_stored_bytes : ℤ
  pub max_attachments_per_message : ℤ
  pub max_file_bytes : ℤ
  pub max_image_bytes : ℤ

pub record Policy : Type 0 where
  pub id : ℤ
  pub scope_type : String
  pub scope_id : String
  pub quota_mode : String
  pub token_limit : Option ℤ
  pub interval_kind : String
  pub interval_count : ℤ
  pub interval_seconds : Option ℤ
  pub parallel_limits : Raw (List QuotaLimit)
  pub resource_limits : Raw ResourceLimits
  pub priority : ℤ
  pub allowed_models : Raw (List String)
  pub effective_from : ℕ
  pub expires_at : Option ℕ

-- `x == nil || *x < 0`, and `x == nil || *x <= 0`
abbrev pub missing_or_negative : Option ℤ → Bool
missing_or_negative none = true
missing_or_negative (some x) = is_neg x

abbrev pub missing_or_not_positive : Option ℤ → Bool
missing_or_not_positive none = true
missing_or_not_positive (some x) = not (is_pos x)

unfoldable pub is_interval_kind : String → Bool
is_interval_kind kind =
    str_eq kind "hour"
    || str_eq kind "day"
    || str_eq kind "week"
    || str_eq kind "month"
    || str_eq kind "rolling"
    || str_eq kind "custom"
    || str_eq kind "lifetime"

unfoldable pub normalize_quota_interval : String → ℤ → Option ℤ → Result (String × ℤ)
normalize_quota_interval given_kind given_count seconds = do
  let kind = if str_eq given_kind "" then "lifetime" else given_kind
  fail_if (not (is_interval_kind kind)) "invalid intervalKind"
  let positive = if is_pos given_count then given_count else pos 1
  fail_if (ltb_ℤ (pos 8760) positive) "intervalCount is too large"
  let count = if str_eq kind "hour" then positive else pos 1
  fail_if ((str_eq kind "rolling" || str_eq kind "custom") && missing_or_not_positive seconds)
      "rolling/custom interval requires intervalSeconds"
  ok (kind, count)

unfoldable pub has_negative : ResourceLimits → Bool
has_negative r =
    is_neg r.max_uploads_per_hour
    || is_neg r.max_stored_files
    || is_neg r.max_stored_bytes
    || is_neg r.max_attachments_per_message
    || is_neg r.max_file_bytes
    || is_neg r.max_image_bytes

unfoldable pub exceeds_platform : ResourceLimits → Bool
exceeds_platform r =
    ltb_ℤ (pos 100_000) r.max_uploads_per_hour
    || ltb_ℤ (pos 100_000) r.max_stored_files
    || ltb_ℤ (pos 100) r.max_attachments_per_message
    || ltb_ℤ (pos 0x100_0000_0000) r.max_stored_bytes
    || ltb_ℤ (pos 0x190_0000) r.max_file_bytes
    || ltb_ℤ (pos 0x40_0000) r.max_image_bytes

abbrev pub no_resource_limits : ResourceLimits
no_resource_limits = record {
  max_uploads_per_hour = pos 0;
  max_stored_files = pos 0;
  max_stored_bytes = pos 0;
  max_attachments_per_message = pos 0;
  max_file_bytes = pos 0;
  max_image_bytes = pos 0;
}

-- An absent value is read as `{}`.
unfoldable pub decode_resources : Raw ResourceLimits → Result ResourceLimits
decode_resources absent = ok no_resource_limits
decode_resources malformed = err "resourceLimits must be an object"
decode_resources (decoded r) = ok r

unfoldable pub decode_parallel : Raw (List QuotaLimit) → Result (List QuotaLimit)
decode_parallel absent = ok []
decode_parallel malformed = err "parallelLimits must be an array"
decode_parallel (decoded limits) = ok limits

-- The loop over the limits, from index `i` on.
unfoldable pub relabel : ℕ → Result (String × ℤ) → Result (String × ℤ)
relabel i (ok r) = ok r
relabel i (err e) =
    err (String.◌++◌ "parallel limit " (String.◌++◌ (decimal (suc i)) (String.◌++◌ ": " e)))

unfoldable pub normalize_limits : ℕ → List QuotaLimit → Result (List QuotaLimit)
unfolding relabel
normalize_limits i [] = ok []
normalize_limits i (x ∷ xs) = do
  fail_if (is_neg x.token_limit) "parallel tokenLimit must be >= 0"
  (kind, count) ←
      relabel i (normalize_quota_interval x.interval_kind x.interval_count x.interval_seconds)
  rest ← normalize_limits (suc i) xs
  ok (
      record x {
        id = String.◌++◌ "parallel-" (decimal (suc i));
        interval_kind = kind;
        interval_count = count;
      }
      ∷ rest)

unfoldable pub or_empty : {A : Type 0} → Raw (List A) → Raw (List A)
or_empty absent = decoded []
or_empty raw = raw

unfoldable pub normalize_resources : Raw ResourceLimits → Result ResourceLimits
unfolding decode_resources
normalize_resources raw = do
  r ← decode_resources raw
  fail_if (has_negative r) "resource limits must be >= 0; 0 means unlimited"
  fail_if (exceeds_platform r) "resource limit exceeds platform safety range"
  ok r

unfoldable pub normalize_parallel : String → Raw (List QuotaLimit) → Result (List QuotaLimit)
unfolding decode_parallel
normalize_parallel mode raw = if str_eq mode "unlimited" then ok [] else do
  limits ← decode_parallel raw
  fail_if (ltb 8 (length limits)) "parallelLimits supports at most 8 limits"
  normalize_limits 0 limits

-- The policy with its normalised parts.
unfoldable pub normalized : Policy → String → ℤ → ResourceLimits → List QuotaLimit → Policy
normalized p kind count resources limits = record p {
  interval_kind = kind;
  interval_count = count;
  allowed_models = or_empty p.allowed_models;
  resource_limits = decoded resources;
  parallel_limits = decoded limits;
}

abbrev pub is_bad_mode : Policy → Bool
is_bad_mode p = not (str_eq p.quota_mode "unlimited") && not (str_eq p.quota_mode "limited")

abbrev pub lacks_limit : Policy → Bool
lacks_limit p = str_eq p.quota_mode "limited" && missing_or_negative p.token_limit

unfoldable pub normalize_policy : Policy → Result Policy
normalize_policy p = do
  fail_if (is_bad_mode p) "quotaMode must be unlimited or limited"
  fail_if (lacks_limit p) "limited quota requires tokenLimit"
  (kind, count) ← normalize_quota_interval p.interval_kind p.interval_count p.interval_seconds
  resources ← normalize_resources p.resource_limits
  limits ← normalize_parallel p.quota_mode p.parallel_limits
  ok (normalized p kind count resources limits)
