-- ===== src/Guest/Policy.antt =====
-- internal/store/guest_policy.go: GuestAccessPolicy, DefaultGuestAccessPolicy and
-- validateGuestAccessPolicy. Times are nanoseconds from year 1.
pub mod Valid
pub mod Accepted
use daiki_aipass_backend.Prelude.{
  ℕ, String, Option, none, some, Bool, true, false, not, ◌&&◌, ◌||◌, str_eq, if◌then◌else◌,
  trim_space, Result, ok, err, ◌>>=◌, ◌>>◌, fail_if,
}
use daiki_aipass_backend.Prelude.Int.{ℤ, pos, is_pos, is_neg, ltb_ℤ}
use daiki_aipass_backend.Quota.Policy.{missing_or_not_positive}

pub record GuestAccessPolicy : Type 0 where
  pub enabled : Bool
  pub quota_mode : String
  pub token_limit : ℤ
  pub interval_kind : String
  pub interval_seconds : Option ℤ
  pub requests_per_hour : ℤ
  pub min_interval_seconds : ℤ
  pub max_completion_tokens : ℤ
  pub fast_model : String
  pub allow_uploads : Bool
  pub allow_image_generation : Bool
  pub allow_file_generation : Bool
  pub max_upload_bytes : ℤ
  pub max_image_upload_bytes : ℤ
  pub max_uploads_per_hour : ℤ
  pub max_stored_files : ℤ
  pub max_stored_bytes : ℤ
  pub max_attachments_per_message : ℤ
  pub attachment_retention_hours : ℤ
  pub image_generations_per_day : ℤ
  pub file_generations_per_day : ℤ
  pub max_generated_file_bytes : ℤ
  pub max_generated_image_bytes : ℤ
  pub updated_by : String
  pub updated_at : Option ℕ

unfoldable pub default_guest_access_policy : GuestAccessPolicy
default_guest_access_policy = record {
  enabled = true;
  quota_mode = "limited";
  token_limit = pos 4000;
  interval_kind = "day";
  interval_seconds = none;
  requests_per_hour = pos 6;
  min_interval_seconds = pos 45;
  max_completion_tokens = pos 384;
  fast_model = "fast";
  allow_uploads = true;
  allow_image_generation = true;
  allow_file_generation = true;
  max_upload_bytes = pos 0xa0_0000;
  max_image_upload_bytes = pos 0x40_0000;
  max_uploads_per_hour = pos 10;
  max_stored_files = pos 20;
  max_stored_bytes = pos 0x320_0000;
  max_attachments_per_message = pos 10;
  attachment_retention_hours = pos 24;
  image_generations_per_day = pos 3;
  file_generations_per_day = pos 5;
  max_generated_file_bytes = pos 0x10_0000;
  max_generated_image_bytes = pos 0x40_0000;
  updated_by = "";
  updated_at = none;
}

-- `x < 0 || x > top`, and `x <= 0 || x > top`
abbrev pub outside : ℤ → ℕ → Bool
outside x top = is_neg x || ltb_ℤ (pos top) x

abbrev pub outside_from_one : ℤ → ℕ → Bool
outside_from_one x top = not (is_pos x) || ltb_ℤ (pos top) x

abbrev pub or_text : String → String → String
or_text given standard = if str_eq given "" then standard else given

abbrev pub is_calendar_kind : String → Bool
is_calendar_kind kind =
    str_eq kind "hour"
    || str_eq kind "day"
    || str_eq kind "week"
    || str_eq kind "month"
    || str_eq kind "lifetime"

abbrev pub is_span_kind : String → Bool
is_span_kind kind = str_eq kind "rolling" || str_eq kind "custom"

-- The policy with its defaults.
unfoldable pub with_guest_defaults : GuestAccessPolicy → GuestAccessPolicy
with_guest_defaults p = record p {
  quota_mode = or_text p.quota_mode "limited";
  interval_kind = or_text p.interval_kind "day";
  fast_model = or_text (trim_space p.fast_model) "fast";
}

unfoldable pub is_bad_guest_mode : GuestAccessPolicy → Bool
is_bad_guest_mode p =
    let mode = or_text p.quota_mode "limited" in
    not (str_eq mode "limited") && not (str_eq mode "unlimited")

-- The switch on the kind of interval.
unfoldable pub check_guest_interval : String → Option ℤ → Result (Unit {0})
check_guest_interval kind seconds = do
  fail_if (is_span_kind kind && missing_or_not_positive seconds)
      "rolling/custom interval requires intervalSeconds"
  fail_if (not (is_calendar_kind kind) && not (is_span_kind kind)) "invalid intervalKind"

unfoldable pub validate_guest_access_policy : GuestAccessPolicy → Result GuestAccessPolicy
validate_guest_access_policy p = do
  fail_if (is_bad_guest_mode p) "quotaMode must be limited or unlimited"
  fail_if (is_neg p.token_limit) "tokenLimit must be >= 0"
  fail_if (outside p.requests_per_hour 10_000)
      "requestsPerHour must be between 0 and 10000; 0 means unlimited"
  fail_if (outside p.min_interval_seconds 3600) "minIntervalSeconds must be between 0 and 3600"
  fail_if (outside_from_one p.max_completion_tokens 8192)
      "maxCompletionTokens must be between 1 and 8192"
  fail_if (outside p.max_upload_bytes 0x640_0000)
      "maxUploadBytes must be between 0 and 104857600; 0 means unlimited"
  fail_if (outside p.max_image_upload_bytes 0x40_0000)
      "maxImageUploadBytes must be between 0 and 4194304; 0 means unlimited"
  fail_if (outside p.max_uploads_per_hour 1000)
      "maxUploadsPerHour must be between 0 and 1000; 0 means unlimited"
  fail_if (outside p.max_stored_files 1000)
      "maxStoredFiles must be between 0 and 1000; 0 means unlimited"
  fail_if (outside p.max_stored_bytes 0x8000_0000)
      "maxStoredBytes must be between 0 and 2147483648; 0 means unlimited"
  fail_if (outside p.max_attachments_per_message 10)
      "maxAttachmentsPerMessage must be between 0 and 10; 0 means platform maximum"
  fail_if (outside_from_one p.attachment_retention_hours 720)
      "attachmentRetentionHours must be between 1 and 720"
  fail_if (outside p.image_generations_per_day 1000)
      "imageGenerationsPerDay must be between 0 and 1000"
  fail_if (outside p.file_generations_per_day 1000)
      "fileGenerationsPerDay must be between 0 and 1000"
  fail_if (outside p.max_generated_file_bytes 0x190_0000)
      "maxGeneratedFileBytes must be between 0 and 26214400; 0 means unlimited"
  fail_if (outside p.max_generated_image_bytes 0x40_0000)
      "maxGeneratedImageBytes must be between 0 and 4194304; 0 means unlimited"
  check_guest_interval (or_text p.interval_kind "day") p.interval_seconds
  ok (with_guest_defaults p)
