-- ===== src/Guest/Policy/Valid.antt =====
-- What a guest policy that validateGuestAccessPolicy (Guest/Policy) accepts looks like.
use daiki_aipass_backend.Prelude.{
  ℕ, ◌≡◌, refl, sym, ◌⊎◌, inl, inr, String, Option, none, some, Bool, true, false, not, ◌&&◌, ◌||◌,
  str_eq, eq_iff, trim_space, ok, fail_if, arith, Ensures, Ensures_ok, fail_if-Ensures, >>=-Ensures,
  Bool-cases, false_ne_true,
}
use daiki_aipass_backend.Prelude.Int.{ℤ, pos, is_neg, ◌≤ℤ◌}
use daiki_aipass_backend.Quota.Policy.{missing_or_not_positive}
use daiki_aipass_backend.Guest.Policy.{
  GuestAccessPolicy, default_guest_access_policy, outside, outside_from_one, or_text,
  is_calendar_kind, is_span_kind, with_guest_defaults, is_bad_guest_mode, check_guest_interval,
  validate_guest_access_policy,
}

-- `x` lies between the two bounds.
abbrev pub IsBetween : ℕ → ℕ → ℤ → Type 0
IsBetween low top x = (pos low ≤ℤ x) × (x ≤ℤ pos top)

-- The number is there, and positive.
abbrev pub IsSpan : Option ℤ → Type 0
IsSpan none = ⊥
IsSpan (some x) = pos 1 ≤ℤ x

abbrev pub IsGuestInterval : String → Option ℤ → Type 0
IsGuestInterval kind seconds =
    ((str_eq kind "hour"
        || str_eq kind "day"
        || str_eq kind "week"
        || str_eq kind "month"
        || str_eq kind "lifetime"
        || str_eq kind "rolling"
        || str_eq kind "custom")
      ≡ true)
    × ((str_eq kind "rolling" || str_eq kind "custom") ≡ true → IsSpan seconds)

-- A policy whose fields all lie in their ranges, with its texts filled in.
pub record IsGuestPolicy (p : GuestAccessPolicy) : Type 0 where
  pub mode : (p.quota_mode ≡ "limited") ⊎ (p.quota_mode ≡ "unlimited")
  pub tokens : pos 0 ≤ℤ p.token_limit
  pub requests : IsBetween 0 10_000 p.requests_per_hour
  pub pause : IsBetween 0 3600 p.min_interval_seconds
  pub completion : IsBetween 1 8192 p.max_completion_tokens
  pub upload : IsBetween 0 104_857_600 p.max_upload_bytes
  pub image_upload : IsBetween 0 4_194_304 p.max_image_upload_bytes
  pub uploads : IsBetween 0 1000 p.max_uploads_per_hour
  pub files : IsBetween 0 1000 p.max_stored_files
  pub bytes : IsBetween 0 2_147_483_648 p.max_stored_bytes
  pub attachments : IsBetween 0 10 p.max_attachments_per_message
  pub retention : IsBetween 1 720 p.attachment_retention_hours
  pub images : IsBetween 0 1000 p.image_generations_per_day
  pub documents : IsBetween 0 1000 p.file_generations_per_day
  pub document_bytes : IsBetween 0 26_214_400 p.max_generated_file_bytes
  pub image_bytes : IsBetween 0 4_194_304 p.max_generated_image_bytes
  pub interval : IsGuestInterval p.interval_kind p.interval_seconds
  pub model : str_eq p.fast_model "" ≡ false

inside : (top : ℕ) (x : ℤ) → outside x top ≡ false → IsBetween 0 top x
inside top x h = ground arith

inside_from_one : (top : ℕ) (x : ℤ) → outside_from_one x top ≡ false → IsBetween 1 top x
inside_from_one top x h = ground arith

not_negative : (x : ℤ) → is_neg x ≡ false → pos 0 ≤ℤ x
not_negative x h = ground arith

present : (seconds : Option ℤ) → missing_or_not_positive seconds ≡ false → IsSpan seconds
present none h = absurd (false_ne_true (sym h))
present (some x) h = ground arith

last_check :
    (kind : String) (seconds : Option ℤ)
    → (is_span_kind kind && missing_or_not_positive seconds) ≡ false
    → (bad : Bool) → (not (is_calendar_kind kind) && not (is_span_kind kind)) ≡ bad
    → (message : String) → Ensures (λ _. IsGuestInterval kind seconds) (fail_if bad message)
last_check kind seconds span true e message = tt
last_check kind seconds span false e message = (ground arith, λ h. present seconds (ground arith))

check_guest_interval-Ensures :
    (kind : String) (seconds : Option ℤ)
    → Ensures (λ _. IsGuestInterval kind seconds) (check_guest_interval kind seconds)
unfolding check_guest_interval
check_guest_interval-Ensures kind seconds =
    fail_if-Ensures (λ _. IsGuestInterval kind seconds)
      (is_span_kind kind && missing_or_not_positive seconds) _ _
      λ span.
        last_check kind seconds span (not (is_calendar_kind kind) && not (is_span_kind kind)) refl _

model_lem : (given : String) → str_eq (or_text given "fast") "" ≡ false
model_lem given = elim (Bool-cases (str_eq given "")) [ inl e ↦ rw e | inr e ↦ rw e e ]

mode_lem :
    (given : String)
    → (let mode = or_text given "limited" in
        not (str_eq mode "limited") && not (str_eq mode "unlimited"))
      ≡ false
    → (or_text given "limited" ≡ "limited") ⊎ (or_text given "limited" ≡ "unlimited")
mode_lem given h = elim (Bool-cases (str_eq (or_text given "limited") "limited")) [
  | inl e ↦ inl ((eq_iff (or_text given "limited") "limited").0 e)
  | inr e ↦
      let other : str_eq (or_text given "limited") "unlimited" ≡ true = ground arith in
      inr ((eq_iff (or_text given "limited") "unlimited").0 other)
]

validate-Ensures : (p : GuestAccessPolicy) → Ensures IsGuestPolicy (validate_guest_access_policy p)
unfolding validate_guest_access_policy with_guest_defaults is_bad_guest_mode
validate-Ensures p = fail_if-Ensures IsGuestPolicy (is_bad_guest_mode p) _ _ λ mode.
    fail_if-Ensures IsGuestPolicy _ _ _ λ tokens. fail_if-Ensures IsGuestPolicy _ _ _ λ requests.
      fail_if-Ensures IsGuestPolicy _ _ _ λ pause. fail_if-Ensures IsGuestPolicy _ _ _ λ completion.
        fail_if-Ensures IsGuestPolicy _ _ _ λ upload.
          fail_if-Ensures IsGuestPolicy _ _ _ λ image_upload.
            fail_if-Ensures IsGuestPolicy _ _ _ λ uploads.
              fail_if-Ensures IsGuestPolicy _ _ _ λ files.
                fail_if-Ensures IsGuestPolicy _ _ _ λ bytes.
                  fail_if-Ensures IsGuestPolicy _ _ _ λ attachments.
                    fail_if-Ensures IsGuestPolicy _ _ _ λ retention.
                      fail_if-Ensures IsGuestPolicy _ _ _ λ images.
                        fail_if-Ensures IsGuestPolicy _ _ _ λ documents.
                          fail_if-Ensures IsGuestPolicy _ _ _ λ document_bytes.
                            fail_if-Ensures IsGuestPolicy _ _ _ λ image_bytes.
                              >>=-Ensures
                                (λ _.
                                  IsGuestInterval (or_text p.interval_kind "day")
                                    p.interval_seconds)
                                IsGuestPolicy
                                (check_guest_interval (or_text p.interval_kind "day")
                                  p.interval_seconds)
                                (λ _. ok (with_guest_defaults p))
                                (check_guest_interval-Ensures (or_text p.interval_kind "day")
                                  p.interval_seconds)
                                λ _ interval. record {
                                  mode = mode_lem p.quota_mode mode;
                                  tokens = not_negative _ tokens;
                                  requests = inside _ _ requests;
                                  pause = inside _ _ pause;
                                  completion = inside_from_one _ _ completion;
                                  upload = inside _ _ upload;
                                  image_upload = inside _ _ image_upload;
                                  uploads = inside _ _ uploads;
                                  files = inside _ _ files;
                                  bytes = inside _ _ bytes;
                                  attachments = inside _ _ attachments;
                                  retention = inside_from_one _ _ retention;
                                  images = inside _ _ images;
                                  documents = inside _ _ documents;
                                  document_bytes = inside _ _ document_bytes;
                                  image_bytes = inside _ _ image_bytes;
                                  interval = interval;
                                  model = model_lem (trim_space p.fast_model);
                                }

-- A guest policy that is accepted has the mode "limited" or "unlimited", one of the seven kinds of
-- interval, a positive span if the kind is "rolling" or "custom", a model, and every limit between
-- the least and the greatest number that the platform allows.
pub validate_guest_access_policy-IsGuestPolicy :
    (p q : GuestAccessPolicy) → validate_guest_access_policy p ≡ ok q → IsGuestPolicy q
validate_guest_access_policy-IsGuestPolicy p q h = Ensures_ok IsGuestPolicy (validate-Ensures p) h

-- The default guest policy is accepted as it is.
pub default_guest_access_policy-accepted :
    validate_guest_access_policy default_guest_access_policy ≡ ok default_guest_access_policy
unfolding validate_guest_access_policy default_guest_access_policy with_guest_defaults
    is_bad_guest_mode check_guest_interval trim_space
default_guest_access_policy-accepted = refl
