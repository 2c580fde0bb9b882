-- ===== src/Guest/Policy/Accepted.antt =====
-- Which guest policies validateGuestAccessPolicy (Guest/Policy) accepts.
use daiki_aipass_backend.Prelude.{
  ℕ, ◌≡◌, refl, ◌⊎◌, inl, inr, String, Option, none, some, false, not, ◌&&◌, str_eq, eq_iff,
  trim_space, ok, arith, Bool-cases, false_ne_true, subst,
}
use daiki_aipass_backend.Prelude.Int.{ℤ, pos, is_neg, ◌≤ℤ◌}
use daiki_aipass_backend.Quota.Policy.{missing_or_not_positive}
use daiki_aipass_backend.Guest.Policy.{
  GuestAccessPolicy, outside, outside_from_one, or_text, is_calendar_kind, is_span_kind,
  with_guest_defaults, is_bad_guest_mode, check_guest_interval, validate_guest_access_policy,
}
use daiki_aipass_backend.Guest.Policy.Valid.{IsBetween, IsSpan, IsGuestInterval, IsGuestPolicy}

not_outside : (top : ℕ) (x : ℤ) → IsBetween 0 top x → outside x top ≡ false
not_outside top x h = ground arith

not_outside_from_one : (top : ℕ) (x : ℤ) → IsBetween 1 top x → outside_from_one x top ≡ false
not_outside_from_one top x h = ground arith

not_below : (x : ℤ) → pos 0 ≤ℤ x → is_neg x ≡ false
not_below x h = ground arith

not_missing : (seconds : Option ℤ) → IsSpan seconds → missing_or_not_positive seconds ≡ false
not_missing none h = elim h [ ]
not_missing (some x) h = ground arith

mode_kept :
    (mode : String)
    → (mode ≡ "limited") ⊎ (mode ≡ "unlimited")
    → (or_text mode "limited" ≡ mode)
      × ((not (str_eq mode "limited") && not (str_eq mode "unlimited")) ≡ false)
mode_kept mode (inl e) = rw e (refl, refl)
mode_kept mode (inr e) = rw e (refl, refl)

interval_kept :
    (kind : String) (seconds : Option ℤ)
    → IsGuestInterval kind seconds
    → (or_text kind "day" ≡ kind) × (check_guest_interval kind seconds ≡ ok tt)
unfolding check_guest_interval
interval_kept kind seconds (known, span) =
    let missing : (is_span_kind kind && missing_or_not_positive seconds) ≡ false =
      elim (Bool-cases (is_span_kind kind)) [
        | inl e ↦ rw (e, not_missing seconds (span e)) refl
        | inr e ↦ rw e refl
      ] in
    let unknown : (not (is_calendar_kind kind) && not (is_span_kind kind)) ≡ false = ground arith in
    let given : or_text kind "day" ≡ kind = elim (Bool-cases (str_eq kind "")) [
      | inl e ↦
          let empty : kind ≡ "" = (eq_iff kind "").0 e in
          absurd (false_ne_true (subst (λ k. IsGuestInterval k seconds) empty (known, span)).0)
      | inr e ↦ rw e refl
    ] in
    (given, rw (missing, unknown) refl)

model_kept :
    (name : String)
    → str_eq name "" ≡ false
    → trim_space name ≡ name
    → or_text (trim_space name) "fast" ≡ name
model_kept name h e = rw (e, h) refl

-- A guest policy that lies within every range, and whose model has no white space around it, is
-- accepted as it is.
pub validate_guest_access_policy-accepts :
    (p : GuestAccessPolicy)
    → IsGuestPolicy p
    → trim_space p.fast_model ≡ p.fast_model
    → validate_guest_access_policy p ≡ ok p
unfolding validate_guest_access_policy with_guest_defaults is_bad_guest_mode
validate_guest_access_policy-accepts p v e =
    let (mode, known) = mode_kept p.quota_mode v.mode in
    let (kind, checked) = interval_kept p.interval_kind p.interval_seconds v.interval in
    rw
      (
        mode,
        known,
        not_below p.token_limit v.tokens,
        not_outside 10_000 p.requests_per_hour v.requests,
        not_outside 3600 p.min_interval_seconds v.pause,
        not_outside_from_one 8192 p.max_completion_tokens v.completion,
        not_outside 104_857_600 p.max_upload_bytes v.upload,
        not_outside 4_194_304 p.max_image_upload_bytes v.image_upload,
        not_outside 1000 p.max_uploads_per_hour v.uploads,
        not_outside 1000 p.max_stored_files v.files,
        not_outside 2_147_483_648 p.max_stored_bytes v.bytes,
        not_outside 10 p.max_attachments_per_message v.attachments,
        not_outside_from_one 720 p.attachment_retention_hours v.retention,
        not_outside 1000 p.image_generations_per_day v.images,
        not_outside 1000 p.file_generations_per_day v.documents,
        not_outside 26_214_400 p.max_generated_file_bytes v.document_bytes,
        not_outside 4_194_304 p.max_generated_image_bytes v.image_bytes,
        kind,
        checked,
        model_kept p.fast_model v.model e,
      )
      refl
