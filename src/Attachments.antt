-- ===== src/Attachments.antt =====
-- cmd/api/attachments.go: attachmentPolicyLimit, attachmentCountLimit and enforceAttachmentUploadRate.
pub mod Rate
use Prim.Native.String
use daiki_aipass_backend.Prelude.{
  String, Bool, true, false, not, ◌||◌, if◌then◌else◌, Result, ok, err,
}
use daiki_aipass_backend.Prelude.Int.{ℤ, pos, is_pos, ltb_ℤ, eqb_ℤ}
use daiki_aipass_backend.Redis.{Counters, or_zero}

-- Both functions: what is configured, within the platform's hard limit, which 0 stands for.
unfoldable pub attachment_limit : ℤ → ℤ → ℤ
attachment_limit configured hard =
    if not (is_pos configured) || ltb_ℤ hard configured then hard else configured

module _ (redis : Counters) where
  open redis use {Db, get, incr_by, expire}

  abbrev pub upload_key : String → String
  upload_key subject = String.◌++◌ "attachment-upload:hour:user:" subject

  -- INCR, and EXPIRE where it replies 1.
  unfoldable pub count_upload : Db → String → Db
  count_upload d key =
      let e = incr_by d key (pos 1) in
      if eqb_ℤ (or_zero (get e key)) (pos 1) then expire e key 3600 else e

  -- `configured` tells whether there is Redis, and `reached` whether INCR reaches it.
  unfoldable pub enforce_attachment_upload_rate :
      Bool → Bool → Db → String → ℤ → Db × Result (Unit {0})
  enforce_attachment_upload_rate configured reached d subject limit =
      let counted = count_upload d (upload_key subject) in
      if eqb_ℤ limit (pos 0)
      then (d, ok tt)
      else if not configured
      then (d, err "attachment upload limiter unavailable")
      else if not reached
      then (d, err "redis unavailable")
      else if ltb_ℤ limit (or_zero (get counted (upload_key subject)))
      then (counted, err "attachment upload rate exceeded")
      else (counted, ok tt)
