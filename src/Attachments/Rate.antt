-- ===== src/Attachments/Rate.antt =====
-- What the limits of Attachments guarantee.
use daiki_aipass_backend.Prelude.{
  ◌≡◌, refl, String, Bool, true, false, not, arith, Bool-cases, inl, inr, eq_refl, if_both, Result,
  ok, err,
}
use daiki_aipass_backend.Prelude.Int.{ℤ, pos, is_pos, ltb_ℤ, eqb_ℤ, ◌+ℤ◌, ◌≤ℤ◌}
use daiki_aipass_backend.Redis.{Counters, or_zero}
use daiki_aipass_backend.Attachments.{
  attachment_limit, upload_key, count_upload, enforce_attachment_upload_rate,
}

-- A limit in force is positive and at most the hard limit, which is positive; one that is configured
-- within it is kept.
pub attachment_limit-bounds :
    (configured hard : ℤ)
    → is_pos hard ≡ true
    → (is_pos (attachment_limit configured hard) ≡ true)
      × (attachment_limit configured hard ≤ℤ hard)
      × (is_pos configured ≡ true
          → configured ≤ℤ hard
          → attachment_limit configured hard ≡ configured)
unfolding attachment_limit
attachment_limit-bounds configured hard h = (ground arith, ground arith, λ k l. ground arith)

module _ (redis : Counters) where
  open redis use {Db, get, incr_by, expire, get-incr_by, get-expire}

  abbrev pub uploads : Db → String → ℤ
  uploads d subject = or_zero (get d (upload_key redis subject))

  abbrev pub is_ok : Result (Unit {0}) → Bool
  is_ok (ok _) = true
  is_ok (err _) = false

  counted_uploads :
      (d : Db) (subject : String)
      → uploads (count_upload redis d (upload_key redis subject)) subject
        ≡ uploads d subject +ℤ pos 1
  unfolding count_upload
  counted_uploads d subject =
      let key = upload_key redis subject in
      let e = incr_by d key (pos 1) in
      if_both (λ x. uploads x subject ≡ uploads d subject +ℤ pos 1)
        (eqb_ℤ (or_zero (get e key)) (pos 1))
        (rw (get-expire e key 3600 key (omega arith), get-incr_by, eq_refl))
        (rw (get-incr_by, eq_refl))

  -- With a limit other than 0 and Redis at hand, an upload is let through exactly if the uploads of
  -- the hour, this one included, stay within the limit; it is counted either way.
  pub enforce_attachment_upload_rate_iff :
      (d : Db) (subject : String) (limit : ℤ)
      → eqb_ℤ limit (pos 0) ≡ false
      → (uploads (enforce_attachment_upload_rate redis true true d subject limit).0 subject
          ≡ uploads d subject +ℤ pos 1)
        × (is_ok (enforce_attachment_upload_rate redis true true d subject limit).1
            ≡ not (ltb_ℤ limit (uploads d subject +ℤ pos 1)))
  unfolding enforce_attachment_upload_rate
  enforce_attachment_upload_rate_iff d subject limit set =
      elim (Bool-cases (ltb_ℤ limit (uploads d subject +ℤ pos 1))) [
        | inl e ↦
            rw (enforce_attachment_upload_rate, set, counted_uploads d subject, e)
              (counted_uploads d subject, refl)
        | inr e ↦
            rw (enforce_attachment_upload_rate, set, counted_uploads d subject, e)
              (counted_uploads d subject, refl)
      ]
