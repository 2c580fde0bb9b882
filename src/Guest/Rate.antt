-- ===== src/Guest/Rate.antt =====
-- cmd/api/guest.go: guestRateRetryAfter and enforceGuestRate. The parameter `ttl` is the reply of the
-- TTL command; `now` is in seconds since 1970, and what is returned as well.
pub mod Agreement
use Prim.Native.String
use daiki_aipass_backend.Prelude.{
  ℕ, String, Option, none, some, Bool, true, false, not, ◌&&◌, ◌||◌, str_eq, if◌then◌else◌, Result,
  ok, err,
}
use daiki_aipass_backend.Prelude.Int.{
  ℤ, pos, negsuc, is_pos, is_neg, ltb_ℤ, leb_ℤ, eqb_ℤ, neg, ◌-ℤ◌, max_ℤ,
}
use daiki_aipass_backend.Redis.{Counters, or_zero}

abbrev pub hour_key : String → String
hour_key subject = String.◌++◌ "guest-chat:hour:" subject

abbrev pub last_key : String → String
last_key subject = String.◌++◌ "guest-chat:last:" subject

-- What is left of the least gap between requests; 0 if it is over.
unfoldable pub gap_left : ℤ → ℤ → ℤ → ℤ
gap_left now min_gap last =
    if is_pos min_gap && is_pos last && ltb_ℤ (now -ℤ last) min_gap
    then min_gap -ℤ (now -ℤ last)
    else pos 0

-- Whether the requests of the hour are used up.
abbrev pub is_spent : ℤ → ℤ → Bool
is_spent hourly count = is_pos hourly && leb_ℤ hourly count

-- The seconds until the hour is over, an hour if the key has no expiry.
abbrev pub hour_left : ℤ → ℤ
hour_left ttl = if ltb_ℤ ttl (pos 1) then pos 3600 else ttl

module _ (redis : Counters) (ttl : redis.Db → String → ℤ) where
  open redis use {Db, get, set, incr_by, expire}

  -- The script of guestRateRetryAfter.
  unfoldable pub check_script : Db → String → ℤ → ℤ → ℤ → ℤ
  check_script d subject now min_gap hourly =
      let wait = gap_left now min_gap (or_zero (get d (last_key subject))) in
      let left = hour_left (ttl d (hour_key subject)) in
      if is_spent hourly (or_zero (get d (hour_key subject)))
      then (if ltb_ℤ wait left then left else wait)
      else wait

  -- INCR and EXPIRE of the hour's key.
  unfoldable pub count_request : Db → String → Db
  count_request d key =
      let e = incr_by d key (pos 1) in
      if eqb_ℤ (or_zero (get e key)) (pos 1) then expire e key 3600 else e

  -- The end of the script of enforceGuestRate, where the request is let through.
  unfoldable pub let_through : Db → String → ℤ → ℤ → ℤ → Db × ℤ
  let_through d subject now min_gap hourly =
      let counted = if is_pos hourly then count_request d (hour_key subject) else d in
      let noted = if is_pos min_gap then set counted (last_key subject) now else counted in
      (noted, or_zero (get counted (hour_key subject)))

  unfoldable pub enforce_script : Db → String → ℤ → ℤ → ℤ → Db × ℤ
  enforce_script d subject now min_gap hourly =
      let gap = gap_left now min_gap (or_zero (get d (last_key subject))) in
      if is_pos gap
      then (d, neg gap)
      else if is_spent hourly (or_zero (get d (hour_key subject)))
      then (d, neg (hour_left (ttl d (hour_key subject))))
      else let_through d subject now min_gap hourly

  -- `p.RequestsPerHour == 0 && p.MinIntervalSeconds == 0`
  abbrev pub is_unlimited : ℤ → ℤ → Bool
  is_unlimited min_gap hourly = eqb_ℤ hourly (pos 0) && eqb_ℤ min_gap (pos 0)

  -- The wait in seconds. `configured` tells whether there is Redis, and `reached` whether the script
  -- reaches it.
  unfoldable pub guest_rate_retry_after : Bool → Bool → Db → String → ℤ → ℤ → ℤ → Result ℤ
  guest_rate_retry_after configured reached d subject now min_gap hourly =
      let wait = check_script d subject now min_gap hourly in
      if is_unlimited min_gap hourly
      then ok (pos 0)
      else if not configured
      then err "guest rate limiter unavailable"
      else if not reached
      then err "redis unavailable"
      else if not (is_pos wait)
      then ok (pos 0)
      else ok wait

  -- The wait of a request that is refused, none for one that is let through, or why it failed.
  unfoldable pub enforce_guest_rate : Bool → Bool → Db → String → ℤ → ℤ → ℤ → Db × Result (Option ℤ)
  enforce_guest_rate configured reached d subject now min_gap hourly =
      let ran = enforce_script d subject now min_gap hourly in
      if is_unlimited min_gap hourly
      then (d, ok none)
      else if not configured
      then (d, err "guest rate limiter unavailable")
      else if not reached
      then (d, err "redis unavailable")
      else (ran.0, ok (if is_neg ran.1 then some (neg ran.1) else none))
