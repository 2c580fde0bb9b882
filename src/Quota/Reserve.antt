-- ===== src/Quota/Reserve.antt =====
-- cmd/api/access.go: quotaRuntimeKeys, and the Lua scripts of reserveQuota and releaseReservation.
-- A script's numbers are Lua numbers, exact up to 2^53; token counts stay below.
pub mod Locality
pub mod Headroom
pub mod Restore
use Prim.Native.String
use daiki_aipass_backend.Prelude.{
  ℕ, ◌-◌, ◌/◌, String, Option, none, some, Bool, true, false, ◌||◌, List, [], ◌∷◌, map, str_eq, not,
  ◌+◌, if◌then◌else◌, decimal, Result, ok, err,
}
use daiki_aipass_backend.Prelude.Int.{ℤ, pos, negsuc, is_pos, is_neg, sub_ℕ, min_ℤ, ◌-ℤ◌}
use daiki_aipass_backend.Redis.{Counters, or_zero}
use daiki_aipass_backend.Quota.Window.{second, unix_epoch}
use daiki_aipass_backend.Quota.Evaluate.{QuotaDecision, QuotaLimitDecision, is_none}

infixr 65 ◌+++◌
abbrev ◌+++◌ : String → String → String
s +++ t = String.◌++◌ s t

-- `%d`
decimal_ℤ : ℤ → String
decimal_ℤ (pos n) = decimal n
decimal_ℤ (negsuc n) = "-" +++ decimal (n + 1)

-- Time.Unix
unix_seconds : ℕ → ℤ
unix_seconds t = sub_ℕ (t / second) (unix_epoch / second)

-- KEYS[i], KEYS[n+i] and the arguments of one window.
pub record Slot : Type 0 where
  pub pending_key : String
  pub reservation_key : String
  pub limit : ℤ
  pub durable : ℤ

quota_slot : QuotaDecision → String → QuotaLimitDecision → Slot
unfolding decimal_ℤ unix_seconds
quota_slot d request_id l = record {
  pending_key =
      "quota:pending:"
      +++ d.counter_key
      +++ ":"
      +++ l.id
      +++ ":"
      +++ decimal_ℤ (unix_seconds l.window_start);
  reservation_key = "quota:reservation:" +++ d.counter_key +++ ":" +++ l.id +++ ":" +++ request_id;
  limit = l.limit;
  durable = l.used;
}

-- The keys and arguments of both scripts, a slot for each limit.
unfoldable pub quota_slots : QuotaDecision → String → List Slot
unfolding quota_slot
quota_slots d request_id = map (quota_slot d request_id) d.limits

-- Whether `a.redis` is set, and whether a command reaches it.
pub data Link : Type 0 where
  not_configured unreachable up : Link

abbrev is_empty {ℓ} : {A : Type ℓ} → List A → Bool
is_empty [] = true
is_empty (_ ∷ _) = false

module _ (redis : Counters) where
  open redis use {Db, get, set, del, incr_by, expire}

  -- `lim - durable - pending`
  unfoldable pub headroom : Db → Slot → ℤ
  headroom d s = s.limit -ℤ s.durable -ℤ or_zero (get d s.pending_key)

  -- The first loop of reserveQuota's script: whether a window is full.
  unfoldable pub is_full : Db → List Slot → Bool
  is_full d [] = false
  is_full d (s ∷ ss) = not (is_pos (headroom d s)) || is_full d ss

  -- `for i=1,n do … end`
  unfoldable pub each_slot : (Db → Slot → Db) → Db → List Slot → Db
  each_slot round d [] = d
  each_slot round d (s ∷ ss) = each_slot round (round d s) ss

  -- A round of the second loop: INCRBY, EXPIRE, SET.
  unfoldable pub reserve_slot : ℤ → Db → Slot → Db
  reserve_slot amount d s =
      let share = min_ℤ amount (headroom d s) in
      set (expire (incr_by d s.pending_key share) s.pending_key 3600) s.reservation_key share

  -- The script returns 1 or -1.
  unfoldable pub reserve_script : Db → ℤ → List Slot → Db × ℤ
  reserve_script d amount ss =
      if is_full d ss then (d, negsuc 0) else (each_slot (reserve_slot amount) d ss, pos 1)

  after_script : Db × ℤ → Db × Result (Unit {0})
  after_script (d, v) = (d, if is_neg v then err "quota exhausted" else ok tt)

  run_reserve : Link → Db → ℤ → List Slot → Db × Result (Unit {0})
  run_reserve not_configured d amount ss = (d, ok tt)
  run_reserve unreachable d amount ss = (d, if is_empty ss then ok tt else err "redis unavailable")
  run_reserve up d amount ss =
      if is_empty ss then (d, ok tt) else after_script (reserve_script d amount ss)

  unfoldable pub reserve_quota : Link → Db → String → QuotaDecision → ℤ → Db × Result (Unit {0})
  unfolding after_script run_reserve
  reserve_quota link d request_id decision amount =
      if str_eq decision.mode "unlimited" || is_none decision.limit
      then (d, ok tt)
      else if decision.blocked
      then (d, err "quota exhausted")
      else run_reserve link d amount (quota_slots decision request_id)

  -- A round of releaseReservation's script.
  unfoldable pub release_slot : Db → Slot → Db
  release_slot d s =
      let amount = or_zero (get d s.reservation_key) in
      let next = or_zero (get d s.pending_key) -ℤ amount in
      del (if is_pos next then set d s.pending_key next else del d s.pending_key) s.reservation_key

  run_release : Link → Db → List Slot → Db
  run_release up d ss = each_slot release_slot d ss
  run_release _ d ss = d

  unfoldable pub release_reservation : Link → Db → String → QuotaDecision → Db
  unfolding run_release
  release_reservation link d request_id decision =
      if str_eq decision.mode "unlimited" || is_none decision.limit
      then d
      else run_release link d (quota_slots decision request_id)
