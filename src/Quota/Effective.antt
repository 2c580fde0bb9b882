-- ===== src/Quota/Effective.antt =====
-- The policy that governs a user, and what a user with pending approval may ask: effectiveUserQuota,
-- userQuotaSnapshot, quotaFor, pendingQuotaPolicy, restrictPendingChat and enforcePendingChatRate of
-- cmd/api/access.go.
pub mod Pending
use Prim.Native.String
use daiki_aipass_backend.Prelude.{
  ℕ, String, Option, some, none, Bool, true, false, not, ◌&&◌, ◌||◌, str_eq, if◌then◌else◌,
  contains, List, [], ◌∷◌, Result, err, ok, ◌>>=◌, decoded, absent,
}
use daiki_aipass_backend.Prelude.Int.{
  ℤ, pos, negsuc, is_pos, is_neg, ltb_ℤ, leb_ℤ, eqb_ℤ, neg, ◌-ℤ◌,
}
use daiki_aipass_backend.Redis.{Counters, or_zero}
use daiki_aipass_backend.Quota.Policy.{Policy}
use daiki_aipass_backend.Quota.Evaluate.{Ledger, QuotaDecision, Usage, evaluate_quota}
use daiki_aipass_backend.Access.{Identity, Config, roles}
use daiki_aipass_backend.Payload.{Json, Members, object, text, number, nil, member, close, Codec}
use daiki_aipass_backend.Runtime.Context.{map_of, set_member}

-- The settings of pending chats.
pub record PendingConfig : Type 0 where
  pub token_limit : ℤ
  pub requests_per_hour : ℤ
  pub min_interval_seconds : ℤ
  -- The number as it is written.
  pub max_completion_tokens : String

-- What the store answers.
pub record Policies : Type 0 where
  pub user_policy_override : String → Result (Option Policy)
  -- The status and the roles of a user.
  pub user_of : String → Result (String × List String)
  pub policy_for_user : String → List String → Result Policy
  pub policy_for_principal : String → String → List String → Result Policy

-- pendingQuotaPolicy
unfoldable pub pending_quota_policy : PendingConfig → Policy
pending_quota_policy cfg = record {
  id = pos 0;
  scope_type = "user";
  scope_id = "pending-chat";
  quota_mode = "limited";
  token_limit = some cfg.token_limit;
  interval_kind = "day";
  interval_count = pos 0;
  interval_seconds = none;
  parallel_limits = absent;
  resource_limits = absent;
  priority = pos 0;
  allowed_models = decoded ("fast" ∷ []);
  effective_from = 0;
  expires_at = none;
}

module _ (cfg : PendingConfig) (store : Policies) where
  abbrev policy_of_user : String → String × List String → Result (Policy × Bool)
  policy_of_user subject (status, user_roles) =
      if str_eq status "pending"
      then ok (pending_quota_policy cfg, false)
      else store.policy_for_user subject user_roles >>= (λ p. ok (p, false))

  abbrev override_or : String → Option Policy → Result (Policy × Bool)
  override_or subject (some p) = ok (p, true)
  override_or subject none = store.user_of subject >>= policy_of_user subject

  -- effectiveUserQuota
  unfoldable pub effective_user_quota : String → Result (Policy × Bool)
  unfolding pending_quota_policy
  effective_user_quota subject = store.user_policy_override subject >>= override_or subject

  module _ (ledger : Ledger) (now : ℕ) where
    -- userQuotaSnapshot
    unfoldable pub user_quota_snapshot : String → Result (QuotaDecision × Policy × Usage)
    unfolding effective_user_quota evaluate_quota
    user_quota_snapshot subject =
        effective_user_quota subject
        >>= (λ p. evaluate_quota ledger now subject "" p.0 false >>= (λ d. ok (d.0, p.0, d.1)))

    abbrev decide : String → String → Bool → Policy → Result (QuotaDecision × Policy)
    decide subject key count_as_api_key p =
        evaluate_quota ledger now subject key p count_as_api_key >>= (λ d. ok (d.0, p))

    abbrev or_pending : Option Policy → Policy
    or_pending (some p) = p
    or_pending none = pending_quota_policy cfg

    -- quotaFor
    unfoldable pub quota_for : Config → Identity → Result (QuotaDecision × Policy)
    unfolding evaluate_quota pending_quota_policy roles
    quota_for config i =
        let subject = i.claims.sub in
        let key = i.principal.api_key_id in
        if str_eq i.user.status "pending"
        then store.user_policy_override subject >>= (λ o. decide subject "" false (or_pending o))
        else store.policy_for_principal subject key (roles i.claims config.client_id)
          >>= (λ p. decide subject key (str_eq p.scope_type "api_key" && not (str_eq key "")) p)

-- `delete(payload, key)`
unfoldable pub delete_member : Members → String → Members
delete_member close key = close
delete_member (member k v ms) key =
    let rest = delete_member ms key in if str_eq k key then rest else member k v rest

-- The payload of a pending chat.
unfoldable pub restricted : PendingConfig → Members → Members
unfolding delete_member set_member
restricted cfg ms =
    set_member (delete_member (set_member ms "model" (text "fast")) "max_tokens")
      "max_completion_tokens" (number cfg.max_completion_tokens)

-- restrictPendingChat sends a payload on or returns an error; or it panics.
pub data PendingChat : Type 0 where
  sent : Json → PendingChat
  refused : String → PendingChat
  panics : PendingChat

abbrev pub has_image_part : String → Bool
has_image_part body = contains body "\"image_url\"" || contains body "\"input_image\""

-- The payload of a pending chat, of what Unmarshal makes of the body: an error for what is no map,
-- and for the JSON text `null` a nil map without an error, to which the code then assigns.
abbrev pub restrict_payload : PendingConfig → Bool → Option Json → PendingChat
restrict_payload cfg image (some (object ms)) =
    if image
    then refused "pending accounts support text chat only"
    else sent (object (restricted cfg ms))
restrict_payload cfg image (some nil) =
    if image then refused "pending accounts support text chat only" else panics
restrict_payload cfg image _ = refused "invalid chat payload"

-- restrictPendingChat, before Marshal.
unfoldable pub restrict_pending_chat : PendingConfig → Codec → String → PendingChat
unfolding restricted contains
restrict_pending_chat cfg c body = restrict_payload cfg (has_image_part body) (c.decode body)

abbrev pub pending_hour_key : String → String
pending_hour_key subject = String.◌++◌ "pending-chat:hour:" subject

abbrev pub pending_last_key : String → String
pending_last_key subject = String.◌++◌ "pending-chat:last:" subject

module _ (redis : Counters) (ttl : redis.Db → String → ℤ) where
  open redis use {Db, get, set, incr_by, expire}

  abbrev count_pending : Db → String → Db
  count_pending d key =
      let e = incr_by d key (pos 1) in
      if eqb_ℤ (or_zero (get e key)) (pos 1) then expire e key 3600 else e

  abbrev seconds_left : ℤ → ℤ
  seconds_left t = if ltb_ℤ t (pos 1) then pos 3600 else t

  -- The script of enforcePendingChatRate; SET with an expiry is SET and EXPIRE.
  unfoldable pub pending_script : Db → String → ℤ → ℤ → ℤ → Db × ℤ
  unfolding ◌-ℤ◌ neg
  pending_script d subject now min_gap hourly =
      let last = or_zero (get d (pending_last_key subject)) in
      let count = or_zero (get d (pending_hour_key subject)) in
      let counted = count_pending d (pending_hour_key subject) in
      let noted =
        expire (set counted (pending_last_key subject) now) (pending_last_key subject) 3600 in
      if is_pos last && ltb_ℤ (now -ℤ last) min_gap
      then (d, neg (min_gap -ℤ (now -ℤ last)))
      else if leb_ℤ hourly count
      then (d, neg (seconds_left (ttl d (pending_hour_key subject))))
      else (noted, or_zero (get counted (pending_hour_key subject)))

  -- enforcePendingChatRate with a Redis that is configured; the result is the wait in seconds.
  unfoldable pub enforce_pending_chat_rate : PendingConfig → Db → String → ℤ → Db × Option ℤ
  unfolding pending_script neg
  enforce_pending_chat_rate cfg d subject now =
      let r = pending_script d subject now cfg.min_interval_seconds cfg.requests_per_hour in
      if is_neg r.1 then (r.0, some (neg r.1)) else (r.0, none)
