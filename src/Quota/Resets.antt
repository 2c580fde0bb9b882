-- ===== src/Quota/Resets.antt =====
-- internal/store/quota_resets.go: grants of quota resets, their redemption, and resets by an
-- administrator. The tables are lists of rows; a statement or a transaction runs as one step. Which
-- statements the database answers, which rows other transactions hold, and how it rounds a time
-- are parameters. The numbers that a sequence skips after a failure are not modelled.
pub mod Account
pub mod History
pub mod Order
pub mod Redeemed
use daiki_aipass_backend.Prelude.{
  ℕ, suc, String, Option, none, some, Bool, true, false, not, ◌&&◌, ◌||◌, List, [], ◌∷◌, ◌++◌, map,
  str_eq, ltb, ◌==◌, if◌then◌else◌, Result, ok, err, fail_if, ◌>>=◌, ◌>>◌,
}
use daiki_aipass_backend.Prelude.Int.{ℤ, pos, is_pos, ltb_ℤ, eqb_ℤ, ◌+ℤ◌, ◌-ℤ◌}
use daiki_aipass_backend.Quota.Evaluate.{QuotaResetGrant, QuotaResetStatus}

pub record QuotaResetEvent : Type 0 where
  pub id : ℤ
  pub user_subject : String
  pub grant_id : Option ℤ
  pub reset_kind : String
  pub actor_subject : String
  pub reset_at : ℕ
  pub note : String

-- What a row of access_audit_log says has changed.
pub data Change : Type 0 where
  granted : QuotaResetGrant → Change
  administered : QuotaResetEvent → Change
  consumed : (grant_id before after : ℤ) (reset_at : ℕ) → Change

pub record AuditEntry : Type 0 where
  pub actor_subject : String
  pub action : String
  pub target_id : String
  pub change : Change

-- app_users, quota_reset_grants, quota_reset_events and access_audit_log, with the next ids.
pub record Tables : Type 0 where
  pub users : List String
  pub grants : List QuotaResetGrant
  pub next_grant : ℕ
  pub events : List QuotaResetEvent
  pub next_event : ℕ
  pub audit : List AuditEntry

pub has_user : String → List String → Bool
has_user subject [] = false
has_user subject (u ∷ us) = str_eq u subject || has_user subject us

-- The audit's insert is made at its best: its error is dropped.
abbrev with_audit : Bool → AuditEntry → Tables → Tables
with_audit works entry db = if works then record db { audit = db.audit ++ entry ∷ [] } else db

abbrev pub new_grant : ℕ → Tables → String → String → ℤ → ℕ → String → QuotaResetGrant
new_grant created db actor subject count expires note = record {
  id = pos db.next_grant;
  user_subject = subject;
  total_resets = count;
  remaining_resets = count;
  expires_at = expires;
  note = note;
  created_by = actor;
  created_at = created;
}

abbrev insert_grant : QuotaResetGrant → Tables → Tables
insert_grant x db = record db { grants = db.grants ++ x ∷ []; next_grant = suc db.next_grant }

-- GrantQuotaResets at the instant `now` of the server, `created` of the database, which keeps the
-- time `stored t` for `t`.
unfoldable pub grant_quota_resets :
    (ℕ → ℕ)
    → (inserts audits : Bool) (now created : ℕ) → Tables
    → (actor subject : String) (count : ℤ) (expires_at : ℕ) (note : String)
    → Tables × Result QuotaResetGrant
unfolding has_user
grant_quota_resets stored inserts audits now created db actor subject count expires_at note =
    if not (is_pos count) || ltb_ℤ (pos 1000) count
    then (db, err "reset count must be between 1 and 1000")
    else if not (ltb now expires_at)
    then (db, err "reset expiry must be in the future")
    else if not inserts
    then (db, err "database error")
    else if not (has_user subject db.users)
    then (db, err "no rows in result set")
    else let x = new_grant created db actor subject count (stored expires_at) note in
      (
        with_audit audits
            (record {
              actor_subject = actor;
              action = "quota.reset.grant";
              target_id = subject;
              change = granted x;
            })
            (insert_grant x db),
        ok x,
      )

abbrev pub new_event : ℕ → Tables → String → Option ℤ → String → String → String → QuotaResetEvent
new_event at db subject grant kind actor note = record {
  id = pos db.next_event;
  user_subject = subject;
  grant_id = grant;
  reset_kind = kind;
  actor_subject = actor;
  reset_at = at;
  note = note;
}

abbrev insert_event : QuotaResetEvent → Tables → Tables
insert_event x db = record db { events = db.events ++ x ∷ []; next_event = suc db.next_event }

-- AdminResetQuota
unfoldable pub admin_reset_quota :
    (inserts audits : Bool) (at : ℕ)
    → Tables
    → (actor subject note : String) → Tables × Result QuotaResetEvent
unfolding has_user
admin_reset_quota inserts audits at db actor subject note =
    if not inserts
    then (db, err "database error")
    else if not (has_user subject db.users)
    then (db, err "no rows in result set")
    else let x = new_event at db subject none "admin" actor note in
      (
        with_audit audits
            (record {
              actor_subject = actor;
              action = "quota.reset.admin";
              target_id = subject;
              change = administered x;
            })
            (insert_event x db),
        ok x,
      )

-- `user_subject=$1 AND remaining_resets>0 AND expires_at>now()`
abbrev pub is_available : ℕ → String → QuotaResetGrant → Bool
is_available now subject g =
    str_eq g.user_subject subject && is_pos g.remaining_resets && ltb now g.expires_at

abbrev pub grants_where : (QuotaResetGrant → Bool) → List QuotaResetGrant → List QuotaResetGrant
grants_where test [] = []
grants_where test (g ∷ gs) = if test g then g ∷ grants_where test gs else grants_where test gs

-- `ORDER BY expires_at ASC,id ASC`
abbrev pub comes_first : QuotaResetGrant → QuotaResetGrant → Bool
comes_first a b =
    ltb a.expires_at b.expires_at || ((a.expires_at == b.expires_at) && ltb_ℤ a.id b.id)

abbrev pub insert_ordered : QuotaResetGrant → List QuotaResetGrant → List QuotaResetGrant
insert_ordered g [] = g ∷ []
insert_ordered g (h ∷ hs) = if comes_first h g then h ∷ insert_ordered g hs else g ∷ h ∷ hs

abbrev pub ordered : List QuotaResetGrant → List QuotaResetGrant
ordered [] = []
ordered (g ∷ gs) = insert_ordered g (ordered gs)

-- `max(reset_at)` of the events of a subject.
last_reset : String → List QuotaResetEvent → Option ℕ
last_reset subject [] = none
last_reset subject (e ∷ es) =
    let later = last_reset subject es in
    if str_eq e.user_subject subject
    then elim later [
      | none ↦ some e.reset_at
      | some t ↦ some (if ltb e.reset_at t then t else e.reset_at)
    ]
    else later

abbrev is_before : ℕ → Option ℕ → Bool
is_before t none = true
is_before t (some best) = ltb t best

abbrev pub add_grant : QuotaResetStatus → QuotaResetGrant → QuotaResetStatus
add_grant out x = record out {
  grants = out.grants ++ x ∷ [];
  available = out.available +ℤ x.remaining_resets;
  next_expiry =
      if is_before x.expires_at out.next_expiry then some x.expires_at else out.next_expiry;
}

abbrev pub add_grants : QuotaResetStatus → List QuotaResetGrant → QuotaResetStatus
add_grants out [] = out
add_grants out (x ∷ xs) = add_grants (add_grant out x) xs

abbrev pub no_grants : QuotaResetStatus
no_grants = record { available = pos 0; next_expiry = none; last_reset_at = none; grants = [] }

-- QuotaResetStatus
unfoldable pub quota_reset_status :
    (reads_grants reads_events : Bool) (now : ℕ) → Tables → String → Result QuotaResetStatus
unfolding last_reset
quota_reset_status reads_grants reads_events now db subject =
    if not reads_grants || not reads_events
    then err "database error"
    else ok
        (record (add_grants no_grants
          (ordered (grants_where (is_available now subject) db.grants))) {
            last_reset_at = last_reset subject db.events;
          })

-- LatestQuotaResetAt
unfoldable pub latest_quota_reset_at : Bool → Tables → String → Result (Option ℕ)
unfolding last_reset
latest_quota_reset_at reads db subject =
    if reads then ok (last_reset subject db.events) else err "database error"

-- Which statements of a redemption the database answers.
pub record Statements : Type 0 where
  pub begins : Bool
  pub selects : Bool
  pub updates : Bool
  pub inserts : Bool
  pub audits : Bool
  pub commits : Bool

-- `SET remaining_resets=remaining_resets-1 WHERE id=$1 AND remaining_resets>0`
abbrev pub is_taken : ℤ → QuotaResetGrant → Bool
is_taken id g = eqb_ℤ g.id id && is_pos g.remaining_resets

abbrev pub take_reset : ℤ → QuotaResetGrant → QuotaResetGrant
take_reset id g =
    if is_taken id g then record g { remaining_resets = g.remaining_resets -ℤ pos 1 } else g

abbrev pub first_of : List QuotaResetGrant → Result QuotaResetGrant
first_of [] = err "no rows in result set"
first_of (g ∷ gs) = ok g

-- The rows that no other transaction has locked.
abbrev pub redeemable : (ℤ → Bool) → ℕ → String → Tables → List QuotaResetGrant
redeemable locked now subject db =
    ordered (grants_where (λ g. is_available now subject g && not (locked g.id)) db.grants)

abbrev pub credit_event : ℕ → Tables → String → ℤ → QuotaResetEvent
credit_event now db subject id =
    new_event now db subject (some id) "credit" subject "User redeemed quota reset credit"

abbrev pub consumption : ℕ → String → ℤ → ℤ → ℤ → AuditEntry
consumption at subject id before after = record {
  actor_subject = subject;
  action = "quota.reset.consume";
  target_id = subject;
  change = consumed id before after at;
}

abbrev pub redeemed : ℕ → Tables → String → QuotaResetGrant → QuotaResetGrant → Tables
redeemed now db subject g taken = record (insert_event (credit_event now db subject g.id) db) {
  grants = map (take_reset g.id) db.grants;
  audit = db.audit ++ consumption now subject g.id g.remaining_resets taken.remaining_resets ∷ [];
}

-- The update of the grant, the event, the audit and the commit.
abbrev pub complete :
    Statements → ℕ → Tables → String → QuotaResetGrant → Result (Tables × QuotaResetEvent)
complete answers now db subject g = do
  fail_if (not answers.updates) "database error"
  taken ← first_of (map (take_reset g.id) (grants_where (is_taken g.id) db.grants))
  fail_if (not (answers.inserts && answers.audits && answers.commits)) "database error"
  ok (redeemed now db subject g taken, credit_event now db subject g.id)

-- The statements of one redemption; nothing of it stays if one of them fails.
abbrev pub redemption :
    (ℤ → Bool) → Statements → ℕ → Tables → String → Result (Tables × QuotaResetEvent)
redemption locked answers now db subject = do
  fail_if (not (answers.begins && answers.selects)) "database error"
  g ← first_of (redeemable locked now subject db)
  complete answers now db subject g

-- The deferred Rollback undoes what a transaction that fails has done.
abbrev pub or_rollback :
    Tables → Result (Tables × QuotaResetEvent) → Tables × Result QuotaResetEvent
or_rollback db (err e) = (db, err e)
or_rollback db (ok (after, x)) = (after, ok x)

-- UseQuotaResetCredit
unfoldable pub use_quota_reset_credit :
    (ℤ → Bool) → Statements → ℕ → Tables → String → Tables × Result QuotaResetEvent
use_quota_reset_credit locked answers now db subject =
    or_rollback db (redemption locked answers now db subject)
