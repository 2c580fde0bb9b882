-- ===== src/Chats/Runs.antt =====
-- internal/store/chat_runs.go: the table of chat runs. A statement runs as one step on the list of
-- rows; `none` is pgx.ErrNoRows. `Activity` is a value of PostgreSQL's jsonb and `merge` its `||`.
pub mod Control
pub mod Execute
pub mod Requests
pub mod Kept
pub mod Isolated
pub mod Reached
pub mod Overlap
use daiki_aipass_backend.Prelude.{
  ℕ, String, Option, none, some, Bool, true, false, not, ◌&&◌, ◌||◌, List, [], ◌∷◌, ◌++◌, map,
  str_eq, ltb, if◌then◌else◌, Result, ok, err,
}

-- The statuses that the table's CHECK allows.
pub data RunStatus : Type 0 where
  queued : RunStatus
  running : RunStatus
  paused : RunStatus
  completed : RunStatus
  failed : RunStatus
  cancelled : RunStatus

pub record ChatRun (Activity : Type 0) : Type 0 where
  pub id : String
  pub session_id : String
  pub owner_subject : String
  pub status : RunStatus
  pub research_mode : String
  pub thinking_mode : String
  pub command_mode : String
  pub command_skills : List String
  pub request_id : String
  pub content : String
  pub error : String
  pub activity : Activity
  pub created_at : ℕ
  pub started_at : Option ℕ
  pub completed_at : Option ℕ
  pub updated_at : ℕ

-- What chat_sessions says of a session that the runs depend on.
pub record ChatSession : Type 0 where
  pub id : String
  pub owner_subject : String

abbrev pub is_active : RunStatus → Bool
is_active queued = true
is_active running = true
is_active paused = true
is_active _ = false

-- `status IN ('queued','running')`
abbrev pub is_in_progress : RunStatus → Bool
is_in_progress queued = true
is_in_progress running = true
is_in_progress _ = false

-- The statuses that SetChatRunStatus accepts.
abbrev pub is_settable : RunStatus → Bool
is_settable completed = false
is_settable failed = false
is_settable _ = true

abbrev is_running : RunStatus → Bool
is_running running = true
is_running _ = false

abbrev is_cancelled : RunStatus → Bool
is_cancelled cancelled = true
is_cancelled _ = false

-- COALESCE(t, now)
abbrev or_now : ℕ → Option ℕ → Option ℕ
or_now now none = some now
or_now now (some t) = some t

abbrev pub has_session : String → String → List ChatSession → Bool
has_session id owner [] = false
has_session id owner (s ∷ ss) =
    (str_eq s.id id && str_eq s.owner_subject owner) || has_session id owner ss

module _ {Activity : Type 0} where
  -- `WHERE id=$1 AND owner_subject=$2`
  abbrev pub is_row : (owner id : String) → ChatRun Activity → Bool
  is_row owner id r = str_eq r.id id && str_eq r.owner_subject owner

  abbrev pub update_where :
      (ChatRun Activity → Bool)
      → (ChatRun Activity → ChatRun Activity)
      → List (ChatRun Activity)
      → List (ChatRun Activity)
  update_where test f [] = []
  update_where test f (r ∷ rs) = (if test r then f r else r) ∷ update_where test f rs

  abbrev pub find_where :
      (ChatRun Activity → Bool) → List (ChatRun Activity) → Option (ChatRun Activity)
  find_where test [] = none
  find_where test (r ∷ rs) = if test r then some r else find_where test rs

  -- `UPDATE … RETURNING`
  abbrev pub update_returning :
      (ChatRun Activity → Bool)
      → (ChatRun Activity → ChatRun Activity)
      → List (ChatRun Activity)
      → List (ChatRun Activity) × Option (ChatRun Activity)
  update_returning test f rows =
      (update_where test f rows, elim (find_where test rows) [ none ↦ none | some r ↦ some (f r) ])

  -- ChatRun
  unfoldable pub chat_run :
      (owner id : String) → List (ChatRun Activity) → Option (ChatRun Activity)
  chat_run owner id rows = find_where (is_row owner id) rows

  -- The row that was created last among those that satisfy the test.
  abbrev newest : (ChatRun Activity → Bool) → List (ChatRun Activity) → Option (ChatRun Activity)
  newest test [] = none
  newest test (r ∷ rs) =
      let rest = newest test rs in
      if test r
      then elim rest [
        | none ↦ some r
        | some s ↦ some (if ltb r.created_at s.created_at then s else r)
      ]
      else rest

  abbrev pub is_of_session : (owner session : String) → ChatRun Activity → Bool
  is_of_session owner session r = str_eq r.session_id session && str_eq r.owner_subject owner

  abbrev pub is_active_run : (owner session : String) → ChatRun Activity → Bool
  is_active_run owner session r = is_of_session owner session r && is_active r.status

  -- LatestChatRun
  unfoldable pub latest_chat_run :
      (owner session : String) → List (ChatRun Activity) → Option (ChatRun Activity)
  latest_chat_run owner session rows = newest (is_of_session owner session) rows

  -- ActiveChatRun
  unfoldable pub active_chat_run :
      (owner session : String) → List (ChatRun Activity) → Option (ChatRun Activity)
  active_chat_run owner session rows = newest (is_active_run owner session) rows

  -- What CreateChatRun inserts for `x` at the instant `now`; the other columns have their defaults.
  abbrev pub new_run : ℕ → ChatRun Activity → ChatRun Activity
  new_run now x = record x {
    status = queued;
    request_id = "";
    content = "";
    error = "";
    created_at = now;
    started_at = none;
    completed_at = none;
    updated_at = now;
  }

  -- CreateChatRun: the session must be the owner's, and the id new (PRIMARY KEY).
  unfoldable pub create_chat_run :
      ℕ
      → List ChatSession
      → ChatRun Activity
      → List (ChatRun Activity)
      → List (ChatRun Activity) × Result (Option (ChatRun Activity))
  create_chat_run now sessions x rows =
      if not (has_session x.session_id x.owner_subject sessions)
      then (rows, ok none)
      else elim (find_where (λ r. str_eq r.id x.id) rows) [
        | none ↦ (rows ++ new_run now x ∷ [], ok (some (new_run now x)))
        | some r ↦ (rows, err "duplicate key")
      ]

  abbrev pub with_status : ℕ → RunStatus → ChatRun Activity → ChatRun Activity
  with_status now s r = record r {
    status = s;
    started_at = if is_running s then or_now now r.started_at else r.started_at;
    completed_at = if is_cancelled s then some now else r.completed_at;
    updated_at = now;
  }

  -- SetChatRunStatus
  unfoldable pub set_chat_run_status :
      ℕ
      → (owner id : String) → RunStatus
      → List (ChatRun Activity)
      → List (ChatRun Activity) × Result (Option (ChatRun Activity))
  set_chat_run_status now owner id s rows =
      if not (is_settable s)
      then (rows, err "invalid run status")
      else let (after, r) = update_returning (is_row owner id) (with_status now s) rows in
        (after, ok r)

  -- `fresh` builds the activity of a run that is queued again from its modes.
  abbrev pub reset_run : (ChatRun Activity → Activity) → ℕ → ChatRun Activity → ChatRun Activity
  reset_run fresh now r = record r {
    status = queued;
    request_id = "";
    content = "";
    error = "";
    completed_at = none;
    activity = fresh r;
    updated_at = now;
  }

  -- ResetChatRun
  unfoldable pub reset_chat_run :
      (ChatRun Activity → Activity)
      → ℕ
      → (owner id : String) → List (ChatRun Activity)
      → List (ChatRun Activity) × Option (ChatRun Activity)
  reset_chat_run fresh now owner id rows =
      update_returning (is_row owner id) (reset_run fresh now) rows

  module _ (merge : Activity → Activity → Activity) where
    -- UpdateChatRunActivity
    unfoldable pub update_chat_run_activity :
        ℕ → String → Activity → List (ChatRun Activity) → List (ChatRun Activity)
    update_chat_run_activity now id patch rows =
        update_where (λ r. str_eq r.id id)
          (λ r. record r { activity = merge r.activity patch; updated_at = now }) rows

    abbrev pub completed_run : ℕ → String → String → Activity → ChatRun Activity → ChatRun Activity
    completed_run now request content patch r = record r {
      status = completed;
      request_id = request;
      content = content;
      error = "";
      activity = merge r.activity patch;
      completed_at = some now;
      updated_at = now;
    }

    -- CompleteChatRun
    unfoldable pub complete_chat_run :
        ℕ
        → (owner id request content : String) → Activity
        → List (ChatRun Activity)
        → List (ChatRun Activity) × Option (ChatRun Activity)
    complete_chat_run now owner id request content patch rows =
        update_returning (is_row owner id) (completed_run now request content patch) rows

    abbrev pub failed_run : ℕ → String → String → Activity → ChatRun Activity → ChatRun Activity
    failed_run now request message patch r = record r {
      status = failed;
      request_id = request;
      error = message;
      activity = merge r.activity patch;
      completed_at = some now;
      updated_at = now;
    }

    -- FailChatRun
    unfoldable pub fail_chat_run :
        ℕ
        → (owner id request message : String) → Activity
        → List (ChatRun Activity)
        → List (ChatRun Activity) × Option (ChatRun Activity)
    fail_chat_run now owner id request message patch rows =
        update_returning (is_row owner id) (failed_run now request message patch) rows

    abbrev pub interrupted_run : ℕ → Activity → ChatRun Activity → ChatRun Activity
    interrupted_run now patch r = record r {
      status = failed;
      error = "Run interrupted by a server restart. Press Play to retry.";
      activity = merge r.activity patch;
      completed_at = some now;
      updated_at = now;
    }

    -- RecoverInterruptedChatRuns
    unfoldable pub recover_interrupted_chat_runs :
        ℕ → Activity → List (ChatRun Activity) → List (ChatRun Activity)
    recover_interrupted_chat_runs now patch rows =
        update_where (λ r. is_in_progress r.status) (interrupted_run now patch) rows
