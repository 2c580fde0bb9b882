-- ===== src/Chats/Runs/Execute.antt =====
-- cmd/api/chat_runs.go: editChatMessage, and executeChatRun in the steps that its goroutine makes
-- between two calls of the store; internal/store/chat_sessions.go: what both do to the messages.
-- Any other goroutine or handler (Chats/Runs/Control) may run between two steps.
use daiki_aipass_backend.Prelude.{
  ℕ, suc, String, Option, none, some, Bool, false, ◌&&◌, List, [], ◌∷◌, ◌++◌, str_eq, ltb, ◌==◌,
  if◌then◌else◌, trim_space,
}
use daiki_aipass_backend.Chats.Runs.{
  running, cancelled, ChatRun, has_session, chat_run, active_chat_run,
  recover_interrupted_chat_runs, update_chat_run_activity, complete_chat_run, fail_chat_run,
}
use daiki_aipass_backend.Chats.Runs.Control.{
  ChatMessage, ModelOutcome, unavailable, replied, Phase, launched, working, answered, failing,
  saving, completing, finished, Task, Backend, Response, problem, edited, task_at, move,
  finish_task, cancel_task, set_status, is_stopped, last_reply, verdict,
}

-- `m.id=$3 AND m.session_id=$1 AND m.role='user'`
abbrev pub is_user_message : String → ℕ → ChatMessage → Bool
is_user_message session id m = (m.id == id) && str_eq m.session_id session && str_eq m.role "user"

abbrev pub find_message : (ChatMessage → Bool) → List ChatMessage → Option ChatMessage
find_message test [] = none
find_message test (m ∷ ms) = if test m then some m else find_message test ms

-- The message `id` of the session has the content, and what came after it is gone.
abbrev pub truncate_after : String → ℕ → String → List ChatMessage → List ChatMessage
truncate_after session id content [] = []
truncate_after session id content (m ∷ ms) =
    let rest = truncate_after session id content ms in
    if str_eq m.session_id session && ltb id m.id
    then rest
    else (if is_user_message session id m then record m { content = content } else m) ∷ rest

module _ {Activity : Type 0} where
  abbrev pub truncated_if :
      (session : String) (id : ℕ) (content : String)
      → Backend Activity
      → Option ChatMessage
      → Backend Activity × Option ChatMessage
  truncated_if session id content b none = (b, none)
  truncated_if session id content b (some m) = (
    record b { messages = truncate_after session id content b.messages },
    some (record m { content = content }),
  )

  -- EditUserChatMessageAndTruncate, a transaction.
  unfoldable pub edit_user_chat_message_and_truncate :
      (owner session : String) (id : ℕ) (content : String)
      → Backend Activity
      → Backend Activity × Option ChatMessage
  edit_user_chat_message_and_truncate owner session id content b =
      if has_session session owner b.sessions
      then truncated_if session id content b (find_message (is_user_message session id) b.messages)
      else (b, none)

  -- AddChatMessageForRun
  unfoldable pub add_chat_message_for_run :
      ℕ → (owner session role content run : String) → Backend Activity → Option (Backend Activity)
  add_chat_message_for_run now owner session role content run b =
      if has_session session owner b.sessions
      then some (record b {
        messages =
            b.messages
            ++ record {
              id = b.next_message;
              session_id = session;
              role = role;
              content = content;
              attachment_ids = [];
              run_id = some run;
              created_at = now;
            }
              ∷ [];
        next_message = suc b.next_message;
      })
      else none

  abbrev pub cancel_active :
      Bool → ℕ → String → Option (ChatRun Activity) → Backend Activity → Backend Activity
  cancel_active updates now owner none b = b
  cancel_active updates now owner (some run) b =
      cancel_task run.id (set_status updates now owner run.id cancelled b).0

  abbrev pub after_edit :
      Backend Activity × Option ChatMessage → Backend Activity × Response Activity
  after_edit (b, none) = (b, problem 404 "user message not found")
  after_edit (b, some m) = (b, edited m)

  -- editChatMessage; the id and the content are `none` if they cannot be read.
  unfoldable pub edit_chat_message :
      (reads updates edits : Bool) (now : ℕ)
      → (owner session : String) → Option ℕ
      → Option String
      → Backend Activity
      → Backend Activity × Response Activity
  edit_chat_message reads updates edits now owner session none content b =
      (b, problem 400 "invalid message id")
  edit_chat_message reads updates edits now owner session (some id) none b =
      (b, problem 400 "invalid message payload")
  edit_chat_message reads updates edits now owner session (some id) (some content) b =
      if str_eq (trim_space content) ""
      then (b, problem 400 "message cannot be empty")
      else let active = if reads then active_chat_run owner session b.runs else none in
        let stopped = cancel_active updates now owner active b in
        if edits
        then after_edit
            (edit_user_chat_message_and_truncate owner session id (trim_space content) stopped)
        else (stopped, problem 503 "unable to edit message")

  module _ (merge : Activity → Activity → Activity) where
    abbrev pub started :
        ℕ
        → Activity
        → (n : ℕ) → Task
        → Backend Activity × Option (ChatRun Activity)
        → Backend Activity
    started now patch n t (b, none) = finish_task n t b
    started now patch n t (b, some run) =
        move n working (record b { runs = update_chat_run_activity merge now run.id patch b.runs })

    -- The run is marked as running, unless its context is done, which fails the statement.
    abbrev pub begin_run : Bool → ℕ → Activity → ℕ → Task → Backend Activity → Backend Activity
    begin_run updates now patch n t b =
        if t.interrupted
        then finish_task n t b
        else started now patch n t (set_status updates now t.owner_subject t.run_id running b)

    -- `latest, _ := ChatRun(…)`: a run that is not found has the empty status.
    abbrev pub latest_is_stopped : Option (ChatRun Activity) → Bool
    latest_is_stopped none = false
    latest_is_stopped (some run) = is_stopped run.status

    -- What follows on the reply of the model; `reads` is whether the database answers.
    abbrev pub decide_run : Bool → ℕ → Task → ModelOutcome → Backend Activity → Backend Activity
    decide_run reads n t (unavailable message) b = move n (failing "" message) b
    decide_run reads n t (replied first second) b =
        let r = last_reply first second in
        if latest_is_stopped (if reads then chat_run t.owner_subject t.run_id b.runs else none)
        then finish_task n t b
        else if t.interrupted
        then move n (failing r.request_id "run interrupted") b
        else move n (verdict r) b

    abbrev pub after_save :
        ℕ → String → String → Backend Activity → Option (Backend Activity) → Backend Activity
    after_save n request text b none = move n (failing request "unable to save answer") b
    after_save n request text b (some after) = move n (completing request text) after

    -- The next step of the goroutine `n`. A statement that the database does not answer (`works`
    -- is false) leaves the table; `outcome` is what the model replies, `patch` what is merged.
    abbrev pub phase_step :
        Bool → ℕ → Activity → ModelOutcome → ℕ → Task → Phase → Backend Activity → Backend Activity
    phase_step works now patch outcome n t launched b = begin_run works now patch n t b
    phase_step works now patch outcome n t working b = move n (answered outcome) b
    phase_step works now patch outcome n t (answered o) b = decide_run works n t o b
    phase_step works now patch outcome n t (failing request message) b = finish_task n t (
        if works
        then record b {
          runs = (fail_chat_run merge now t.owner_subject t.run_id request message patch b.runs).0;
        }
        else b)
    phase_step works now patch outcome n t (saving request text) b = after_save n request text b (
        if works
        then add_chat_message_for_run now t.owner_subject t.session_id "assistant" text t.run_id b
        else none)
    phase_step works now patch outcome n t (completing request text) b = finish_task n t (
        if works
        then record b {
          runs = (complete_chat_run merge now t.owner_subject t.run_id request text patch b.runs).0;
        }
        else b)
    phase_step works now patch outcome n t finished b = b

    abbrev pub step_of :
        Bool → ℕ → Activity → ModelOutcome → ℕ → Backend Activity → Option Task → Backend Activity
    step_of works now patch outcome n b none = b
    step_of works now patch outcome n b (some t) = phase_step works now patch outcome n t t.phase b

    -- executeChatRun, one step.
    unfoldable pub execute_step :
        Bool → ℕ → Activity → ModelOutcome → ℕ → Backend Activity → Backend Activity
    execute_step works now patch outcome n b =
        step_of works now patch outcome n b (task_at n b.tasks)

    -- A restart: no goroutine is left, and runs that were in progress are marked as failed.
    unfoldable pub restart : Bool → ℕ → Activity → Backend Activity → Backend Activity
    restart works now patch b = record b {
      tasks = [];
      cancels = [];
      runs = if works then recover_interrupted_chat_runs merge now patch b.runs else b.runs;
    }
