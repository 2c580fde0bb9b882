-- ===== src/Chats/Runs/Requests.antt =====
-- The requests of one owner (Chats/Runs/Control, Chats/Runs/Execute) keep every property of the table
-- that the three statements keep by which they change it.
use daiki_aipass_backend.Prelude.{
  ℕ, String, Option, none, some, Bool, ◌||◌, List, str_eq, ◌≡◌, refl, if◌then◌else◌, trim_space,
  if_both, Result, ok, err,
}
use daiki_aipass_backend.Chats.Runs.{
  RunStatus, paused, cancelled, ChatRun, ChatSession, has_session, create_chat_run,
  set_chat_run_status, reset_chat_run, chat_run, active_chat_run, is_in_progress,
}
use daiki_aipass_backend.Chats.Runs.Control.{
  ChatMessage, Backend, Commands, load, interrupt, cancel_task, after_create, store_result,
  set_status, answer_with, after_stop, after_reset, controlled, create_named, unless_active,
  control_found, is_resumable, start_chat_run, launch_chat_run, control_chat_run, is_word,
}
use daiki_aipass_backend.Chats.Runs.Execute.{
  is_user_message, find_message, truncated_if, edit_user_chat_message_and_truncate, cancel_active,
  after_edit, edit_chat_message,
}

-- `Q` is kept by the statements of the owner.
pub record IsPreserved {Activity : Type 0} (owner : String) (Q : List (ChatRun Activity) → Type 0)
    : Type 0 where
  pub set_kept :
      (now : ℕ) (id : String) (s : RunStatus) (rows : List (ChatRun Activity))
      → Q rows
      → Q (set_chat_run_status now owner id s rows).0
  pub create_kept :
      (now : ℕ) (sessions : List ChatSession) (x : ChatRun Activity)
      (rows : List (ChatRun Activity))
      → x.owner_subject ≡ owner
      → Q rows
      → Q (create_chat_run now sessions x rows).0
  pub reset_kept :
      (fresh : ChatRun Activity → Activity) (now : ℕ) (id : String) (rows : List (ChatRun Activity))
      → Q rows
      → Q (reset_chat_run fresh now owner id rows).0

module _ {Activity : Type 0} where
  launch_chat_run-runs :
      (run : ChatRun Activity) (b : Backend Activity) → (launch_chat_run run b).runs ≡ b.runs
  unfolding launch_chat_run
  launch_chat_run-runs run b = refl

  interrupt-runs : (o : Option ℕ) (b : Backend Activity) → (interrupt o b).runs ≡ b.runs
  interrupt-runs none b = refl
  interrupt-runs (some n) b = refl

module _ {Activity : Type 0} (owner : String) (Q : List (ChatRun Activity) → Type 0)
    (preserved : IsPreserved owner Q) where
  open preserved use {set_kept, create_kept, reset_kept}

  abbrev Holds : Backend Activity → Type 0
  Holds b = Q b.runs

  abbrev Keeps {ℓ} : {A : Type ℓ} → List (ChatRun Activity) × A → Type 0
  Keeps p = Q p.0

  abbrev Leaves {ℓ} : {A : Type ℓ} → Backend Activity × A → Type 0
  Leaves p = Q p.0.runs

  pub cancel_task-Holds : (id : String) (b : Backend Activity) → Holds b → Holds (cancel_task id b)
  cancel_task-Holds id b h = rw (interrupt-runs (load id b.cancels) b) h

  launch-Holds :
      (run : ChatRun Activity) (b : Backend Activity) → Holds b → Holds (launch_chat_run run b)
  launch-Holds run b h = rw (launch_chat_run-runs run b) h

  after_create-Leaves :
      (b : Backend Activity) (p : List (ChatRun Activity) × Result (Option (ChatRun Activity)))
      → Holds b
      → Keeps p
      → Leaves (after_create b p)
  after_create-Leaves b (rows, ok (some run)) h k = launch-Holds run (record b { runs = rows }) k
  after_create-Leaves b (rows, ok none) h k = h
  after_create-Leaves b (rows, err e) h k = h

  store_result-Leaves :
      (b : Backend Activity) (p : List (ChatRun Activity) × Result (Option (ChatRun Activity)))
      → Holds b
      → Keeps p
      → Leaves (store_result b p)
  store_result-Leaves b (rows, ok o) h k = k
  store_result-Leaves b (rows, err e) h k = h

  pub set_status-Leaves :
      (updates : Bool) (now : ℕ) (id : String) (s : RunStatus) (b : Backend Activity)
      → Holds b
      → Leaves (set_status updates now owner id s b)
  set_status-Leaves updates now id s b h =
      if_both Leaves updates
        (store_result-Leaves b (set_chat_run_status now owner id s b.runs) h
          (set_kept now id s b.runs h))
        h

  answer_with-Leaves :
      (p : Backend Activity × Option (ChatRun Activity)) → Leaves p → Leaves (answer_with p)
  answer_with-Leaves (b, some run) h = h
  answer_with-Leaves (b, none) h = h

  after_stop-Leaves :
      (id : String) (p : Backend Activity × Option (ChatRun Activity))
      → Leaves p
      → Leaves (after_stop id p)
  after_stop-Leaves id (b, o) h = cancel_task-Holds id b h

  after_reset-Leaves :
      (b : Backend Activity) (p : List (ChatRun Activity) × Option (ChatRun Activity))
      → Keeps p
      → Leaves (after_reset b p)
  after_reset-Leaves b (rows, none) k = k
  after_reset-Leaves b (rows, some run) k = launch-Holds run (record b { runs = rows }) k

  module _ (reads inserts : Bool) (now : ℕ) (session mode thinking : String)
      (initial : String → Commands → Activity) (b : Backend Activity) where
    create_named-Leaves :
        (c : Commands) (token : Option String)
        → Holds b
        → Leaves (create_named reads inserts now owner session mode thinking initial b c token)
    create_named-Leaves c none h = h
    create_named-Leaves c (some token) h =
        if_both Leaves inserts
          (after_create-Leaves b (create_chat_run now b.sessions _ b.runs) h
            (create_kept now b.sessions _ b.runs refl h))
          h

    unless_active-Leaves :
        (o : Option (ChatRun Activity)) (commands : Result Commands) (token : Option String)
        → Holds b
        → Leaves
            (unless_active reads inserts now owner session mode thinking initial b o commands token)
    unless_active-Leaves (some r) commands token h = h
    unless_active-Leaves none (err e) token h = h
    unless_active-Leaves none (ok c) token h = create_named-Leaves c token h

    pub start_chat_run-Leaves :
        (commands : Result Commands) (token : Option String)
        → Holds b
        → Leaves
            (start_chat_run reads inserts now owner session mode thinking initial b commands token)
    unfolding start_chat_run
    start_chat_run-Leaves commands token =
        unless_active-Leaves (if reads then active_chat_run owner session b.runs else none) commands
          token

  module _ (reads updates : Bool) (now : ℕ) (fresh : ChatRun Activity → Activity) (id : String)
      (b : Backend Activity) where
    stopped-Leaves :
        (s : RunStatus)
        → Holds b
        → Leaves (answer_with (after_stop id (set_status updates now owner id s b)))
    stopped-Leaves s h = answer_with-Leaves (after_stop id (set_status updates now owner id s b)) (
        after_stop-Leaves id (set_status updates now owner id s b)
          (set_status-Leaves updates now id s b h))

    controlled-Leaves :
        (action : String) (run : ChatRun Activity)
        → Holds b
        → Leaves (controlled updates now fresh owner id action run b)
    controlled-Leaves action run h =
        if_both Leaves (is_word action "pause")
          (if_both Leaves (is_in_progress run.status) (stopped-Leaves paused h) h)
          (if_both Leaves (is_word action "resume" || is_word action "play")
            (if_both Leaves (is_resumable run.status)
              (answer_with-Leaves _ (
                if_both Leaves updates
                  (after_reset-Leaves b (reset_chat_run fresh now owner id b.runs)
                    (reset_kept fresh now id b.runs h))
                  h))
              h)
            (if_both Leaves (is_word action "cancel" || is_word action "stop")
              (stopped-Leaves cancelled h) h))

    control_found-Leaves :
        (o : Option (ChatRun Activity)) (action : Option String)
        → Holds b
        → Leaves (control_found reads updates now fresh owner id b o action)
    control_found-Leaves none action h = h
    control_found-Leaves (some run) none h = h
    control_found-Leaves (some run) (some action) h = controlled-Leaves action run h

    pub control_chat_run-Leaves :
        (action : Option String)
        → Holds b
        → Leaves (control_chat_run reads updates now fresh owner id b action)
    unfolding control_chat_run
    control_chat_run-Leaves action =
        control_found-Leaves (if reads then chat_run owner id b.runs else none) action

  module _ (session : String) (id : ℕ) (content : String) where
    edited-Holds :
        (b : Backend Activity)
        → Holds b
        → Leaves (edit_user_chat_message_and_truncate owner session id content b)
    unfolding edit_user_chat_message_and_truncate
    edited-Holds b h =
        if_both Leaves (has_session session owner b.sessions)
          (go (find_message (is_user_message session id) b.messages)) h
      where
        go : (o : Option ChatMessage) → Leaves (truncated_if session id content b o)
        go none = h
        go (some m) = h

  after_edit-Leaves : (p : Backend Activity × Option ChatMessage) → Leaves p → Leaves (after_edit p)
  after_edit-Leaves (b, none) h = h
  after_edit-Leaves (b, some m) h = h

  cancel_active-Holds :
      (updates : Bool) (now : ℕ) (o : Option (ChatRun Activity)) (b : Backend Activity)
      → Holds b
      → Holds (cancel_active updates now owner o b)
  cancel_active-Holds updates now none b h = h
  cancel_active-Holds updates now (some run) b h =
      cancel_task-Holds run.id (set_status updates now owner run.id cancelled b).0
        (set_status-Leaves updates now run.id cancelled b h)

  pub edit_chat_message-Leaves :
      (reads updates edits : Bool) (now : ℕ) (session : String) (id : Option ℕ)
      (content : Option String) (b : Backend Activity)
      → Holds b
      → Leaves (edit_chat_message reads updates edits now owner session id content b)
  unfolding edit_chat_message
  edit_chat_message-Leaves reads updates edits now session none content b h = h
  edit_chat_message-Leaves reads updates edits now session (some id) none b h = h
  edit_chat_message-Leaves reads updates edits now session (some id) (some content) b h =
      if_both Leaves (str_eq (trim_space content) "") h (
        if_both Leaves edits
          (after_edit-Leaves _ (edited-Holds session id (trim_space content) _ stopped)) stopped)
    where
      stopped : Holds (
          cancel_active updates now owner
            (if reads then active_chat_run owner session b.runs else none)
            b)
      stopped =
          cancel_active-Holds updates now
            (if reads then active_chat_run owner session b.runs else none) b h
