-- ===== src/Chats/Runs/Control.antt =====
-- cmd/api/chat_runs.go: the handlers that start, pause, resume and cancel a chat run or edit its
-- chat, and the goroutine that executes a run (executeChatRun), one step for each call of the store.
-- The goroutines are the list `tasks`, each named by its place; `cancels` is chatRunCancels. The
-- choices of the request's body, the model's replies and which statements the database answers are
-- parameters.
use Prim.Native.Nat.{zero, suc}
use Prim.Native.String
use daiki_aipass_backend.Prelude.{
  ℕ, String, Option, none, some, Bool, true, false, not, ◌&&◌, ◌||◌, List, [], ◌∷◌, ◌++◌, length,
  str_eq, ltb, ◌==◌, if◌then◌else◌, contains, to_lower, trim_space, Result, ok, err,
}
use daiki_aipass_backend.Chats.Runs.{
  RunStatus, queued, paused, failed, cancelled, ChatRun, ChatSession, is_in_progress, chat_run,
  active_chat_run, create_chat_run, set_chat_run_status, reset_chat_run,
}

-- A row of chat_messages.
pub record ChatMessage : Type 0 where
  pub id : ℕ
  pub session_id : String
  pub role : String
  pub content : String
  pub attachment_ids : List String
  pub run_id : Option String
  pub created_at : ℕ

-- An answer of the model: its status, what chatRunErrorMessage reads of an error, and the texts of
-- its choices, if Unmarshal reads them.
pub record ModelReply : Type 0 where
  pub code : ℕ
  pub request_id : String
  pub body : String
  pub error_message : String
  pub choices : Option (List String)

-- What a goroutine obtains: no history of the chat, or the model's reply and the one that it would
-- give if it were asked once more.
pub data ModelOutcome : Type 0 where
  unavailable : String → ModelOutcome
  replied : (first second : ModelReply) → ModelOutcome

-- Where a goroutine stands in executeChatRun.
pub data Phase : Type 0 where
  launched : Phase
  working : Phase
  answered : ModelOutcome → Phase
  failing : (request message : String) → Phase
  saving : (request answer : String) → Phase
  completing : (request answer : String) → Phase
  finished : Phase

-- A goroutine, with its run; `interrupted` is whether its context is done.
pub record Task : Type 0 where
  pub run_id : String
  pub owner_subject : String
  pub session_id : String
  pub interrupted : Bool
  pub phase : Phase

pub record Backend (Activity : Type 0) : Type 0 where
  pub sessions : List ChatSession
  pub runs : List (ChatRun Activity)
  pub messages : List ChatMessage
  pub next_message : ℕ
  pub tasks : List Task
  pub cancels : List (String × ℕ)

pub data Response (Activity : Type 0) : Type 0 where
  problem : ℕ → String → Response Activity
  already_active : ChatRun Activity → Response Activity
  shown : ℕ → ChatRun Activity → Response Activity
  edited : ChatMessage → Response Activity

-- The selected commands of a request.
pub record Commands : Type 0 where
  pub mode : String
  pub skills : List String

abbrev pub load : String → List (String × ℕ) → Option ℕ
load id [] = none
load id ((k, n) ∷ m) = if str_eq k id then some n else load id m

abbrev pub delete : String → List (String × ℕ) → List (String × ℕ)
delete id [] = []
delete id ((k, n) ∷ m) = if str_eq k id then delete id m else (k, n) ∷ delete id m

abbrev pub update_at : ℕ → (Task → Task) → List Task → List Task
update_at n f [] = []
update_at zero f (t ∷ ts) = f t ∷ ts
update_at (suc n) f (t ∷ ts) = t ∷ update_at n f ts

abbrev pub task_at : ℕ → List Task → Option Task
task_at n [] = none
task_at zero (t ∷ ts) = some t
task_at (suc n) (t ∷ ts) = task_at n ts

-- unexpectedBlockedToolCall
unfoldable pub unexpected_blocked_tool_call : String → Bool
unexpected_blocked_tool_call body =
    let text = to_lower body in
    contains text "tool choice is none"
    && (contains text "model called a tool" || contains text "called a tool")

-- A first reply of this kind is asked for once more.
unfoldable pub last_reply : ModelReply → ModelReply → ModelReply
unfolding unexpected_blocked_tool_call
last_reply first second =
    if (first.code == 400) && unexpected_blocked_tool_call first.body then second else first

-- What is read of the choices of an answer with a status of success.
abbrev pub read_choices : String → Option (List String) → Phase
read_choices request none = failing request "invalid model response"
read_choices request (some []) = failing request "invalid model response"
read_choices request (some (c ∷ cs)) =
    if str_eq (trim_space c) ""
    then failing request "empty model response"
    else saving request (trim_space c)

abbrev pub or_inference_failed : String → String
or_inference_failed m = if str_eq m "" || str_eq m "<nil>" then "inference failed" else m

abbrev pub verdict : ModelReply → Phase
verdict r =
    if ltb r.code 200 || not (ltb r.code 300)
    then failing r.request_id (or_inference_failed r.error_message)
    else read_choices r.request_id r.choices

abbrev pub is_stopped : RunStatus → Bool
is_stopped paused = true
is_stopped cancelled = true
is_stopped _ = false

abbrev pub is_resumable : RunStatus → Bool
is_resumable paused = true
is_resumable failed = true
is_resumable cancelled = true
is_resumable _ = false

abbrev pub is_word : String → String → Bool
is_word action word = str_eq (to_lower (trim_space action)) word

module _ {Activity : Type 0} where
  abbrev pub move : ℕ → Phase → Backend Activity → Backend Activity
  move n p b = record b { tasks = update_at n (λ t. record t { phase = p }) b.tasks }

  -- The goroutine returns: its deferred calls delete the entry of its run and end its context.
  abbrev pub finish_task : ℕ → Task → Backend Activity → Backend Activity
  finish_task n t b = record b {
    tasks = update_at n (λ u. record u { phase = finished; interrupted = true }) b.tasks;
    cancels = delete t.run_id b.cancels;
  }

  -- launchChatRun
  unfoldable pub launch_chat_run : ChatRun Activity → Backend Activity → Backend Activity
  launch_chat_run run b = record b {
    tasks =
        b.tasks
        ++ record {
          run_id = run.id;
          owner_subject = run.owner_subject;
          session_id = run.session_id;
          interrupted = false;
          phase = launched;
        }
          ∷ [];
    cancels = (run.id, length b.tasks) ∷ delete run.id b.cancels;
  }

  abbrev pub interrupt : Option ℕ → Backend Activity → Backend Activity
  interrupt none b = b
  interrupt (some n) b = record b {
    tasks = update_at n (λ t. record t { interrupted = true }) b.tasks;
  }

  -- `if cancel, ok := chatRunCancels.Load(id); ok { cancel() }`
  abbrev pub cancel_task : String → Backend Activity → Backend Activity
  cancel_task id b = interrupt (load id b.cancels) b

  abbrev pub after_create :
      Backend Activity
      → List (ChatRun Activity) × Result (Option (ChatRun Activity))
      → Backend Activity × Response Activity
  after_create b (rows, ok (some run)) =
      (launch_chat_run run (record b { runs = rows }), shown 202 run)
  after_create b (rows, ok none) = (b, problem 404 "chat not found")
  after_create b (rows, err e) = (b, problem 503 "unable to create chat run")

  -- The row that startChatRun asks the store to create.
  abbrev pub requested_run :
      (owner session mode thinking : String) (c : Commands) (token : String) (initial : Activity)
      → ChatRun Activity
  requested_run owner session mode thinking c token initial = record {
    id = String.◌++◌ "run_" token;
    session_id = session;
    owner_subject = owner;
    status = queued;
    research_mode = mode;
    thinking_mode = thinking;
    command_mode = c.mode;
    command_skills = c.skills;
    request_id = "";
    content = "";
    error = "";
    activity = initial;
    created_at = 0;
    started_at = none;
    completed_at = none;
    updated_at = 0;
  }

  module _ (reads inserts : Bool) (now : ℕ) (owner session mode thinking : String)
      (initial : String → Commands → Activity) (b : Backend Activity) where
    abbrev pub create_named : Commands → Option String → Backend Activity × Response Activity
    create_named c none = (b, problem 500 "unable to create chat run")
    create_named c (some token) =
        let research = if str_eq c.mode "deep-search" then "web" else mode in
        if inserts
        then after_create b (
            create_chat_run now b.sessions
              (requested_run owner session research thinking c token (initial research c)) b.runs)
        else (b, problem 503 "unable to create chat run")

    abbrev pub create_with : Result Commands → Option String → Backend Activity × Response Activity
    create_with (err e) token = (b, problem 400 e)
    create_with (ok c) token = create_named c token

    abbrev pub unless_active :
        Option (ChatRun Activity)
        → Result Commands
        → Option String
        → Backend Activity × Response Activity
    unless_active (some r) commands token = (b, already_active r)
    unless_active none commands token = create_with commands token

    -- startChatRun, of a body whose fields are normalised to `mode` and `thinking`, whose commands
    -- are checked, and with the random token, if there is one; `initial` makes the first activity
    -- of the mode and the commands.
    unfoldable pub start_chat_run :
        Result Commands → Option String → Backend Activity × Response Activity
    start_chat_run commands token =
        unless_active (if reads then active_chat_run owner session b.runs else none) commands token

  abbrev pub store_result :
      Backend Activity
      → List (ChatRun Activity) × Result (Option (ChatRun Activity))
      → Backend Activity × Option (ChatRun Activity)
  store_result b (rows, ok o) = (record b { runs = rows }, o)
  store_result b (rows, err e) = (b, none)

  -- SetChatRunStatus as the handlers see it: `none` is any error.
  abbrev pub set_status :
      Bool
      → ℕ
      → (owner id : String) → RunStatus
      → Backend Activity
      → Backend Activity × Option (ChatRun Activity)
  set_status updates now owner id s b =
      if updates then store_result b (set_chat_run_status now owner id s b.runs) else (b, none)

  abbrev pub answer_with :
      Backend Activity × Option (ChatRun Activity) → Backend Activity × Response Activity
  answer_with (b, some run) = (b, shown 200 run)
  answer_with (b, none) = (b, problem 503 "unable to update chat run")

  abbrev pub after_stop :
      String
      → Backend Activity × Option (ChatRun Activity)
      → Backend Activity × Option (ChatRun Activity)
  after_stop id (b, o) = (cancel_task id b, o)

  abbrev pub after_reset :
      Backend Activity
      → List (ChatRun Activity) × Option (ChatRun Activity)
      → Backend Activity × Option (ChatRun Activity)
  after_reset b (rows, none) = (record b { runs = rows }, none)
  after_reset b (rows, some run) = (launch_chat_run run (record b { runs = rows }), some run)

  -- The switch of controlChatRun, for a run that was found.
  abbrev pub controlled :
      Bool
      → ℕ
      → (ChatRun Activity → Activity)
      → (owner id action : String) → ChatRun Activity
      → Backend Activity
      → Backend Activity × Response Activity
  controlled updates now fresh owner id action run b =
      if is_word action "pause"
      then (if is_in_progress run.status
          then answer_with (after_stop id (set_status updates now owner id paused b))
          else (b, problem 409 "run is not running"))
      else if is_word action "resume" || is_word action "play"
      then (if is_resumable run.status
          then answer_with (
              if updates
              then after_reset b (reset_chat_run fresh now owner id b.runs)
              else (b, none))
          else (b, problem 409 "run cannot be resumed"))
      else if is_word action "cancel" || is_word action "stop"
      then answer_with (after_stop id (set_status updates now owner id cancelled b))
      else (b, problem 400 "action must be pause, resume, or cancel")

  module _ (reads updates : Bool) (now : ℕ) (fresh : ChatRun Activity → Activity)
      (owner id : String) (b : Backend Activity) where
    abbrev pub control_found :
        Option (ChatRun Activity) → Option String → Backend Activity × Response Activity
    control_found none action = (b, problem 404 "chat run not found")
    control_found (some run) none = (b, problem 400 "invalid run action")
    control_found (some run) (some action) = controlled updates now fresh owner id action run b

    -- controlChatRun; the action is `none` if the body cannot be decoded.
    unfoldable pub control_chat_run : Option String → Backend Activity × Response Activity
    control_chat_run action =
        control_found (if reads then chat_run owner id b.runs else none) action
