-- ===== src/Chats/Runs/Reached.antt =====
-- The states of the chat runs that are reached when handlers, goroutines, timeouts and a restart
-- interleave in any order (Chats/Runs/Control, Chats/Runs/Execute).
use daiki_aipass_backend.Prelude.{
  ℕ, String, Option, none, some, Bool, List, [], ◌∷◌, ◌≡◌, refl, str_eq, if◌then◌else◌, All,
  if_both, Result,
}
use daiki_aipass_backend.Chats.Runs.{
  RunStatus, queued, running, paused, completed, failed, cancelled, ChatRun, ChatSession, is_row,
  has_session, chat_run, is_in_progress, completed_run, failed_run, interrupted_run,
  update_chat_run_activity, complete_chat_run, fail_chat_run, recover_interrupted_chat_runs,
}
use daiki_aipass_backend.Chats.Runs.Control.{
  ModelOutcome, unavailable, replied, Phase, launched, working, answered, failing, saving,
  completing, finished, Task, Backend, Commands, task_at, interrupt, finish_task, start_chat_run,
  control_chat_run,
}
use daiki_aipass_backend.Chats.Runs.Execute.{
  add_chat_message_for_run, edit_chat_message, started, latest_is_stopped, decide_run, after_save,
  phase_step, step_of, execute_step, restart,
}
use daiki_aipass_backend.Chats.Runs.Requests.{
  set_status-Leaves, start_chat_run-Leaves, control_chat_run-Leaves, edit_chat_message-Leaves,
}
use daiki_aipass_backend.Chats.Runs.Kept.{
  SoundAt, IsSound, AllSound, update_where-All, IsSound-IsPreserved,
}

-- A change of the activity alone.
noted :
    {Activity : Type 0} (s : RunStatus) (r : ChatRun Activity) (a : Activity) (now : ℕ)
    → SoundAt s r
    → SoundAt s (record r { activity = a; updated_at = now })
noted queued r a now h = h
noted running r a now h = h
noted paused r a now h = h
noted completed r a now h = h
noted failed r a now h = h
noted cancelled r a now h = h

module _ {Activity : Type 0} (merge : Activity → Activity → Activity) where
  activity-AllSound :
      (now : ℕ) (id : String) (patch : Activity) (rows : List (ChatRun Activity))
      → All IsSound rows
      → All IsSound (update_chat_run_activity merge now id patch rows)
  unfolding update_chat_run_activity
  activity-AllSound now id patch rows =
      update_where-All IsSound (λ r. str_eq r.id id)
        (λ r. record r { activity = merge r.activity patch; updated_at = now }) rows
        (λ r k. noted r.status r (merge r.activity patch) now k)

  fail-AllSound :
      (now : ℕ) (owner id request message : String) (patch : Activity)
      (rows : List (ChatRun Activity))
      → All IsSound rows
      → All IsSound (fail_chat_run merge now owner id request message patch rows).0
  unfolding fail_chat_run
  fail-AllSound now owner id request message patch rows =
      update_where-All IsSound (is_row owner id) (failed_run merge now request message patch) rows
        (λ r k. tt)

  complete-AllSound :
      (now : ℕ) (owner id request content : String) (patch : Activity)
      (rows : List (ChatRun Activity))
      → All IsSound rows
      → All IsSound (complete_chat_run merge now owner id request content patch rows).0
  unfolding complete_chat_run
  complete-AllSound now owner id request content patch rows =
      update_where-All IsSound (is_row owner id) (completed_run merge now request content patch)
        rows (λ r k. (tt, refl))

  recover-AllSound :
      (now : ℕ) (patch : Activity) (rows : List (ChatRun Activity))
      → All IsSound rows
      → All IsSound (recover_interrupted_chat_runs merge now patch rows)
  unfolding recover_interrupted_chat_runs
  recover-AllSound now patch rows =
      update_where-All IsSound (λ r. is_in_progress r.status) (interrupted_run merge now patch) rows
        (λ r k. tt)

  started-AllSound :
      (now : ℕ) (patch : Activity) (n : ℕ) (t : Task)
      (p : Backend Activity × Option (ChatRun Activity))
      → AllSound p.0
      → AllSound (started merge now patch n t p)
  started-AllSound now patch n t (b, none) h = h
  started-AllSound now patch n t (b, some run) h = activity-AllSound now run.id patch b.runs h

  abbrev SoundIfAny : Option (Backend Activity) → Type 0
  SoundIfAny none = Unit
  SoundIfAny (some c) = AllSound c

  after_save-AllSound :
      (n : ℕ) (request text : String) (b : Backend Activity) (o : Option (Backend Activity))
      → AllSound b
      → SoundIfAny o
      → AllSound (after_save merge n request text b o)
  after_save-AllSound n request text b none h k = h
  after_save-AllSound n request text b (some c) h k = k

  saved-SoundIfAny :
      (now : ℕ) (owner session text id : String) (b : Backend Activity)
      → AllSound b
      → SoundIfAny (add_chat_message_for_run now owner session "assistant" text id b)
  unfolding add_chat_message_for_run
  saved-SoundIfAny now owner session text id b h =
      if_both SoundIfAny (has_session session owner b.sessions) h tt

  decide_run-AllSound :
      (reads : Bool) (n : ℕ) (t : Task) (o : ModelOutcome) (b : Backend Activity)
      → AllSound b
      → AllSound (decide_run merge reads n t o b)
  decide_run-AllSound reads n t (unavailable message) b h = h
  decide_run-AllSound reads n t (replied first second) b h =
      if_both AllSound
        (latest_is_stopped merge (if reads then chat_run t.owner_subject t.run_id b.runs else none))
        h (if_both AllSound t.interrupted h h)

  phase_step-AllSound :
      (works : Bool) (now : ℕ) (patch : Activity) (outcome : ModelOutcome) (n : ℕ) (t : Task)
      (p : Phase) (b : Backend Activity)
      → AllSound b
      → AllSound (phase_step merge works now patch outcome n t p b)
  phase_step-AllSound works now patch outcome n t launched b h = if_both AllSound t.interrupted h (
      started-AllSound now patch n t _ (
        set_status-Leaves t.owner_subject (All IsSound) (IsSound-IsPreserved t.owner_subject) works
          now t.run_id running b h))
  phase_step-AllSound works now patch outcome n t working b h = h
  phase_step-AllSound works now patch outcome n t (answered o) b h =
      decide_run-AllSound works n t o b h
  phase_step-AllSound works now patch outcome n t (failing request message) b h =
      if_both (λ c. AllSound (finish_task n t c)) works
        (fail-AllSound now t.owner_subject t.run_id request message patch b.runs h) h
  phase_step-AllSound works now patch outcome n t (saving request text) b h =
      after_save-AllSound n request text b _ h (
        if_both SoundIfAny works
          (saved-SoundIfAny now t.owner_subject t.session_id text t.run_id b h) tt)
  phase_step-AllSound works now patch outcome n t (completing request text) b h =
      if_both (λ c. AllSound (finish_task n t c)) works
        (complete-AllSound now t.owner_subject t.run_id request text patch b.runs h) h
  phase_step-AllSound works now patch outcome n t finished b h = h

  execute_step-AllSound :
      (works : Bool) (now : ℕ) (patch : Activity) (outcome : ModelOutcome) (n : ℕ)
      (b : Backend Activity)
      → AllSound b
      → AllSound (execute_step merge works now patch outcome n b)
  unfolding execute_step
  execute_step-AllSound works now patch outcome n b h = go (task_at n b.tasks)
    where
      go : (o : Option Task) → AllSound (step_of merge works now patch outcome n b o)
      go none = h
      go (some t) = phase_step-AllSound works now patch outcome n t t.phase b h

  restart-AllSound :
      (works : Bool) (now : ℕ) (patch : Activity) (b : Backend Activity)
      → AllSound b
      → AllSound (restart merge works now patch b)
  unfolding restart
  restart-AllSound works now patch b h =
      if_both (All IsSound) works (recover-AllSound now patch b.runs h) h

  -- One request, one step of a goroutine, the end of a context, or a restart.
  pub data Step : Backend Activity → Backend Activity → Type 0 where
    run_started :
        (reads inserts : Bool) (now : ℕ) (owner session mode thinking : String)
        (initial : String → Commands → Activity) (b : Backend Activity) (commands : Result Commands)
        (token : Option String)
        → Step b
            (start_chat_run reads inserts now owner session mode thinking initial b commands
              token).0
    run_controlled :
        (reads updates : Bool) (now : ℕ) (fresh : ChatRun Activity → Activity) (owner id : String)
        (b : Backend Activity) (action : Option String)
        → Step b (control_chat_run reads updates now fresh owner id b action).0
    message_edited :
        (reads updates edits : Bool) (now : ℕ) (owner session : String) (id : Option ℕ)
        (content : Option String) (b : Backend Activity)
        → Step b (edit_chat_message reads updates edits now owner session id content b).0
    task_advanced :
        (works : Bool) (now : ℕ) (patch : Activity) (outcome : ModelOutcome) (n : ℕ)
        (b : Backend Activity)
        → Step b (execute_step merge works now patch outcome n b)
    activity_noted :
        (now : ℕ) (id : String) (patch : Activity) (b : Backend Activity)
        → Step b (record b { runs = update_chat_run_activity merge now id patch b.runs })
    timed_out : (n : ℕ) (b : Backend Activity) → Step b (interrupt (some n) b)
    session_created :
        (s : ChatSession) (b : Backend Activity) → Step b (record b { sessions = s ∷ b.sessions })
    restarted :
        (works : Bool) (now : ℕ) (patch : Activity) (b : Backend Activity)
        → Step b (restart merge works now patch b)

  pub data Reach : Backend Activity → Type 0 where
    no_runs : (b : Backend Activity) → b.runs ≡ [] → Reach b
    then_step : {b c : Backend Activity} → Reach b → Step b c → Reach c

  Step-AllSound : {b c : Backend Activity} → Step b c → AllSound b → AllSound c
  Step-AllSound
        (run_started reads inserts now owner session mode thinking initial b commands token) =
      start_chat_run-Leaves owner (All IsSound) (IsSound-IsPreserved owner) reads inserts now
        session mode thinking initial b commands token
  Step-AllSound (run_controlled reads updates now fresh owner id b action) =
      control_chat_run-Leaves owner (All IsSound) (IsSound-IsPreserved owner) reads updates now
        fresh id b action
  Step-AllSound (message_edited reads updates edits now owner session id content b) =
      edit_chat_message-Leaves owner (All IsSound) (IsSound-IsPreserved owner) reads updates edits
        now session id content b
  Step-AllSound (task_advanced works now patch outcome n b) =
      execute_step-AllSound works now patch outcome n b
  Step-AllSound (activity_noted now id patch b) = activity-AllSound now id patch b.runs
  Step-AllSound (timed_out n b) = λ h. h
  Step-AllSound (session_created s b) = λ h. h
  Step-AllSound (restarted works now patch b) = restart-AllSound works now patch b

  -- In every state that is reached from an empty table, by any interleaving of requests, steps of
  -- goroutines, timeouts and restarts, with any statements failing: a run that is running has its
  -- start, a run that is completed, failed or cancelled has its end, and a completed run no error.
  pub Reach-AllSound : {b : Backend Activity} → Reach b → AllSound b
  Reach-AllSound (no_runs b e) = rw e tt
  Reach-AllSound (then_step r s) = Step-AllSound s (Reach-AllSound r)
