-- ===== src/Examples/Chats.antt =====
-- Concrete inputs of the results on chat runs.
use daiki_aipass_backend.Prelude.{◌≡◌, String, true, none, some, [], ◌∷◌, refl, ok}
use daiki_aipass_backend.Chats.Runs.{queued, ChatRun}
use daiki_aipass_backend.Chats.Runs.Control.{
  ModelReply, Backend, replied, start_chat_run, control_chat_run,
}
use daiki_aipass_backend.Chats.Runs.Execute.{execute_step}
use daiki_aipass_backend.Chats.Runs.Kept.{AllSound}
use daiki_aipass_backend.Chats.Runs.Reached.{
  no_runs, then_step, run_started, run_controlled, task_advanced, Reach-AllSound,
}
use daiki_aipass_backend.Chats.Runs.Isolated.{control, handle, others, handle-others}
use daiki_aipass_backend.Chats.Runs.Overlap.{overlap, IsOvertaken, overlap-IsOvertaken}

-- The activity is a text here, and a patch replaces it.
abbrev replaced : String → String → String
replaced old patch = patch

abbrev hello : ModelReply
hello = record {
  code = 200;
  request_id = "q1";
  body = "{}";
  error_message = "";
  choices = some ("hello" ∷ []);
}

abbrev a_run : ChatRun String
a_run = record {
  id = "run_1";
  session_id = "s1";
  owner_subject = "u1";
  status = queued;
  research_mode = "auto";
  thinking_mode = "medium";
  command_mode = "";
  command_skills = [];
  request_id = "";
  content = "";
  error = "";
  activity = "queued";
  created_at = 1;
  started_at = none;
  completed_at = none;
  updated_at = 1;
}

overlap-IsOvertaken_example :
    IsOvertaken replaced
      (λ r. "queued")
      "failed"
      9
      a_run
      (overlap replaced (λ r. "queued") "failed" 9 a_run (hello, hello))
overlap-IsOvertaken_example =
    overlap-IsOvertaken replaced (λ r. "queued") "failed" 9 a_run (hello, hello)

abbrev fresh_backend : Backend String
fresh_backend = record {
  sessions = record { id = "s1"; owner_subject = "u1" } ∷ [];
  runs = [];
  messages = [];
  next_message = 1;
  tasks = [];
  cancels = [];
}

abbrev one_started : Backend String
one_started =
    (start_chat_run true true 5 "u1" "s1" "auto" "medium" (λ mode c. mode) fresh_backend
      (ok (record { mode = ""; skills = [] })) (some "1")).0

abbrev one_working : Backend String
one_working = execute_step replaced true 6 "processing" (replied hello hello) 0 one_started

Reach-AllSound_example :
    AllSound
      (control_chat_run true true 7 (λ r. "queued") "u1" "run_1" one_working (some "cancel")).0
Reach-AllSound_example = Reach-AllSound replaced (
    then_step
      (then_step
        (then_step (no_runs fresh_backend refl) (
          run_started true true 5 "u1" "s1" "auto" "medium" (λ mode c. mode) fresh_backend
            (ok (record { mode = ""; skills = [] })) (some "1")))
        (task_advanced true 6 "processing" (replied hello hello) 0 one_started))
      (run_controlled true true 7 (λ r. "queued") "u1" "run_1" one_working (some "cancel")))

-- Another user asks to cancel the run.
handle-others_example :
    others "u2"
      (handle 7 "u2" (control true true (λ r. "queued") "run_1" (some "cancel")) one_working).runs
    ≡ others "u2" one_working.runs
handle-others_example =
    handle-others 7 "u2" (control true true (λ r. "queued") "run_1" (some "cancel")) one_working
