-- ===== src/Chats/Runs/Overlap.antt =====
-- A run that is paused and resumed while its model still answers (Chats/Runs/Control, Execute).
use daiki_aipass_backend.Prelude.{
  ℕ, String, none, some, Bool, true, false, List, [], ◌∷◌, ◌≡◌, refl, to_lower, trim_space, eq_refl,
  arith,
}
use daiki_aipass_backend.Chats.Runs.{
  running, paused, failed, ChatRun, chat_run, set_chat_run_status, reset_chat_run,
  update_chat_run_activity, fail_chat_run, with_status, reset_run, failed_run,
}
use daiki_aipass_backend.Chats.Runs.Control.{
  replied, ModelReply, last_reply, Phase, launched, working, answered, failing, finished, Task,
  Backend, load, task_at, launch_chat_run, control_chat_run,
}
use daiki_aipass_backend.Chats.Runs.Execute.{execute_step}

module _ {Activity : Type 0} (merge : Activity → Activity → Activity)
    (fresh : ChatRun Activity → Activity) (patch : Activity) (now : ℕ) where
  abbrev task_of : ChatRun Activity → Bool → Phase → Task
  task_of r stopped p = record {
    run_id = r.id;
    owner_subject = r.owner_subject;
    session_id = r.session_id;
    interrupted = stopped;
    phase = p;
  }

  -- A backend whose only run is `r`, with its goroutines.
  abbrev pub only : ChatRun Activity → List Task → List (String × ℕ) → Backend Activity
  only r tasks cancels = record {
    sessions = [];
    runs = r ∷ [];
    messages = [];
    next_message = 0;
    tasks = tasks;
    cancels = cancels;
  }

  -- The run waits for its model.
  abbrev pub waiting : ChatRun Activity → Backend Activity
  waiting r = only (record r { status = running }) (task_of r false working ∷ []) ((r.id, 0) ∷ [])

  abbrev pub control : ChatRun Activity → String → Backend Activity → Backend Activity
  control r action b = (control_chat_run true true now fresh r.owner_subject r.id b (some action)).0

  abbrev pub advance : (ModelReply × ModelReply) → ℕ → Backend Activity → Backend Activity
  advance reply n b = execute_step merge true now patch (replied reply.0 reply.1) n b

  pause_lem :
      (r : ChatRun Activity)
      → control r "pause" (waiting r)
        ≡ only
            (with_status now paused (record r { status = running }))
            (task_of r true working ∷ [])
            ((r.id, 0) ∷ [])
  unfolding control_chat_run chat_run set_chat_run_status to_lower trim_space
  pause_lem r = ground (arith, eq_refl r.id, eq_refl r.owner_subject)

  -- The row after a pause, after the resumption, and once the second goroutine has begun.
  abbrev stopped_run : ChatRun Activity → ChatRun Activity
  stopped_run r = with_status now paused (record r { status = running })

  abbrev queued_run : ChatRun Activity → ChatRun Activity
  queued_run r = reset_run fresh now (stopped_run r)

  abbrev begun_run : ChatRun Activity → ChatRun Activity
  begun_run r = record (with_status now running (queued_run r)) {
    activity = merge (queued_run r).activity patch;
  }

  resume_lem :
      (r : ChatRun Activity)
      → control r "resume" (only (stopped_run r) (task_of r true working ∷ []) ((r.id, 0) ∷ []))
        ≡ only
            (queued_run r)
            (task_of r true working ∷ task_of r false launched ∷ [])
            ((r.id, 1) ∷ [])
  unfolding control_chat_run chat_run reset_chat_run launch_chat_run to_lower trim_space
  resume_lem r = ground (arith, eq_refl r.id, eq_refl r.owner_subject)

  begin_lem :
      (r : ChatRun Activity) (reply : ModelReply × ModelReply)
      → advance reply 1 (
          only
            (queued_run r)
            (task_of r true working ∷ task_of r false launched ∷ [])
            ((r.id, 1) ∷ []))
        ≡ only
            (begun_run r)
            (task_of r true working ∷ task_of r false working ∷ [])
            ((r.id, 1) ∷ [])
  unfolding execute_step set_chat_run_status update_chat_run_activity
  begin_lem r reply = ground (arith, eq_refl r.id, eq_refl r.owner_subject)

  answer_lem :
      (r : ChatRun Activity) (reply : ModelReply × ModelReply)
      → advance reply 0 (
          only
            (begun_run r)
            (task_of r true working ∷ task_of r false working ∷ [])
            ((r.id, 1) ∷ []))
        ≡ only
            (begun_run r)
            (task_of r true (answered (replied reply.0 reply.1)) ∷ task_of r false working ∷ [])
            ((r.id, 1) ∷ [])
  unfolding execute_step
  answer_lem r reply = refl

  decide_lem :
      (r : ChatRun Activity) (reply next : ModelReply × ModelReply)
      → advance next 0 (
          only
            (begun_run r)
            (task_of r true (answered (replied reply.0 reply.1)) ∷ task_of r false working ∷ [])
            ((r.id, 1) ∷ []))
        ≡ only
            (begun_run r)
            (task_of r true (failing (last_reply reply.0 reply.1).request_id "run interrupted")
              ∷ task_of r false working
              ∷ [])
            ((r.id, 1) ∷ [])
  unfolding execute_step chat_run
  decide_lem r reply next = ground (arith, eq_refl r.id, eq_refl r.owner_subject)

  fail_lem :
      (r : ChatRun Activity) (reply next : ModelReply × ModelReply)
      → advance next 0 (
          only
            (begun_run r)
            (task_of r true (failing (last_reply reply.0 reply.1).request_id "run interrupted")
              ∷ task_of r false working
              ∷ [])
            ((r.id, 1) ∷ []))
        ≡ only
            (failed_run merge now
              (last_reply reply.0 reply.1).request_id
              "run interrupted"
              patch
              (begun_run r))
            (task_of r true finished ∷ task_of r false working ∷ [])
            []
  unfolding execute_step fail_chat_run
  fail_lem r reply next = ground (arith, eq_refl r.id, eq_refl r.owner_subject)

  -- A pause, a resumption, the begin of the second goroutine, and the end of the first.
  abbrev pub overlap : ChatRun Activity → (ModelReply × ModelReply) → Backend Activity
  overlap r reply = advance reply 0 (
      advance reply 0
        (advance reply 0 (advance reply 1 (control r "resume" (control r "pause" (waiting r))))))

  overlap_lem :
      (r : ChatRun Activity) (reply : ModelReply × ModelReply)
      → overlap r reply
        ≡ only
            (failed_run merge now
              (last_reply reply.0 reply.1).request_id
              "run interrupted"
              patch
              (begun_run r))
            (task_of r true finished ∷ task_of r false working ∷ [])
            []
  overlap_lem r reply = rw (
    pause_lem r,
    resume_lem r,
    begin_lem r reply,
    answer_lem r reply,
    decide_lem r reply reply,
    fail_lem r reply reply,
  )

  -- What the first goroutine leaves of the run that was resumed.
  pub record IsOvertaken (r : ChatRun Activity) (b : Backend Activity) : Type 0 where
    pub marked :
        (row : ChatRun Activity) × (b.runs ≡ row ∷ []) × (row.id ≡ r.id) × (row.status ≡ failed)
    pub still_working :
        (t : Task) × (task_at 1 b.tasks ≡ some t)
        × (t.run_id ≡ r.id)
        × (t.phase ≡ working)
        × (t.interrupted ≡ false)
    pub unreachable : load r.id b.cancels ≡ none

  -- Whatever the run is and whatever its model replies: if its owner pauses it while the model
  -- answers and resumes it, and the second goroutine begins before the first one ends, then the
  -- first one marks the run as failed and takes the entry by which it could be cancelled, while the
  -- second still works on it.
  pub overlap-IsOvertaken :
      (r : ChatRun Activity) (reply : ModelReply × ModelReply) → IsOvertaken r (overlap r reply)
  overlap-IsOvertaken r reply = rw (overlap_lem r reply) (record {
    marked = (
      failed_run merge now (last_reply reply.0 reply.1).request_id "run interrupted" patch
          (begun_run r),
      refl,
      refl,
      refl,
    );
    still_working = (task_of r false working, refl, refl, refl, refl);
    unreachable = refl;
  })
