-- ===== src/Chats/Runs/Isolated.antt =====
-- The requests on chat runs (Chats/Runs/Control, Chats/Runs/Execute) reach only their owner's runs.
use daiki_aipass_backend.Prelude.{
  ℕ, String, Option, none, some, Bool, true, not, List, [], ◌∷◌, ◌++◌, str_eq, ◌≡◌, refl, ◌∙◌, ap,
  eq_refl, if◌then◌else◌, arith, if_both, if_cases, Result, ok, err,
}
use daiki_aipass_backend.Chats.Runs.{
  RunStatus, ChatRun, ChatSession, is_settable, has_session, is_row, update_where, find_where,
  new_run, create_chat_run, with_status, set_chat_run_status, reset_run, reset_chat_run,
}
use daiki_aipass_backend.Chats.Runs.Control.{Backend, Commands, start_chat_run, control_chat_run}
use daiki_aipass_backend.Chats.Runs.Execute.{edit_chat_message}
use daiki_aipass_backend.Chats.Runs.Requests.{
  IsPreserved, start_chat_run-Leaves, control_chat_run-Leaves, edit_chat_message-Leaves,
}

-- The requests of startChatRun, controlChatRun and editChatMessage.
pub data ChatRequest (Activity : Type 0) : Type 0 where
  start :
      (reads inserts : Bool) (session mode thinking : String)
      → (String → Commands → Activity)
      → Result Commands
      → Option String
      → ChatRequest Activity
  control :
      (reads updates : Bool)
      → (ChatRun Activity → Activity)
      → (id : String) → Option String
      → ChatRequest Activity
  edit :
      (reads updates edits : Bool) (session : String)
      → Option ℕ
      → Option String
      → ChatRequest Activity

module _ {Activity : Type 0} where
  pub handle : ℕ → String → ChatRequest Activity → Backend Activity → Backend Activity
  handle now owner (start reads inserts session mode thinking initial commands token) b =
      (start_chat_run reads inserts now owner session mode thinking initial b commands token).0
  handle now owner (control reads updates fresh id action) b =
      (control_chat_run reads updates now fresh owner id b action).0
  handle now owner (edit reads updates edits session id content) b =
      (edit_chat_message reads updates edits now owner session id content b).0

  -- The rows of the other owners.
  abbrev pub others : String → List (ChatRun Activity) → List (ChatRun Activity)
  others owner [] = []
  others owner (r ∷ rs) =
      if str_eq r.owner_subject owner then others owner rs else r ∷ others owner rs

  others-update_where :
      (owner id : String) (f : ChatRun Activity → ChatRun Activity) (rows : List (ChatRun Activity))
      → ((r : ChatRun Activity) → (f r).owner_subject ≡ r.owner_subject)
      → others owner (update_where (is_row owner id) f rows) ≡ others owner rows
  others-update_where owner id f [] same = refl
  others-update_where owner id f (r ∷ rs) same =
      if_cases (λ x. others owner (x ∷ update_where (is_row owner id) f rs) ≡ others owner (r ∷ rs))
        (is_row owner id r) (λ own. rw (same r, owned own) (others-update_where owner id f rs same))
        (λ other.
          ap (λ (l : List (ChatRun Activity)). if str_eq r.owner_subject owner then l else r ∷ l)
            (others-update_where owner id f rs same))
    where
      owned : is_row owner id r ≡ true → str_eq r.owner_subject owner ≡ true
      owned own = ground arith

  others-snoc :
      (owner : String) (x : ChatRun Activity) (rows : List (ChatRun Activity))
      → x.owner_subject ≡ owner
      → others owner (rows ++ x ∷ []) ≡ others owner rows
  others-snoc owner x [] e = rw (e, eq_refl owner)
  others-snoc owner x (r ∷ rs) e =
      ap (λ (l : List (ChatRun Activity)). if str_eq r.owner_subject owner then l else r ∷ l)
        (others-snoc owner x rs e)

  module _ (owner : String) (rows0 : List (ChatRun Activity)) where
    abbrev Same : List (ChatRun Activity) → Type 0
    Same rows = others owner rows ≡ others owner rows0

    set-Same :
        (now : ℕ) (id : String) (s : RunStatus) (rows : List (ChatRun Activity))
        → Same rows
        → Same (set_chat_run_status now owner id s rows).0
    unfolding set_chat_run_status
    set-Same now id s rows h =
        if_both (λ (p : List (ChatRun Activity) × Result (Option (ChatRun Activity))). Same p.0)
          (not (is_settable s)) h
          (others-update_where owner id (with_status now s) rows (λ r. refl) ∙ h)

    create-Same :
        (now : ℕ) (sessions : List ChatSession) (x : ChatRun Activity)
        (rows : List (ChatRun Activity))
        → x.owner_subject ≡ owner
        → Same rows
        → Same (create_chat_run now sessions x rows).0
    unfolding create_chat_run
    create-Same now sessions x rows own h =
        if_both (λ (p : List (ChatRun Activity) × Result (Option (ChatRun Activity))). Same p.0)
          (not (has_session x.session_id x.owner_subject sessions)) h
          (go (find_where (λ r. str_eq r.id x.id) rows))
      where
        go :
            (o : Option (ChatRun Activity))
            → Same (
                let p : List (ChatRun Activity) × Result (Option (ChatRun Activity)) = elim o [
                  | none ↦ (rows ++ new_run now x ∷ [], ok (some (new_run now x)))
                  | some r ↦ (rows, err "duplicate key")
                ] in
                p.0)
        go none = others-snoc owner (new_run now x) rows own ∙ h
        go (some r) = h

    reset-Same :
        (fresh : ChatRun Activity → Activity) (now : ℕ) (id : String)
        (rows : List (ChatRun Activity))
        → Same rows
        → Same (reset_chat_run fresh now owner id rows).0
    unfolding reset_chat_run
    reset-Same fresh now id rows h =
        others-update_where owner id (reset_run fresh now) rows (λ r. refl) ∙ h

    Same-IsPreserved : IsPreserved owner Same
    Same-IsPreserved = record {
      set_kept = set-Same;
      create_kept = create-Same;
      reset_kept = reset-Same;
    }

  -- Whatever an owner asks for (to start, pause, resume or cancel a run, or to edit a message), with
  -- whatever id, and whatever the database answers: the runs of all other owners stay as they are.
  pub handle-others :
      (now : ℕ) (owner : String) (request : ChatRequest Activity) (b : Backend Activity)
      → others owner (handle now owner request b).runs ≡ others owner b.runs
  unfolding handle
  handle-others now owner (start reads inserts session mode thinking initial commands token) b =
      start_chat_run-Leaves owner (Same owner b.runs) (Same-IsPreserved owner b.runs) reads inserts
        now session mode thinking initial b commands token refl
  handle-others now owner (control reads updates fresh id action) b =
      control_chat_run-Leaves owner (Same owner b.runs) (Same-IsPreserved owner b.runs) reads
        updates now fresh id b action refl
  handle-others now owner (edit reads updates edits session id content) b =
      edit_chat_message-Leaves owner (Same owner b.runs) (Same-IsPreserved owner b.runs) reads
        updates edits now session id content b refl
