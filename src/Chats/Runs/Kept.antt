-- ===== src/Chats/Runs/Kept.antt =====
-- What the status of a chat run (Chats/Runs) says of its other columns, and that the statements of
-- the handlers keep it.
use daiki_aipass_backend.Prelude.{
  false_ne_true, ℕ, String, Option, none, some, Bool, true, not, List, [], ◌∷◌, ◌++◌, str_eq, ◌≡◌,
  arith, All, All-snoc, if_both, if_cases, Result, ok, err,
}
use daiki_aipass_backend.Chats.Runs.{
  RunStatus, queued, running, paused, completed, failed, cancelled, ChatRun, ChatSession,
  is_settable, has_session, update_where, find_where, new_run, create_chat_run, with_status,
  set_chat_run_status, reset_run, reset_chat_run, is_row,
}
use daiki_aipass_backend.Chats.Runs.Control.{Backend}
use daiki_aipass_backend.Chats.Runs.Requests.{IsPreserved}

abbrev pub HasTime : Option ℕ → Type 0
HasTime none = ⊥
HasTime (some t) = Unit

module _ {Activity : Type 0} where
  -- What the status of a run says of its other columns.
  abbrev pub SoundAt : RunStatus → ChatRun Activity → Type 0
  SoundAt queued r = Unit
  SoundAt running r = HasTime r.started_at
  SoundAt paused r = Unit
  SoundAt completed r = HasTime r.completed_at × (r.error ≡ "")
  SoundAt failed r = HasTime r.completed_at
  SoundAt cancelled r = HasTime r.completed_at

  abbrev pub IsSound : ChatRun Activity → Type 0
  IsSound r = SoundAt r.status r

  abbrev pub AllSound : Backend Activity → Type 0
  AllSound b = All IsSound b.runs

  module _ {ℓ} (P : ChatRun Activity → Type ℓ) where
    pub update_where-All :
        (test : ChatRun Activity → Bool) (f : ChatRun Activity → ChatRun Activity)
        (rows : List (ChatRun Activity))
        → ((r : ChatRun Activity) → P r → P (f r))
        → All P rows
        → All P (update_where test f rows)
    update_where-All test f [] k h = tt
    update_where-All test f (r ∷ rs) k h =
        (if_both P (test r) (k r h.0) h.0, update_where-All test f rs k h.1)

  abbrev pub Keeps {ℓ} : {A : Type ℓ} → List (ChatRun Activity) × A → Type 0
  Keeps p = All IsSound p.0

  with_status-IsSound :
      (now : ℕ) (s : RunStatus) (r : ChatRun Activity)
      → is_settable s ≡ true
      → IsSound (with_status now s r)
  with_status-IsSound now queued r h = tt
  with_status-IsSound now running r h = or_now_HasTime r.started_at
    where
      or_now_HasTime : (o : Option ℕ) → HasTime (elim o [ none ↦ some now | some t ↦ some t ])
      or_now_HasTime none = tt
      or_now_HasTime (some t) = tt
  with_status-IsSound now paused r h = tt
  with_status-IsSound now completed r h = absurd (false_ne_true h)
  with_status-IsSound now failed r h = absurd (false_ne_true h)
  with_status-IsSound now cancelled r h = tt

  set_chat_run_status-Keeps :
      (now : ℕ) (owner id : String) (s : RunStatus) (rows : List (ChatRun Activity))
      → All IsSound rows
      → Keeps (set_chat_run_status now owner id s rows)
  unfolding set_chat_run_status
  set_chat_run_status-Keeps now owner id s rows h =
      if_cases Keeps (not (is_settable s)) (λ e. h)
        (λ e.
          update_where-All IsSound (is_row owner id) (with_status now s) rows
            (λ r k. with_status-IsSound now s r (ground arith)) h)

  create_chat_run-Keeps :
      (now : ℕ) (sessions : List ChatSession) (x : ChatRun Activity)
      (rows : List (ChatRun Activity))
      → All IsSound rows
      → Keeps (create_chat_run now sessions x rows)
  unfolding create_chat_run
  create_chat_run-Keeps now sessions x rows h =
      if_both Keeps (not (has_session x.session_id x.owner_subject sessions)) h
        (go (find_where (λ r. str_eq r.id x.id) rows))
    where
      go :
          (o : Option (ChatRun Activity))
          → Keeps (
              let p : List (ChatRun Activity) × Result (Option (ChatRun Activity)) = elim o [
                | none ↦ (rows ++ new_run now x ∷ [], ok (some (new_run now x)))
                | some r ↦ (rows, err "duplicate key")
              ] in
              p)
      go none = All-snoc IsSound rows (new_run now x) h tt
      go (some r) = h

  reset_chat_run-Keeps :
      (fresh : ChatRun Activity → Activity) (now : ℕ) (owner id : String)
      (rows : List (ChatRun Activity))
      → All IsSound rows
      → Keeps (reset_chat_run fresh now owner id rows)
  unfolding reset_chat_run
  reset_chat_run-Keeps fresh now owner id rows =
      update_where-All IsSound (is_row owner id) (reset_run fresh now) rows (λ r k. tt)

  -- Every request keeps the rows sound.
  pub IsSound-IsPreserved : (owner : String) → IsPreserved owner (All IsSound)
  IsSound-IsPreserved owner = record {
    set_kept = λ now id s rows. set_chat_run_status-Keeps now owner id s rows;
    create_kept = λ now sessions x rows own. create_chat_run-Keeps now sessions x rows;
    reset_kept = λ fresh now id rows. reset_chat_run-Keeps fresh now owner id rows;
  }
