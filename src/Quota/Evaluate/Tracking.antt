-- ===== src/Quota/Evaluate/Tracking.antt =====
-- The invariant of the loop of evaluateQuota (Quota/Evaluate).
use daiki_aipass_backend.Prelude.{
  ℕ, ◌≤◌, ◌≡◌, refl, ◌⊎◌, inl, inr, String, Option, none, some, Bool, true, false, List, [], ◌∷◌,
  ◌++◌, Result, arith, All, Any, All-snoc, Any-append_left, Any-snoc, All-map, Ensures, >>=-Ensures,
  Bool-cases, subst, sym, Ensures-any,
}
use daiki_aipass_backend.Prelude.Int.{is_pos}
use daiki_aipass_backend.Quota.Window.{quota_window_spec}
use daiki_aipass_backend.Quota.Evaluate.{
  Usage, QuotaSpec, QuotaLimitDecision, Progress, block, record_primary, record_limit,
  limit_decision, evaluate_specs, window_start_after,
}

-- The limit has no tokens left; what its reset allows the blocking state to be.
abbrev pub IsExhausted : QuotaLimitDecision → Type 0
IsExhausted l = is_pos l.remaining ≡ false

abbrev pub ReachedBy : ℕ → Option ℕ → Type 0
ReachedBy r none = ⊥
ReachedBy r (some b) = r ≤ b

abbrev pub ResetCovered : Bool → Option ℕ → Option ℕ → Type 0
ResetCovered never latest none = never ≡ true
ResetCovered never latest (some r) = (never ≡ true) ⊎ ReachedBy r latest

abbrev pub Covered : Bool → Bool → Option ℕ → QuotaLimitDecision → Type 0
Covered blocked never latest l =
    IsExhausted l → (blocked ≡ true) × ResetCovered never latest l.reset_at

-- The blocking state is that of the limits seen so far.
pub record Tracks (xs : List QuotaLimitDecision) (blocked never : Bool) (latest : Option ℕ)
    : Type 0 where
  pub covers : All (Covered blocked never latest) xs
  pub blocked_by : blocked ≡ true → Any IsExhausted xs
  pub never_by : never ≡ true → Any (λ l. IsExhausted l × (l.reset_at ≡ none)) xs
  pub reset_by : (b : ℕ) → latest ≡ some b → Any (λ l. IsExhausted l × (l.reset_at ≡ some b)) xs

abbrev pub TracksOf : List QuotaLimitDecision → Progress → Type 0
TracksOf xs g = Tracks xs g.blocked g.blocking_never g.blocking_reset

-- Blocking further keeps what is covered, and covers the reset that blocks.
ResetCovered-block :
    (o : Option ℕ) (id : String) (reset : Option ℕ) (g : Progress)
    → ResetCovered g.blocking_never g.blocking_reset o
    → let h = block id reset g in ResetCovered h.blocking_never h.blocking_reset o
unfolding block
ResetCovered-block none id none g c = ground arith
ResetCovered-block none id (some r) g c = ground arith
ResetCovered-block (some q) id none g c = ground arith
ResetCovered-block (some q) id (some r) g c = ground arith

ResetCovered-block_self :
    (id : String) (reset : Option ℕ) (g : Progress)
    → let h = block id reset g in ResetCovered h.blocking_never h.blocking_reset reset
unfolding block
ResetCovered-block_self id none g = refl
ResetCovered-block_self id (some r) g = ground arith

blocked-block : (id : String) (reset : Option ℕ) (g : Progress) → (block id reset g).blocked ≡ true
unfolding block
blocked-block id none g = refl
blocked-block id (some r) g = ground arith

never-block :
    (id : String) (reset : Option ℕ) (g : Progress)
    → (block id reset g).blocking_never ≡ true
    → (g.blocking_never ≡ true) ⊎ (reset ≡ none)
unfolding block
never-block id none g h = inr refl
never-block id (some r) g h = ground arith

reset-block :
    (id : String) (reset : Option ℕ) (g : Progress) (b : ℕ)
    → (block id reset g).blocking_reset ≡ some b
    → (g.blocking_reset ≡ some b) ⊎ (reset ≡ some b)
unfolding block
reset-block id none g b h = ground arith
reset-block id (some r) g b h = ground arith

-- The state with one more limit noted, before it blocks.
abbrev noted : QuotaLimitDecision → Usage → Progress → Progress
noted l usage g = record_primary l usage (record g { limits = g.limits ++ l ∷ [] })

noted_fields :
    (l : QuotaLimitDecision) (usage : Usage) (g : Progress)
    → ((noted l usage g).limits ≡ g.limits ++ l ∷ [])
      × ((noted l usage g).blocked ≡ g.blocked)
      × ((noted l usage g).blocking_never ≡ g.blocking_never)
      × ((noted l usage g).blocking_reset ≡ g.blocking_reset)
unfolding record_primary
noted_fields l usage g = ground arith

Tracks-open :
    (xs : List QuotaLimitDecision) (l : QuotaLimitDecision) (g : Progress)
    → TracksOf xs g
    → is_pos l.remaining ≡ true
    → TracksOf (xs ++ l ∷ []) g
Tracks-open xs l g t more = record {
  covers = All-snoc (Covered g.blocked g.blocking_never g.blocking_reset) xs l t.covers (λ e. cc);
  blocked_by = λ e. Any-append_left IsExhausted xs (l ∷ []) (t.blocked_by e);
  never_by = λ e. Any-append_left _ xs (l ∷ []) (t.never_by e);
  reset_by = λ b e. Any-append_left _ xs (l ∷ []) (t.reset_by b e);
}

Tracks-block :
    (xs : List QuotaLimitDecision) (l : QuotaLimitDecision) (g : Progress)
    → TracksOf xs g
    → IsExhausted l
    → TracksOf (xs ++ l ∷ []) (block l.id l.reset_at g)
Tracks-block xs l g t e =
    let h = block l.id l.reset_at g in
    let on : h.blocked ≡ true = blocked-block l.id l.reset_at g in
    record {
      covers =
          All-snoc (Covered h.blocked h.blocking_never h.blocking_reset) xs l
            (All-map (Covered g.blocked g.blocking_never g.blocking_reset)
              (Covered h.blocked h.blocking_never h.blocking_reset) xs
              (λ x c k. (on, ResetCovered-block x.reset_at l.id l.reset_at g (c k).1)) t.covers)
            (λ _. (on, ResetCovered-block_self l.id l.reset_at g));
      blocked_by = λ _. Any-snoc IsExhausted xs l e;
      never_by = λ k. elim (never-block l.id l.reset_at g k) [
        | inl old ↦ Any-append_left _ xs (l ∷ []) (t.never_by old)
        | inr new ↦ Any-snoc _ xs l (e, new)
      ];
      reset_by = λ b k. elim (reset-block l.id l.reset_at g b k) [
        | inl old ↦ Any-append_left _ xs (l ∷ []) (t.reset_by b old)
        | inr new ↦ Any-snoc _ xs l (e, new)
      ];
    }

Tracks-noted :
    (l : QuotaLimitDecision) (usage : Usage) (g : Progress) (xs : List QuotaLimitDecision)
    → TracksOf xs g
    → TracksOf xs (noted l usage g)
Tracks-noted l usage g xs t = let (_, b, n, r) = noted_fields l usage g in rw (b, n, r) t

limits-record_limit :
    (l : QuotaLimitDecision) (usage : Usage) (g : Progress)
    → (record_limit l usage g).limits ≡ g.limits ++ l ∷ []
unfolding record_limit record_primary block
limits-record_limit l usage g = ground arith

record_limit-open :
    (l : QuotaLimitDecision) (usage : Usage) (g : Progress)
    → is_pos l.remaining ≡ true
    → record_limit l usage g ≡ noted l usage g
unfolding record_limit
record_limit-open l usage g e = rw e

record_limit-block :
    (l : QuotaLimitDecision) (usage : Usage) (g : Progress)
    → IsExhausted l
    → record_limit l usage g ≡ block l.id l.reset_at (noted l usage g)
unfolding record_limit
record_limit-block l usage g e = rw e

Tracks-record_limit :
    (l : QuotaLimitDecision) (usage : Usage) (g : Progress)
    → TracksOf g.limits g
    → TracksOf (record_limit l usage g).limits (record_limit l usage g)
Tracks-record_limit l usage g t =
    let start : TracksOf g.limits (noted l usage g) = Tracks-noted l usage g g.limits t in
    rw (limits-record_limit l usage g) (elim (Bool-cases (is_pos l.remaining)) [
      | inl e ↦
          subst (TracksOf (g.limits ++ l ∷ [])) (sym (record_limit-open l usage g e))
            (Tracks-open g.limits l (noted l usage g) start e)
      | inr e ↦
          subst (TracksOf (g.limits ++ l ∷ [])) (sym (record_limit-block l usage g e))
            (Tracks-block g.limits l (noted l usage g) start e)
    ])

pub evaluate_specs-Tracks :
    (summary : ℕ → Result Usage) (last_reset : Option ℕ) (now : ℕ) (specs : List QuotaSpec)
    (g : Progress)
    → TracksOf g.limits g
    → Ensures (λ h. TracksOf h.limits h) (evaluate_specs summary last_reset now specs g)
unfolding evaluate_specs
evaluate_specs-Tracks summary last_reset now [] g t = t
evaluate_specs-Tracks summary last_reset now (spec ∷ specs) g t =
    let window =
      quota_window_spec spec.interval_kind spec.interval_count spec.interval_seconds now in
    let start = window_start_after last_reset now window.0 in
    >>=-Ensures (λ _. Unit {0}) (λ h. TracksOf h.limits h) (summary start) _
      (Ensures-any (summary start))
      λ usage _.
        evaluate_specs-Tracks summary last_reset now specs _
          (Tracks-record_limit (limit_decision spec start window.1 usage) usage g t)
