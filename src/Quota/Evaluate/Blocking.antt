-- ===== src/Quota/Evaluate/Blocking.antt =====
-- When evaluateQuota (Quota/Evaluate) blocks a request, and until when.
use daiki_aipass_backend.Prelude.{
  ℕ, ◌≤◌, ◌≡◌, refl, ◌∙◌, ◌⊎◌, inl, inr, ◌↔◌, String, Option, none, some, Bool, true, false, ◌||◌,
  [], str_eq, if◌then◌else◌, ok, arith, All, Any, All-map, All_Any, Ensures, >>=-Ensures,
  Ensures_ok, if_both, subst, sym, Ensures-any,
}
use daiki_aipass_backend.Quota.Policy.{Policy}
use daiki_aipass_backend.Quota.Evaluate.{
  Usage, Ledger, QuotaDecision, QuotaResetStatus, Progress, no_progress, evaluate_specs,
  close_decision, evaluate_quota, with_defaults, policy_quota_specs, reset_credits_for,
  last_reset_of, summary_for, open_decision, counter_key, is_none,
}
use daiki_aipass_backend.Quota.Evaluate.Tracking.{
  IsExhausted, ReachedBy, ResetCovered, Covered, TracksOf, evaluate_specs-Tracks,
}

abbrev pub ResetsBy : ℕ → Option ℕ → Type 0
ResetsBy b none = ⊥
ResetsBy b (some r) = r ≤ b

-- What a decision says of its limits: it blocks exactly if one is exhausted; blocked with a reset,
-- every exhausted limit has reset by then, and one resets just then; blocked without, one exhausted
-- limit never resets.
pub record BlocksRightly (d : QuotaDecision) : Type 0 where
  pub blocks : (d.blocked ≡ true) ↔ Any IsExhausted d.limits
  pub frees :
      (b : ℕ)
      → d.blocked ≡ true
      → d.reset_at ≡ some b
      → All (λ l. IsExhausted l → ResetsBy b l.reset_at) d.limits
        × Any (λ l. IsExhausted l × (l.reset_at ≡ some b)) d.limits
  pub never :
      d.blocked ≡ true → d.reset_at ≡ none → Any (λ l. IsExhausted l × (l.reset_at ≡ none)) d.limits

module _ (d : QuotaDecision) (credits : Option QuotaResetStatus) (g : Progress)
    (t : TracksOf g.limits g) where
  closed_reset :
      g.blocked ≡ true
      → (close_decision d credits g).reset_at
        ≡ (if g.blocking_never then none else g.blocking_reset)
  unfolding close_decision
  closed_reset on = rw on

  covered : Any IsExhausted g.limits → g.blocked ≡ true
  covered any =
      All_Any IsExhausted (Covered g.blocked g.blocking_never g.blocking_reset) (g.blocked ≡ true)
        g.limits t.covers any (λ l e c. (c e).0)

  frees_by :
      (b : ℕ)
      → g.blocking_never ≡ false
      → g.blocking_reset ≡ some b
      → (o : Option ℕ) → ResetCovered g.blocking_never g.blocking_reset o
      → ResetsBy b o
  frees_by b sometime latest none c = cc
  frees_by b sometime latest (some r) (inl c) = cc
  frees_by b sometime latest (some r) (inr c) = subst (ReachedBy r) latest c

  never_free :
      g.blocking_reset ≡ none
      → (o : Option ℕ) → ResetCovered g.blocking_never g.blocking_reset o
      → g.blocking_never ≡ true
  never_free latest none c = c
  never_free latest (some r) (inl c) = c
  never_free latest (some r) (inr c) = absurd (subst (ReachedBy r) latest c)

  latest_of :
      (b : ℕ) (never : Bool) (latest : Option ℕ)
      → (if never then none else latest) ≡ some b
      → (never ≡ false) × (latest ≡ some b)
  latest_of b true latest h = ground arith
  latest_of b false latest h = (refl, h)

  latest_none :
      (never : Bool) (latest : Option ℕ)
      → (if never then none else latest) ≡ none
      → (never ≡ true) ⊎ (latest ≡ none)
  latest_none true latest h = inl refl
  latest_none false latest h = inr h

  close_decision-BlocksRightly : BlocksRightly (close_decision d credits g)
  unfolding close_decision
  close_decision-BlocksRightly = record {
    blocks = (t.blocked_by, covered);
    frees = λ b on e.
        let (sometime, latest) =
          latest_of b g.blocking_never g.blocking_reset (sym (closed_reset on) ∙ e) in
        (
          All-map (Covered g.blocked g.blocking_never g.blocking_reset) _ g.limits
              (λ l c x. frees_by b sometime latest l.reset_at (c x).1) t.covers,
          t.reset_by b latest,
        );
    never = λ on e.
        elim (latest_none g.blocking_never g.blocking_reset (sym (closed_reset on) ∙ e)) [
          | inl n ↦ t.never_by n
          | inr latest ↦ t.never_by (
              All_Any IsExhausted (Covered g.blocked g.blocking_never g.blocking_reset)
                (g.blocking_never ≡ true) g.limits t.covers (t.blocked_by on)
                (λ l x c. never_free latest l.reset_at (c x).1))
        ];
  }

open_decision-BlocksRightly : (p : Policy) (key : String) → BlocksRightly (open_decision p key)
unfolding open_decision
open_decision-BlocksRightly p key = record {
  blocks = (λ e. cc, λ e. absurd e);
  frees = λ b e _. cc;
  never = λ e _. cc;
}

no_progress-Tracks : TracksOf [] no_progress
no_progress-Tracks = record {
  covers = tt;
  blocked_by = λ e. cc;
  never_by = λ e. cc;
  reset_by = λ b e. ground arith;
}

abbrev IsRight : QuotaDecision × Usage → Type 0
IsRight (d, usage) = BlocksRightly d

evaluate_quota-Ensures :
    (ledger : Ledger) (now : ℕ) (subject api_key_id : String) (p : Policy) (as_key : Bool)
    → Ensures IsRight (evaluate_quota ledger now subject api_key_id p as_key)
unfolding evaluate_quota
evaluate_quota-Ensures ledger now subject api_key_id policy as_key =
    let p = with_defaults policy in
    let d = open_decision p (counter_key subject api_key_id as_key) in
    if_both (Ensures IsRight) (str_eq p.quota_mode "unlimited" || is_none p.token_limit)
      (open_decision-BlocksRightly p (counter_key subject api_key_id as_key))
      (>>=-Ensures (λ _. Unit {0}) IsRight (policy_quota_specs p) _
        (Ensures-any (policy_quota_specs p))
        λ specs _.
          >>=-Ensures (λ _. Unit {0}) IsRight (reset_credits_for ledger subject as_key) _
            (Ensures-any (reset_credits_for ledger subject as_key))
            λ credits _.
              let summary = summary_for ledger subject api_key_id as_key in
              >>=-Ensures (λ h. TracksOf h.limits h) IsRight
                (evaluate_specs summary (last_reset_of credits) now specs no_progress) _
                (evaluate_specs-Tracks summary (last_reset_of credits) now specs no_progress
                  no_progress-Tracks)
                λ g t. close_decision-BlocksRightly d credits g t)

-- Whatever the ledger answers, a decision that evaluateQuota returns blocks the request exactly if
-- one of its limits has no tokens left. If it blocks with a reset time, every exhausted limit has
-- reset by then and one of them resets just then; if it blocks without, one exhausted limit never
-- resets.
pub evaluate_quota-BlocksRightly :
    (ledger : Ledger) (now : ℕ) (subject api_key_id : String) (p : Policy) (as_key : Bool)
    (d : QuotaDecision) (usage : Usage)
    → evaluate_quota ledger now subject api_key_id p as_key ≡ ok (d, usage)
    → BlocksRightly d
evaluate_quota-BlocksRightly ledger now subject api_key_id p as_key d usage e =
    Ensures_ok IsRight (evaluate_quota-Ensures ledger now subject api_key_id p as_key) e
