-- ===== src/Runtime/Pool/Choice/Selected.antt =====
-- What the choice of Runtime/Pool/Choice guarantees of the selected model and of the fallback.
use daiki_aipass_backend.Prelude.{
  ◌≡◌, refl, sym, ap, ◌∙◌, subst, String, Option, true, false, inl, inr, ◌⊎◌, str_eq, List, [], ◌∷◌,
  All, Any, All-map, All-zip, All_Any,
}
use daiki_aipass_backend.Prelude.Int.{ℤ, pos}
use daiki_aipass_backend.Runtime.Budget.{ProviderModel}
use daiki_aipass_backend.Runtime.Pool.{View, normalize_pool_route}
use daiki_aipass_backend.Runtime.Pool.Score.{Scores}
use daiki_aipass_backend.Runtime.Pool.Choice.{
  Candidate, candidates_of, keep_best_priority, keep_paced, sort_candidates, choose, selection_of,
  select_free_pool_model,
}
use daiki_aipass_backend.Runtime.Pool.Choice.Fallback.{pool_strategy}
use daiki_aipass_backend.Runtime.Pool.Choice.Candidates.{
  IsEligible, over_pace, IsCandidateOf, IsCandidateAmong, candidates_of-All, candidates_of-Any,
}
use daiki_aipass_backend.Runtime.Pool.Choice.Kept.{
  keep_best_priority_same, keep_paced-All, sort_candidates-All, choose-holds, NotEmpty,
  Any-NotEmpty, keep_paced-fair, keep_paced-NotEmpty, sort_candidates-NotEmpty,
}

List-cases : {A : Type 0} (xs : List A) → (xs ≡ []) ⊎ ((x : A) × (rest : List A) × (xs ≡ x ∷ rest))
List-cases [] = inl refl
List-cases (x ∷ xs) = inr (x, xs, refl)

module _ (scores : Scores) (view : View) where
  -- Of an eligible model: it is one of the models, and is over its daily pace only if all are.
  pub record IsFound (ms : List ProviderModel) (excluded : List String) (name : String)
      (m : ProviderModel) : Type 0 where
    pub listed : Any (λ x. x ≡ m) ms
    pub eligible : IsEligible scores view excluded m
    pub named : name ≡ m.litellm_model_name
    pub fair :
        over_pace scores view excluded m ≡ true
        → (o : ProviderModel) → Any (λ x. x ≡ o) ms
        → IsEligible scores view excluded o
        → over_pace scores view excluded o ≡ true

  -- The name of an eligible model, or no name if no model is eligible.
  abbrev pub IsSelected : List ProviderModel → List String → String → Type 0
  IsSelected ms excluded name =
      ((m : ProviderModel) × IsFound ms excluded name m)
      ⊎ ((name ≡ "")
          × ((o : ProviderModel) → Any (λ x. x ≡ o) ms → IsEligible scores view excluded o → ⊥))

  module _ (ms : List ProviderModel) (excluded : List String) where
    abbrev all : List (Candidate scores)
    all = candidates_of scores view excluded ms

    abbrev Kept : Candidate scores → Type 0
    Kept c =
        IsCandidateAmong scores view excluded ms c
        × (c.over_paced ≡ true → All (λ (x : Candidate scores). x.over_paced ≡ true) all)

    abbrev kept : List (Candidate scores)
    kept = sort_candidates scores (keep_paced scores (keep_best_priority scores all))

    all_kept : keep_best_priority scores all ≡ all
    all_kept = keep_best_priority_same scores all (
        All-map (IsCandidateAmong scores view excluded ms)
          (λ (c : Candidate scores). c.priority ≡ pos 0) all (λ c h. h.2.priority_zero)
          (candidates_of-All scores view excluded ms))

    kept-All : All Kept kept
    kept-All =
        let among = candidates_of-All scores view excluded ms in
        let paced =
          All-zip (IsCandidateAmong scores view excluded ms)
            (λ (c : Candidate scores).
              c.over_paced ≡ true → All (λ (x : Candidate scores). x.over_paced ≡ true) all)
            Kept (keep_paced scores all) (λ c p q. (p, q))
            (keep_paced-All scores (IsCandidateAmong scores view excluded ms) all among)
            (keep_paced-fair scores all) in
        rw all_kept (sort_candidates-All scores Kept (keep_paced scores all) paced)

    kept-NotEmpty :
        (o : ProviderModel)
        → Any (λ x. x ≡ o) ms
        → IsEligible scores view excluded o
        → NotEmpty scores kept
    kept-NotEmpty o h e =
        let some_candidate =
          Any-NotEmpty scores (IsCandidateOf scores view excluded o) all
            (candidates_of-Any scores view excluded o ms h e) in
        rw all_kept (
          sort_candidates-NotEmpty scores (keep_paced scores all)
            (keep_paced-NotEmpty scores all some_candidate))

    candidate-IsFound :
        (c : Candidate scores)
        → Kept c
        → (m : ProviderModel) × IsFound ms excluded c.model.litellm_model_name m
    candidate-IsFound c ((m, h, is), q) = (
      m,
      record {
        listed = h;
        eligible = is.eligible;
        named = ap (λ (x : ProviderModel). x.litellm_model_name) is.same;
        fair = λ over o k e.
            All_Any (IsCandidateOf scores view excluded o)
              (λ (x : Candidate scores). x.over_paced ≡ true)
              (over_pace scores view excluded o ≡ true) all (q (is.pace ∙ over))
              (candidates_of-Any scores view excluded o ms k e) λ x p r. sym p.pace ∙ r;
      },
    )

    selection_of-IsSelected :
        (route : String) (counter : Option ℤ)
        → IsSelected ms excluded (selection_of scores route counter kept).model_name
    unfolding selection_of
    selection_of-IsSelected route counter = elim (List-cases kept) [
      | inl e ↦ rw e (inr (refl, λ o h k. subst (NotEmpty scores) e (kept-NotEmpty o h k)))
      | inr (first, others, e) ↦ rw e (
          inl (
            candidate-IsFound (choose scores counter first others)
              (choose-holds scores Kept counter first others (subst (All Kept) e kept-All))))
    ]

  module _ (models : String → List ProviderModel) where
    -- For a route that is known, the selected name is that of a model of the route's pool whose trimmed
    -- name is neither empty nor excluded, whose circuit is closed and whose score is positive, and which
    -- has used up its daily pace only if every such model has; no name is selected exactly if the pool
    -- has no such model.
    pub select_free_pool_model-IsSelected :
        (route : String) (excluded : List String)
        → str_eq (normalize_pool_route route) "" ≡ false
        → IsSelected
            (models (normalize_pool_route route))
            excluded
            (select_free_pool_model scores view models route excluded).model_name
    unfolding select_free_pool_model
    select_free_pool_model-IsSelected route excluded h =
        let r = normalize_pool_route route in
        rw (select_free_pool_model, h)
          (selection_of-IsSelected (models r) excluded r (view.next_counter r))

    -- The fallback is a model of the pool that may be chosen and is not the current one, or there is
    -- none for a request with an image, or the configured one stays.
    abbrev pub IsFallback : String → List String → String → ProviderModel → ProviderModel → Type 0
    IsFallback route tried current m after =
        ((x : ProviderModel) × IsFound (models (normalize_pool_route route)) tried
            after.fallback_model_name x
          × (str_eq after.fallback_model_name current ≡ false)
          × (after.context_strategy ≡ pool_strategy m.context_strategy))
        ⊎ ((str_eq route "vision" ≡ true → after.fallback_model_name ≡ "")
            × (str_eq route "vision" ≡ false → after ≡ m))
