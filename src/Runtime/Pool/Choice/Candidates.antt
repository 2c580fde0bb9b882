-- ===== src/Runtime/Pool/Choice/Candidates.antt =====
-- The candidates of Runtime/Pool/Choice are exactly the usable models with a positive score, and the
-- filters and the sort keep what holds of all of them.
use daiki_aipass_backend.Prelude.{
  false_ne_true, ◌≡◌, refl, sym, subst, String, some, none, Bool, true, false, ◌&&◌, ◌||◌,
  Bool-cases, inl, inr, ◌⊎◌, trim_space, if_cases, str_eq, not, List, [], ◌∷◌, All, Any, All-map,
  arith,
}
use daiki_aipass_backend.Prelude.Int.{ℤ, pos, max_ℤ, ◌≤ℤ◌}
use daiki_aipass_backend.Runtime.Budget.{ProviderModel}
use daiki_aipass_backend.Runtime.Pool.{View}
use daiki_aipass_backend.Runtime.Pool.Score.{Scores}
use daiki_aipass_backend.Runtime.Pool.Choice.{
  Candidate, scored_candidate, candidate_of, candidates_of, is_usable, is_listed, score_under,
  filter_by, has_any,
}
use daiki_aipass_backend.Runtime.Pool.Choice.Walk.{HasWeight}

and_left : (a b : Bool) → (a && b) ≡ true → a ≡ true
and_left a b h = ground arith

and_right : (a b : Bool) → (a && b) ≡ true → b ≡ true
and_right a b h = ground arith

not_both : (a b : Bool) → a ≡ true → b ≡ true → (a && b) ≡ false → ⊥
not_both a b h k e = ground arith

usable_parts :
    (a b c : Bool) → (not a && not b && not c) ≡ true → (a ≡ false) × (b ≡ false) × (c ≡ false)
usable_parts a b c h = ground arith

usable_whole : (a b c : Bool) → a ≡ false → b ≡ false → c ≡ false → (not a && not b && not c) ≡ true
usable_whole a b c h k l = ground arith

at_least_one : (a : ℤ) → pos 1 ≤ℤ max_ℤ (pos 1) a
at_least_one a = ground arith

module _ {A : Type 0} (P : A → Type 0) where
  pub filter_by-All : (p : A → Bool) (xs : List A) → All P xs → All P (filter_by p xs)
  unfolding filter_by
  filter_by-All p [] h = tt
  filter_by-All p (x ∷ xs) (h, k) =
      let rest = filter_by-All p xs k in if_cases (All P) (p x) (λ e. (h, rest)) λ e. rest

pub filter_by-kept :
    {A : Type 0} (p : A → Bool) (xs : List A) → All (λ x. p x ≡ true) (filter_by p xs)
unfolding filter_by
filter_by-kept p [] = tt
filter_by-kept p (x ∷ xs) =
    let rest = filter_by-kept p xs in
    if_cases (All (λ y. p y ≡ true)) (p x) (λ e. (e, rest)) λ e. rest

pub filter_by_same :
    {A : Type 0} (p : A → Bool) (xs : List A) → All (λ x. p x ≡ true) xs → filter_by p xs ≡ xs
unfolding filter_by
filter_by_same p [] h = refl
filter_by_same p (x ∷ xs) (h, k) = rw (h, filter_by_same p xs k) refl

pub filter_by-Any :
    {A : Type 0} (p : A → Bool) (xs : List A)
    → has_any p xs ≡ true
    → Any (λ x. p x ≡ true) (filter_by p xs)
unfolding filter_by
filter_by-Any p [] h = absurd (false_ne_true h)
filter_by-Any p (x ∷ xs) h = elim (Bool-cases (p x)) [
  | inl e ↦ rw e (inl e)
  | inr e ↦
      let rest : has_any p xs ≡ true = subst (λ b. (b || has_any p xs) ≡ true) e h in
      rw e (filter_by-Any p xs rest)
]

pub has_any-none :
    {A : Type 0} (p : A → Bool) (xs : List A) → has_any p xs ≡ false → All (λ x. p x ≡ false) xs
has_any-none p [] h = tt
has_any-none p (x ∷ xs) h = elim (Bool-cases (p x)) [
  | inl e ↦ absurd (false_ne_true (sym (subst (λ b. (b || has_any p xs) ≡ false) e h)))
  | inr e ↦ (e, has_any-none p xs (subst (λ b. (b || has_any p xs) ≡ false) e h))
]

module _ (scores : Scores) (view : View) (excluded : List String) where
  open scores use {of_int, is_less}

  -- A model that may be chosen: its trimmed name is not empty and not excluded, its circuit is closed,
  -- and its score is positive.
  pub record IsEligible (m : ProviderModel) : Type 0 where
    pub is_named : str_eq (trim_space m.litellm_model_name) "" ≡ false
    pub allowed : is_listed excluded (trim_space m.litellm_model_name) ≡ false
    pub closed : view.circuit_open (trim_space m.litellm_model_name) ≡ false
    pub positive :
        is_less (of_int (pos 0)) (score_under scores view (trim_space m.litellm_model_name) m).0
        ≡ true

  -- What the loop notes of the model's daily pace.
  abbrev pub over_pace : ProviderModel → Bool
  over_pace m = (score_under scores view (trim_space m.litellm_model_name) m).1

  pub record IsCandidateOf (m : ProviderModel) (c : Candidate scores) : Type 0 where
    pub same : c.model ≡ m
    pub eligible : IsEligible m
    pub pace : c.over_paced ≡ over_pace m
    pub priority_zero : c.priority ≡ pos 0
    pub weighs : HasWeight scores c

  candidate_of-cases :
      (m : ProviderModel)
      → ((candidate_of scores view excluded m ≡ none) × (IsEligible m → ⊥))
        ⊎ ((c : Candidate scores) × (candidate_of scores view excluded m ≡ some c)
            × IsCandidateOf m c)
  unfolding candidate_of
  candidate_of-cases m =
      let name = trim_space m.litellm_model_name in
      let empty = str_eq name "" in
      let listed = is_listed excluded name in
      let open_now = view.circuit_open name in
      let usable = is_usable scores view excluded name in
      let positive = is_less (of_int (pos 0)) (score_under scores view name m).0 in
      if_cases
        (λ o.
          ((o ≡ none) × (IsEligible m → ⊥))
          ⊎ ((c : Candidate scores) × (o ≡ some c) × IsCandidateOf m c))
        (usable && positive) {a = some (scored_candidate scores view m)} {b = none}
        (λ e. inr (
          scored_candidate scores view m,
          refl,
          record {
            same = refl;
            eligible = record {
              is_named = (usable_parts empty listed open_now (and_left usable positive e)).0;
              allowed = (usable_parts empty listed open_now (and_left usable positive e)).1;
              closed = (usable_parts empty listed open_now (and_left usable positive e)).2;
              positive = and_right usable positive e;
            };
            pace = refl;
            priority_zero = refl;
            weighs =
                at_least_one
                  (scores.round (scores.mul (score_under scores view name m).0 (of_int (pos 10))));
          },
        ))
        λ e. inl (
          refl,
          λ h.
              not_both usable positive
                (usable_whole empty listed open_now h.is_named h.allowed h.closed) h.positive e,
        )

  -- Every candidate is one of the models, and satisfies what is recorded of it.
  abbrev pub IsCandidateAmong : List ProviderModel → Candidate scores → Type 0
  IsCandidateAmong ms c = (m : ProviderModel) × Any (λ x. x ≡ m) ms × IsCandidateOf m c

  pub candidates_of-All :
      (ms : List ProviderModel) → All (IsCandidateAmong ms) (candidates_of scores view excluded ms)
  unfolding candidates_of
  candidates_of-All [] = tt
  candidates_of-All (m ∷ ms) =
      let later =
        All-map (IsCandidateAmong ms) (IsCandidateAmong (m ∷ ms))
          (candidates_of scores view excluded ms) (λ c h. (h.0, inr h.1, h.2))
          (candidates_of-All ms) in
      elim (candidate_of-cases m) [
        | inl (e, unfit) ↦ rw e later
        | inr (c, e, h) ↦ rw e ((m, inl refl, h), later)
      ]

  -- An eligible model gives a candidate.
  pub candidates_of-Any :
      (m : ProviderModel) (ms : List ProviderModel)
      → Any (λ x. x ≡ m) ms
      → IsEligible m
      → Any (λ c. IsCandidateOf m c) (candidates_of scores view excluded ms)
  unfolding candidates_of
  candidates_of-Any m [] k h = absurd k
  candidates_of-Any m (x ∷ xs) (inl same) h = elim (candidate_of-cases m) [
    | inl (e, unfit) ↦ absurd (unfit h)
    | inr (c, e, is) ↦ rw (same, e) (inl is)
  ]
  candidates_of-Any m (x ∷ xs) (inr k) h =
      let later = candidates_of-Any m xs k h in
      elim (candidate_of-cases x) [
        | inl (e, unfit) ↦ rw e later
        | inr (c, e, is) ↦ rw e (inr later)
      ]
