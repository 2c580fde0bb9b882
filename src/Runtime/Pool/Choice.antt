-- ===== src/Runtime/Pool/Choice.antt =====
-- selectFreePoolModel of cmd/api/model_pool.go.
pub mod Walk
pub mod Candidates
pub mod Kept
pub mod Fallback
pub mod Selected
use Prim.Native.Char.{code}
use daiki_aipass_backend.Prelude.{
  ℕ, String, Option, some, none, Bool, true, false, not, ◌&&◌, ◌||◌, str_eq, ltb, leb, ◌==◌,
  if◌then◌else◌, trim_space, List, [], ◌∷◌, ◌++◌, length,
}
use daiki_aipass_backend.Prelude.Int.{
  ℤ, pos, is_pos, is_neg, ltb_ℤ, leb_ℤ, eqb_ℤ, max_ℤ, min_ℤ, ◌+ℤ◌, ◌-ℤ◌,
}
use daiki_aipass_backend.Runtime.Budget.{ProviderModel}
use daiki_aipass_backend.Runtime.Pool.{
  View, Peek, Health, normalize_pool_route, load_model_pool_health, peek_model_daily_admission,
}
use daiki_aipass_backend.Runtime.Pool.Score.{
  Scores, pool_candidate_score, weighted_pool_offset, is_over_paced,
}

abbrev pub is_listed : List String → String → Bool
is_listed [] name = false
is_listed (x ∷ xs) name = str_eq x name || is_listed xs name

-- `s < t` of texts, by code points.
text_less : String → String → Bool
text_less s String.[] = false
text_less String.[] (String.◌∷◌ b t) = true
text_less (String.◌∷◌ a s) (String.◌∷◌ b t) =
    let rest = text_less s t in ltb (code a) (code b) || ((code a == code b) && rest)

unfoldable pub filter_by {ℓ} : {A : Type ℓ} → (A → Bool) → List A → List A
filter_by p [] = []
filter_by p (x ∷ xs) = let rest = filter_by p xs in if p x then x ∷ rest else rest

abbrev pub has_any {ℓ} : {A : Type ℓ} → (A → Bool) → List A → Bool
has_any p [] = false
has_any p (x ∷ xs) = p x || has_any p xs

module _ (scores : Scores) where
  open scores use {Score, of_int, mul, is_less, is_same, round}

  -- scoredPoolCandidate
  pub record Candidate : Type 0 where
    pub model : ProviderModel
    pub score : Score
    pub weight : ℤ
    pub daily : Peek
    pub over_paced : Bool
    pub priority : ℤ

  -- modelPoolSelection; a choice that found no model has an empty name.
  pub record Selection : Type 0 where
    pub route : String
    pub model_name : String
    pub candidate_count : ℕ
    pub reason : String
    pub chosen_score : Score
    pub daily_use : Peek

  abbrev no_use : Peek
  no_use = record { used = pos 0; capacity = pos 0; allowance = pos 0 }

  abbrev pub empty_selection : String → Selection
  empty_selection route = record {
    route = route;
    model_name = "";
    candidate_count = 0;
    reason = "";
    chosen_score = of_int (pos 0);
    daily_use = no_use;
  }

  -- The score of a model under its trimmed name.
  abbrev pub score_under : View → String → ProviderModel → Score × Bool
  score_under view name m =
      pool_candidate_score scores m (load_model_pool_health view name)
        (peek_model_daily_admission view name m)

  abbrev pub is_usable : View → List String → String → Bool
  is_usable view excluded name =
      not (str_eq name "") && not (is_listed excluded name) && not (view.circuit_open name)

  abbrev pub scored_candidate : View → ProviderModel → Candidate
  scored_candidate view m =
      let name = trim_space m.litellm_model_name in
      let scored = score_under view name m in
      record {
        model = m;
        score = scored.0;
        weight = max_ℤ (pos 1) (round (mul scored.0 (of_int (pos 10))));
        daily = peek_model_daily_admission view name m;
        over_paced = scored.1;
        priority = pos 0;
      }

  -- The body of the loop over the models.
  unfoldable pub candidate_of : View → List String → ProviderModel → Option Candidate
  unfolding pool_candidate_score trim_space load_model_pool_health peek_model_daily_admission
  candidate_of view excluded m =
      let name = trim_space m.litellm_model_name in
      if is_usable view excluded name && is_less (of_int (pos 0)) (score_under view name m).0
      then some (scored_candidate view m)
      else none

  prepend : Option Candidate → List Candidate → List Candidate
  prepend (some c) cs = c ∷ cs
  prepend none cs = cs

  unfoldable pub candidates_of : View → List String → List ProviderModel → List Candidate
  unfolding candidate_of prepend
  candidates_of view excluded [] = []
  candidates_of view excluded (m ∷ ms) =
      prepend (candidate_of view excluded m) (candidates_of view excluded ms)

  -- The least priority of the candidates.
  abbrev pub best_priority : ℤ → List Candidate → ℤ
  best_priority best [] = best
  best_priority best (c ∷ cs) =
      best_priority (if ltb_ℤ c.priority best then c.priority else best) cs

  unfoldable pub keep_best_priority : List Candidate → List Candidate
  unfolding filter_by
  keep_best_priority [] = []
  keep_best_priority (c ∷ cs) =
      filter_by (λ x. eqb_ℤ x.priority (best_priority c.priority cs)) (c ∷ cs)

  unfoldable pub keep_paced : List Candidate → List Candidate
  unfolding filter_by
  keep_paced cs =
      let paced = filter_by (λ (c : Candidate). not c.over_paced) cs in
      if has_any (λ (c : Candidate). not c.over_paced) cs then paced else cs

  -- The order of sort.SliceStable.
  unfoldable pub comes_before : Candidate → Candidate → Bool
  unfolding text_less
  comes_before a b =
      if is_same a.score b.score
      then text_less a.model.litellm_model_name b.model.litellm_model_name
      else is_less b.score a.score

  -- Insertion after every candidate that does not come later keeps the sort stable.
  unfoldable pub insert_sorted : Candidate → List Candidate → List Candidate
  unfolding comes_before
  insert_sorted c [] = c ∷ []
  insert_sorted c (x ∷ xs) =
      let rest = insert_sorted c xs in if comes_before x c then x ∷ rest else c ∷ x ∷ xs

  unfoldable pub sort_candidates : List Candidate → List Candidate
  unfolding insert_sorted
  sort_candidates [] = []
  sort_candidates (c ∷ cs) = insert_sorted c (sort_candidates cs)

  abbrev pub capped_weight : Candidate → ℤ
  capped_weight c = min_ℤ c.weight (pos 100_000)

  unfoldable pub total_weight : List Candidate → ℤ
  unfolding ◌+ℤ◌
  total_weight [] = pos 0
  total_weight (c ∷ cs) = capped_weight c +ℤ total_weight cs

  -- The loop over the weights; `chosen` is kept if no weight is reached.
  unfoldable pub walk : Candidate → ℤ → List Candidate → Candidate
  unfolding ◌-ℤ◌
  walk chosen pick [] = chosen
  walk chosen pick (c ∷ cs) =
      let rest = walk chosen (pick -ℤ capped_weight c) cs in
      if ltb_ℤ pick (capped_weight c) then c else rest

  -- The choice among sorted candidates, the first of which is `first`.
  unfoldable pub choose : Option ℤ → Candidate → List Candidate → Candidate
  unfolding walk total_weight weighted_pool_offset
  choose none first others = first
  choose (some counter) first others =
      let cs = first ∷ others in
      let total = total_weight cs in
      if ltb 1 (length cs) && is_pos total
      then walk first (weighted_pool_offset counter total) cs
      else first

  unfoldable pub selection_of : String → Option ℤ → List Candidate → Selection
  unfolding choose
  selection_of route counter [] = empty_selection route
  selection_of route counter (first ∷ others) =
      let chosen = choose counter first others in
      record {
        route = route;
        model_name = chosen.model.litellm_model_name;
        candidate_count = length (first ∷ others);
        reason = "weighted_health_quota";
        chosen_score = chosen.score;
        daily_use = chosen.daily;
      }

  -- selectFreePoolModel; `models` is what FreePoolModels answers for the route, [] on an error.
  unfoldable pub select_free_pool_model :
      View → (String → List ProviderModel) → String → List String → Selection
  unfolding normalize_pool_route candidates_of keep_best_priority keep_paced sort_candidates
      selection_of
  select_free_pool_model view models route excluded =
      let r = normalize_pool_route route in
      let cs = keep_paced (keep_best_priority (candidates_of view excluded (models r))) in
      if str_eq r ""
      then empty_selection r
      else selection_of r (view.next_counter r) (sort_candidates cs)
