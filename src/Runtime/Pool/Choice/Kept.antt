-- ===== src/Runtime/Pool/Choice/Kept.antt =====
-- What the filters, the sort and the walk of Runtime/Pool/Choice keep of their candidates.
use daiki_aipass_backend.Prelude.{
  false_ne_true, ◌≡◌, refl, sym, ◌∙◌, Option, some, none, Bool, true, false, not, ◌&&◌, ltb, length,
  if◌then◌else◌, if_cases, if_both, List, [], ◌∷◌, All, Any, All-map, arith,
}
use daiki_aipass_backend.Prelude.Int.{ℤ, pos, is_pos, eqb_ℤ, ltb_ℤ, ◌-ℤ◌}
use daiki_aipass_backend.Runtime.Pool.Score.{Scores, weighted_pool_offset}
use daiki_aipass_backend.Runtime.Pool.Choice.{
  Candidate, best_priority, keep_best_priority, keep_paced, filter_by, has_any, comes_before,
  insert_sorted, sort_candidates, walk, choose, capped_weight, total_weight,
}
use daiki_aipass_backend.Runtime.Pool.Choice.Candidates.{
  filter_by-All, filter_by-kept, filter_by_same, filter_by-Any, has_any-none,
}

zero_same : (p best : ℤ) → p ≡ pos 0 → best ≡ pos 0 → eqb_ℤ p best ≡ true
zero_same p best h k = ground arith

zero_best : (p best : ℤ) → p ≡ pos 0 → best ≡ pos 0 → (if ltb_ℤ p best then p else best) ≡ pos 0
zero_best p best h k = ground arith

not-false : (b : Bool) → not b ≡ true → b ≡ false
not-false b h = ground arith

not-true : (b : Bool) → not b ≡ false → b ≡ true
not-true b h = ground arith

module _ (scores : Scores) where
  abbrev C : Type 0
  C = Candidate scores

  best_zero :
      (best : ℤ) (cs : List C)
      → best ≡ pos 0
      → All (λ (c : C). c.priority ≡ pos 0) cs
      → best_priority scores best cs ≡ pos 0
  best_zero best [] h k = h
  best_zero best (c ∷ cs) h (p, k) =
      best_zero (if ltb_ℤ c.priority best then c.priority else best) cs
        (zero_best c.priority best p h) k

  -- No priority is ever set, so that this filter keeps every candidate.
  pub keep_best_priority_same :
      (cs : List C) → All (λ (c : C). c.priority ≡ pos 0) cs → keep_best_priority scores cs ≡ cs
  unfolding keep_best_priority
  keep_best_priority_same [] h = refl
  keep_best_priority_same (c ∷ cs) h =
      let best = best_zero c.priority cs h.0 h.1 in
      filter_by_same (λ (x : C). eqb_ℤ x.priority (best_priority scores c.priority cs)) (c ∷ cs)
        (All-map (λ (x : C). x.priority ≡ pos 0)
          (λ (x : C). eqb_ℤ x.priority (best_priority scores c.priority cs) ≡ true) (c ∷ cs)
          (λ x p. zero_same x.priority (best_priority scores c.priority cs) p best) h)

  module _ (P : C → Type 0) where
    pub keep_paced-All : (cs : List C) → All P cs → All P (keep_paced scores cs)
    unfolding keep_paced
    keep_paced-All cs h =
        if_both (All P) (has_any (λ (c : C). not c.over_paced) cs)
          (filter_by-All P (λ (c : C). not c.over_paced) cs h) h

    insert_sorted-All : (c : C) (cs : List C) → P c → All P cs → All P (insert_sorted scores c cs)
    unfolding insert_sorted
    insert_sorted-All c [] p h = (p, tt)
    insert_sorted-All c (x ∷ xs) p (q, h) =
        let rest = insert_sorted-All c xs p h in
        if_both (All P) (comes_before scores x c) (q, rest) (p, (q, h))

    pub sort_candidates-All : (cs : List C) → All P cs → All P (sort_candidates scores cs)
    unfolding sort_candidates
    sort_candidates-All [] h = tt
    sort_candidates-All (c ∷ cs) (p, h) =
        insert_sorted-All c (sort_candidates scores cs) p (sort_candidates-All cs h)

    walk-holds :
        (chosen : C) (pick : ℤ) (cs : List C) → P chosen → All P cs → P (walk scores chosen pick cs)
    unfolding walk
    walk-holds chosen pick [] p h = p
    walk-holds chosen pick (c ∷ cs) p (q, h) =
        let rest = walk-holds chosen (pick -ℤ capped_weight scores c) cs p h in
        if_both P (ltb_ℤ pick (capped_weight scores c)) q rest

    pub choose-holds :
        (counter : Option ℤ) (first : C) (others : List C)
        → All P (first ∷ others)
        → P (choose scores counter first others)
    unfolding choose
    choose-holds none first others h = h.0
    choose-holds (some counter) first others h =
        let total = total_weight scores (first ∷ others) in
        let pick = weighted_pool_offset counter total in
        if_both P (ltb 1 (length (first ∷ others)) && is_pos total)
          {a = walk scores first pick (first ∷ others)} {b = first}
          (walk-holds first pick (first ∷ others) h.0 h) h.0

  -- Some candidate is left.
  abbrev pub NotEmpty : List C → Type 0
  NotEmpty [] = ⊥
  NotEmpty (c ∷ cs) = Unit

  insert_sorted-NotEmpty : (c : C) (cs : List C) → NotEmpty (insert_sorted scores c cs)
  unfolding insert_sorted
  insert_sorted-NotEmpty c [] = tt
  insert_sorted-NotEmpty c (x ∷ xs) = if_both NotEmpty (comes_before scores x c) tt tt

  pub sort_candidates-NotEmpty : (cs : List C) → NotEmpty cs → NotEmpty (sort_candidates scores cs)
  unfolding sort_candidates
  sort_candidates-NotEmpty [] h = absurd h
  sort_candidates-NotEmpty (c ∷ cs) h = insert_sorted-NotEmpty c (sort_candidates scores cs)

  pub Any-NotEmpty : (P : C → Type 0) (cs : List C) → Any P cs → NotEmpty cs
  Any-NotEmpty P [] h = absurd h
  Any-NotEmpty P (c ∷ cs) h = tt

  -- A candidate over its pace is kept only if all are.
  pub keep_paced-fair :
      (cs : List C)
      → All
          (λ (c : C). c.over_paced ≡ true → All (λ (x : C). x.over_paced ≡ true) cs)
          (keep_paced scores cs)
  unfolding keep_paced
  keep_paced-fair cs =
      let p = λ (c : C). not c.over_paced in
      let fair = λ (c : C). c.over_paced ≡ true → All (λ (x : C). x.over_paced ≡ true) cs in
      if_cases (All fair) (has_any p cs) {a = filter_by p cs} {b = cs}
        (λ e.
          All-map (λ (c : C). p c ≡ true) fair (filter_by p cs)
            (λ c k over. absurd (false_ne_true (sym (not-false c.over_paced k) ∙ over)))
            (filter_by-kept p cs))
        λ e.
          let all_over =
            All-map (λ (c : C). p c ≡ false) (λ (c : C). c.over_paced ≡ true) cs
              (λ c k. not-true c.over_paced k) (has_any-none p cs e) in
          All-map (λ (c : C). c.over_paced ≡ true) fair cs (λ c k over. all_over) all_over

  pub keep_paced-NotEmpty : (cs : List C) → NotEmpty cs → NotEmpty (keep_paced scores cs)
  unfolding keep_paced
  keep_paced-NotEmpty cs h =
      let p = λ (c : C). not c.over_paced in
      if_cases NotEmpty (has_any p cs) {a = filter_by p cs} {b = cs}
        (λ e. Any-NotEmpty (λ (c : C). p c ≡ true) (filter_by p cs) (filter_by-Any p cs e)) λ e. h
