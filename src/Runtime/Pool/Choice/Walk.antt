-- ===== src/Runtime/Pool/Choice/Walk.antt =====
-- The walk over the weights in Runtime/Pool/Choice reaches the candidate in whose share the offset lies.
use daiki_aipass_backend.Prelude.{
  ℕ, suc, ◌≡◌, refl, ap, some, true, false, ◌&&◌, Bool-cases, inl, inr, ltb, if_cases, List, [],
  ◌∷◌, ◌++◌, All, length, arith,
}
use daiki_aipass_backend.Prelude.Int.{ℤ, pos, is_pos, ltb_ℤ, ◌+ℤ◌, ◌-ℤ◌, ◌≤ℤ◌, ◌<ℤ◌}
use daiki_aipass_backend.Runtime.Pool.Score.{Scores, weighted_pool_offset}
use daiki_aipass_backend.Runtime.Pool.Choice.{Candidate, capped_weight, total_weight, walk, choose}

sum-pos : (a b : ℤ) → pos 1 ≤ℤ a → pos 0 ≤ℤ b → pos 1 ≤ℤ (a +ℤ b)
unfolding ◌+ℤ◌
sum-pos a b h k = ground arith

rest_of_pick :
    (p w t : ℤ) → p <ℤ (w +ℤ t) → ltb_ℤ p w ≡ false → (pos 0 ≤ℤ (p -ℤ w)) × ((p -ℤ w) <ℤ t)
unfolding ◌+ℤ◌ ◌-ℤ◌
rest_of_pick p w t h k = ground arith

back_to_pick :
    (p w b c : ℤ) → b ≤ℤ (p -ℤ w) → (p -ℤ w) <ℤ (b +ℤ c) → ((w +ℤ b) ≤ℤ p) × (p <ℤ ((w +ℤ b) +ℤ c))
unfolding ◌+ℤ◌ ◌-ℤ◌
back_to_pick p w b c h k = ground arith

none_before : (p c : ℤ) → pos 0 ≤ℤ p → ltb_ℤ p c ≡ true → (pos 0 ≤ℤ p) × (p <ℤ (pos 0 +ℤ c))
unfolding ◌+ℤ◌
none_before p c h k = ground arith

no_pick : (p : ℤ) → pos 0 ≤ℤ p → p <ℤ pos 0 → ⊥
no_pick p h k = ground arith

weaken : (a : ℤ) → pos 1 ≤ℤ a → pos 0 ≤ℤ a
weaken a h = ground arith

is_pos_of : (a : ℤ) → pos 1 ≤ℤ a → is_pos a ≡ true
is_pos_of a h = ground arith

two_positive :
    (n : ℕ) (total : ℤ) → is_pos total ≡ true → (ltb 1 (suc (suc n)) && is_pos total) ≡ false → ⊥
two_positive n total h k = ground arith

-- Multiplying by anything and reducing twice stays below the total.
pub weighted_pool_offset-bounds :
    (counter total : ℤ)
    → is_pos total ≡ true
    → (pos 0 ≤ℤ weighted_pool_offset counter total) × (weighted_pool_offset counter total <ℤ total)
unfolding weighted_pool_offset
weighted_pool_offset-bounds counter total h = rw (weighted_pool_offset, h) (ground arith)

module _ (scores : Scores) where
  abbrev pub HasWeight : Candidate scores → Type 0
  HasWeight c = pos 1 ≤ℤ c.weight

  capped_weight-pos : (c : Candidate scores) → HasWeight c → pos 1 ≤ℤ capped_weight scores c
  capped_weight-pos c h = ground arith

  total_weight-pos :
      (c : Candidate scores) (cs : List (Candidate scores))
      → All HasWeight (c ∷ cs)
      → pos 1 ≤ℤ total_weight scores (c ∷ cs)
  unfolding total_weight
  total_weight-pos c cs (h, k) =
      sum-pos (capped_weight scores c) (total_weight scores cs) (capped_weight-pos c h)
        (total_nonneg cs k)
    where
      total_nonneg :
          (cs : List (Candidate scores)) → All HasWeight cs → pos 0 ≤ℤ total_weight scores cs
      total_nonneg [] k = omega arith
      total_nonneg (c ∷ cs) (h, k) = weaken (capped_weight scores c +ℤ total_weight scores cs) (
          sum-pos (capped_weight scores c) (total_weight scores cs) (capped_weight-pos c h)
            (total_nonneg cs k))

  -- `c` stands where the weights before it and its own enclose the offset.
  pub record Located (cs : List (Candidate scores)) (pick : ℤ) (c : Candidate scores) : Type 0 where
    pub before : List (Candidate scores)
    pub after : List (Candidate scores)
    pub place : cs ≡ before ++ c ∷ after
    pub from : total_weight scores before ≤ℤ pick
    pub to : pick <ℤ (total_weight scores before +ℤ capped_weight scores c)

  walk-Located :
      (chosen : Candidate scores) (pick : ℤ) (cs : List (Candidate scores))
      → pos 0 ≤ℤ pick
      → pick <ℤ total_weight scores cs
      → Located cs pick (walk scores chosen pick cs)
  unfolding walk total_weight
  walk-Located chosen pick [] h k = absurd (no_pick pick h k)
  walk-Located chosen pick (c ∷ cs) h k =
      let w = capped_weight scores c in
      elim (Bool-cases (ltb_ℤ pick w)) [
        | inl e ↦
            let (low, high) = none_before pick w h e in
            rw (walk, e) (record { before = []; after = cs; place = refl; from = low; to = high })
        | inr e ↦
            let (low, high) = rest_of_pick pick w (total_weight scores cs) k e in
            let r = walk-Located chosen (pick -ℤ w) cs low high in
            let found = walk scores chosen (pick -ℤ w) cs in
            let (from, to) =
              back_to_pick pick w (total_weight scores r.before) (capped_weight scores found) r.from
                r.to in
            rw (walk, e)
              (record {
                before = c ∷ r.before;
                after = r.after;
                place = ap (c ∷◌) r.place;
                from = from;
                to = to;
              })
      ]

  -- Among at least two candidates of positive weight, whatever the counter, the chosen one is the one
  -- in whose share of the total weight the scattered counter falls: the weights before it are at most
  -- the offset, and with its own they exceed it.
  pub choose-Located :
      (counter : ℤ) (first second : Candidate scores) (others : List (Candidate scores))
      → All HasWeight (first ∷ second ∷ others)
      → Located
          (first ∷ second ∷ others)
          (weighted_pool_offset counter (total_weight scores (first ∷ second ∷ others)))
          (choose scores (some counter) first (second ∷ others))
  unfolding choose
  choose-Located counter first second others h =
      let cs = first ∷ second ∷ others in
      let total = total_weight scores cs in
      let positive : is_pos total ≡ true =
        is_pos_of total (total_weight-pos first (second ∷ others) h) in
      let (low, high) = weighted_pool_offset-bounds counter total positive in
      let offset = weighted_pool_offset counter total in
      if_cases (Located cs offset) (ltb 1 (length cs) && is_pos total)
        {a = walk scores first offset cs} {b = first} (λ e. walk-Located first offset cs low high)
        λ e. absurd (two_positive (length others) total positive e)
