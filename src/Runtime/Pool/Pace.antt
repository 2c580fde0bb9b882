-- ===== src/Runtime/Pool/Pace.antt =====
-- The daily pace of Runtime/Pool lies between the burst and the capacity.
use daiki_aipass_backend.Prelude.{ℕ, ◌/◌, ◌≤◌, ◌≡◌, true, not, if◌then◌else◌, arith}
use daiki_aipass_backend.Prelude.Int.{ℤ, pos, pos_part, is_pos, max_ℤ, min_ℤ, ◌+ℤ◌, ◌≤ℤ◌}
use daiki_aipass_backend.Runtime.Budget.{model_daily_admission_capacity}
use daiki_aipass_backend.Runtime.Pool.{model_daily_paced_allowance}

capacity-bounds :
    (limit : ℤ)
    → is_pos limit ≡ true
    → (pos 1 ≤ℤ model_daily_admission_capacity limit)
      × (model_daily_admission_capacity limit ≤ℤ limit)
unfolding model_daily_admission_capacity
capacity-bounds limit h = ground arith

paced_bounds :
    (capacity progress : ℤ) (burst : ℕ)
    → pos 1 ≤ℤ capacity
    → 1 ≤ burst
    → pos 0 ≤ℤ progress
    → (pos 1 ≤ℤ min_ℤ capacity (max_ℤ (progress +ℤ pos burst) (pos burst)))
      × (min_ℤ capacity (max_ℤ (progress +ℤ pos burst) (pos burst)) ≤ℤ capacity)
      × (min_ℤ capacity progress ≤ℤ min_ℤ capacity (max_ℤ (progress +ℤ pos burst) (pos burst)))
unfolding ◌+ℤ◌
paced_bounds capacity progress burst h k l = ground arith

pos_is_pos : (a : ℤ) → pos 1 ≤ℤ a → is_pos a ≡ true
pos_is_pos a h = ground arith

small_burst : (c : ℕ) → 1 ≤ pos_part (max_ℤ (pos 1) (min_ℤ (pos 3) (pos (c / 5))))
small_burst c = ground arith

burst_is_pos :
    (c : ℕ)
    → max_ℤ (pos 1) (min_ℤ (pos 3) (pos (c / 5)))
      ≡ pos (pos_part (max_ℤ (pos 1) (min_ℤ (pos 3) (pos (c / 5)))))
burst_is_pos c = ground arith

-- With a daily limit, and whatever part of the day has passed, the allowance of a model is at least one
-- request, never more than the capacity, and never less than the capacity's share of the day that has
-- passed.
pub model_daily_paced_allowance-bounds :
    (ceil_of_progress : ℤ → ℤ) (limit : ℤ)
    → is_pos limit ≡ true
    → pos 0 ≤ℤ ceil_of_progress (model_daily_admission_capacity limit)
    → (pos 1 ≤ℤ model_daily_paced_allowance ceil_of_progress limit)
      × (model_daily_paced_allowance ceil_of_progress limit ≤ℤ model_daily_admission_capacity limit)
      × (min_ℤ
            (model_daily_admission_capacity limit)
            (ceil_of_progress (model_daily_admission_capacity limit))
          ≤ℤ model_daily_paced_allowance ceil_of_progress limit)
unfolding model_daily_paced_allowance
model_daily_paced_allowance-bounds ceil_of_progress limit h k =
    allowance_of (model_daily_admission_capacity limit) (capacity-bounds limit h).0 k
  where
    allowance_of :
        (capacity : ℤ)
        → pos 1 ≤ℤ capacity
        → pos 0 ≤ℤ ceil_of_progress capacity
        → let burst = max_ℤ (pos 1) (min_ℤ (pos 3) (pos (pos_part capacity / 5))) in
          let a =
            if not (is_pos capacity)
            then pos 0
            else min_ℤ capacity (max_ℤ (ceil_of_progress capacity +ℤ burst) burst) in
          (pos 1 ≤ℤ a) × (a ≤ℤ capacity) × (min_ℤ capacity (ceil_of_progress capacity) ≤ℤ a)
    allowance_of capacity p q =
        let positive : is_pos capacity ≡ true = pos_is_pos capacity p in
        rw (positive, burst_is_pos (pos_part capacity))
          (paced_bounds capacity (ceil_of_progress capacity)
            (pos_part (max_ℤ (pos 1) (min_ℤ (pos 3) (pos (pos_part capacity / 5))))) p
            (small_burst (pos_part capacity)) q)
