-- ===== src/Runtime/Pool/Score.antt =====
-- The scores and weights of cmd/api/model_pool.go: poolCandidateScore and weightedPoolOffset.
use daiki_aipass_backend.Prelude.{ℕ, ◌+◌, ◌-◌, ◌*◌, ◌%◌, Bool, not, ◌&&◌, ◌||◌, if◌then◌else◌}
use daiki_aipass_backend.Prelude.Int.{ℤ, pos, pos_part, neg_part, is_pos, leb_ℤ, ◌+ℤ◌, ◌-ℤ◌, two_64}
use daiki_aipass_backend.Runtime.Budget.{ProviderModel}
use daiki_aipass_backend.Runtime.Pool.{Health, Peek}

-- What the code uses of float64.
pub record Scores : Type 1 where
  pub Score : Type 0
  pub of_int : ℤ → Score
  -- The literal `a / 100`.
  pub hundredths : ℕ → Score
  pub add : Score → Score → Score
  pub mul : Score → Score → Score
  pub div : Score → Score → Score
  pub is_less : Score → Score → Bool
  pub is_same : Score → Score → Bool
  -- int(math.Round(score))
  pub round : Score → ℤ

abbrev or_default : ℤ → ℤ → ℤ
or_default value default = if is_pos value then value else default

-- `allowance > 0 && used >= allowance`, and a model that is full.
unfoldable pub is_over_paced : Peek → Bool
is_over_paced p =
    is_pos p.capacity
    && (leb_ℤ p.capacity p.used || (is_pos p.allowance && leb_ℤ p.allowance p.used))

module _ (scores : Scores) where
  open scores use {Score, of_int, hundredths, add, mul, div, is_less}

  abbrev clamp : Score → Score → Score → Score
  clamp low high s =
      let raised = if is_less s low then low else s in if is_less high raised then high else raised

  -- The factors of a model's success rate and of its latency.
  unfoldable pub health_factor : Health → Score → Score
  unfolding ◌+ℤ◌
  health_factor h score =
      let total = h.successes +ℤ h.failures in
      let rate = div (of_int (h.successes +ℤ pos 1)) (of_int (total +ℤ pos 2)) in
      let rated = mul score (add (hundredths 25) (mul (hundredths 75) rate)) in
      let average = div (of_int h.latency_ms) (of_int total) in
      let latency_factor =
        clamp (hundredths 35) (hundredths 125) (div (of_int (pos 5000)) average) in
      if not (is_pos total)
      then score
      else if is_less (of_int (pos 0)) average
      then mul rated latency_factor
      else rated

  -- The factor of what is left of the day.
  unfoldable pub daily_factor : Peek → Score → Score
  unfolding is_over_paced ◌-ℤ◌
  daily_factor p score =
      let remaining = div (of_int (p.capacity -ℤ p.used)) (of_int p.capacity) in
      let left = mul score (add (hundredths 55) (mul (hundredths 45) remaining)) in
      if not (is_pos p.capacity)
      then score
      else if leb_ℤ p.capacity p.used
      then of_int (pos 0)
      else if is_over_paced p
      then mul left (hundredths 5)
      else left

  -- poolCandidateScore
  unfoldable pub pool_candidate_score : ProviderModel → Health → Peek → Score × Bool
  unfolding health_factor daily_factor is_over_paced
  pool_candidate_score m h p =
      let quality = or_default m.quality_score (pos 50) in
      let weight = or_default m.free_pool_weight (pos 100) in
      let base =
        mul (of_int weight) (add (hundredths 55) (div (of_int quality) (of_int (pos 100)))) in
      (daily_factor p (health_factor h base), is_over_paced p)

-- `uint64(n)` of an int64
abbrev to_uint64 : ℤ → ℕ
to_uint64 n = (pos_part n + two_64 - neg_part n % two_64) % two_64

-- weightedPoolOffset
unfoldable pub weighted_pool_offset : ℤ → ℤ → ℤ
weighted_pool_offset counter total_weight =
    if is_pos total_weight
    then pos (to_uint64 counter * 11_400_714_819_323_198_485 % two_64 % pos_part total_weight)
    else pos 0
