-- ===== src/Runtime/Budget/Bounds.antt =====
-- What the budgets of Runtime/Budget guarantee.
use daiki_aipass_backend.Prelude.{
  ℕ, ◌≡◌, ◌⊎◌, ◌+◌, ◌-◌, ◌/◌, ◌≤◌, ◌<◌, ◌↔◌, min, String, true, false, ◌||◌, [], ◌∷◌, str_eq, arith,
  trim_space,
}
use daiki_aipass_backend.Prelude.Int.{
  ℤ, pos, negsuc, is_pos, is_neg, pos_part, max_ℤ, ◌+ℤ◌, ◌≤ℤ◌, ◌<ℤ◌, wrap64, two_63,
}
use daiki_aipass_backend.Runtime.Budget.{
  ProviderModel, Payload, percent, runtime_output_cap, runtime_token_limit, first_positive,
  admission_capacity, model_admission_cost, runtime_safe_input_budget, should_preflight_fallback,
  reservation_tokens,
}

-- A completion that the model's limits allow: at most its own maximum, and at most 90% of its output
-- tokens per minute (at least 1), where these are set; none set gives none.
pub runtime_output_cap-bounds :
    (m : ProviderModel)
    → (is_pos m.max_output_tokens ≡ true → runtime_output_cap m ≤ℤ m.max_output_tokens)
      × (is_pos m.otpm_limit ≡ true
          → (pos 1 ≤ℤ runtime_output_cap m)
            × (runtime_output_cap m ≤ℤ max_ℤ (pos 1) (percent m.otpm_limit 90)))
      × (is_pos m.max_output_tokens ≡ false
          → is_pos m.otpm_limit ≡ false
          → runtime_output_cap m ≡ m.max_output_tokens)
unfolding runtime_output_cap
runtime_output_cap-bounds m =
    (λ h. ground arith, (λ h. (ground arith, ground arith)), λ h k. ground arith)

-- An admitted cost lies between 1 and 85% of the tokens per minute (at least 1), so that a full
-- bucket always admits; a model without such a limit costs nothing.
pub model_admission_cost-bounds :
    (p : Payload) (m : ProviderModel) (profile : String)
    → (is_pos (runtime_token_limit m) ≡ true
        → (pos 1 ≤ℤ model_admission_cost p m profile)
          × (model_admission_cost p m profile ≤ℤ admission_capacity (runtime_token_limit m)))
      × (is_pos (runtime_token_limit m) ≡ false → model_admission_cost p m profile ≡ pos 0)
unfolding model_admission_cost
model_admission_cost-bounds p m profile = (λ h. (ground arith, ground arith), λ h. ground arith)

budget-cases :
    (m : ProviderModel) (overhead : ℤ)
    → is_neg (runtime_safe_input_budget m overhead) ≡ true
    → runtime_safe_input_budget m overhead ≡ negsuc 0
unfolding runtime_safe_input_budget
budget-cases m overhead h = ground arith

-- The preflight moves a request to the fallback model exactly if there is one, the strategy allows
-- it, and the model leaves no room for messages or less than the messages are estimated to need.
pub should_preflight_fallback_iff :
    (m : ProviderModel) (p : Payload) (overhead : ℤ)
    → (should_preflight_fallback m p overhead ≡ true) ↔ (
        (str_eq (trim_space m.fallback_model_name) "" ≡ false)
        × ((str_eq m.context_strategy "adaptive" || str_eq m.context_strategy "fallback") ≡ true)
        × ((runtime_safe_input_budget m overhead ≡ negsuc 0)
            ⊎ ((pos 0 <ℤ runtime_safe_input_budget m overhead)
                × (runtime_safe_input_budget m overhead <ℤ pos p.estimate))))
unfolding should_preflight_fallback
should_preflight_fallback_iff m p overhead =
    (λ h. ground (arith, budget-cases m overhead), λ h. ground arith)

sum_in_range :
    (a : ℕ) (out : ℤ)
    → a ≤ 16_000
    → out ≤ℤ pos 0x4000_0000_0000_0000
    → is_pos out ≡ true
    → wrap64 (pos a +ℤ out) ≡ pos (a + pos_part out)
unfolding wrap64 ◌+ℤ◌
sum_in_range a out h k l = ground arith

first_positive-range :
    (x y : ℤ)
    → x ≤ℤ pos 0x4000_0000_0000_0000
    → y ≤ℤ pos 0x4000_0000_0000_0000
    → (is_pos (first_positive (x ∷ y ∷ []) (pos 2048)) ≡ true)
      × (first_positive (x ∷ y ∷ []) (pos 2048) ≤ℤ pos 0x4000_0000_0000_0000)
first_positive-range x y h k = ground arith

reserved_range :
    (n : ℕ) (out : ℤ)
    → is_pos out ≡ true
    → (pos 257 ≤ℤ pos (min (n + 256) 16_000 + pos_part out))
      × (pos (min (n + 256) 16_000 + pos_part out) ≤ℤ (pos 16_000 +ℤ out))
unfolding ◌+ℤ◌
reserved_range n out h = ground arith

-- A reservation of a request that asks for at most 2^62 tokens holds at least the prompt's 256 and
-- one of the completion, and at most 16000 and what was asked for (2048 if nothing was).
pub reservation_tokens-bounds :
    (n : ℕ) (p : Payload)
    → p.max_completion_tokens ≤ℤ pos 0x4000_0000_0000_0000
    → p.max_tokens ≤ℤ pos 0x4000_0000_0000_0000
    → (pos 257 ≤ℤ reservation_tokens n p)
      × (reservation_tokens n p ≤ℤ (
          pos 16_000 +ℤ first_positive (p.max_completion_tokens ∷ p.max_tokens ∷ []) (pos 2048)))
unfolding reservation_tokens
reservation_tokens-bounds n p h k =
    let out = first_positive (p.max_completion_tokens ∷ p.max_tokens ∷ []) (pos 2048) in
    let range : (is_pos out ≡ true) × (out ≤ℤ pos 0x4000_0000_0000_0000) =
      first_positive-range p.max_completion_tokens p.max_tokens h k in
    rw (sum_in_range (min (n / 4 + 256) 16_000) out (omega arith) range.1 range.0)
      (reserved_range (n / 4) out range.0)

sum_overflows :
    (a asked : ℕ)
    → 256 ≤ a
    → a ≤ 16_000
    → two_63 - 256 ≤ asked
    → asked < two_63
    → is_neg (wrap64 (pos a +ℤ pos asked)) ≡ true
unfolding wrap64 ◌+ℤ◌
sum_overflows a asked h k l m = ground arith

-- A request that asks for 2^63 - 256 tokens or more, as an int64 can hold, reserves a negative amount.
pub reservation_tokens_overflow :
    (n : ℕ) (p : Payload) (asked : ℕ)
    → p.max_completion_tokens ≡ pos asked
    → two_63 - 256 ≤ asked
    → asked < two_63
    → is_neg (reservation_tokens n p) ≡ true
unfolding reservation_tokens
reservation_tokens_overflow n p asked e h k =
    let out : first_positive (p.max_completion_tokens ∷ p.max_tokens ∷ []) (pos 2048) ≡ pos asked =
      ground arith in
    rw out (sum_overflows (min (n / 4 + 256) 16_000) asked (omega arith) (omega arith) h k)
