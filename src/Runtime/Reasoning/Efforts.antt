-- ===== src/Runtime/Reasoning/Efforts.antt =====
-- The efforts that Runtime/Reasoning gives to each family of models.
use daiki_aipass_backend.Prelude.{
  ◌≡◌, refl, ◌⊎◌, inl, inr, String, Bool, true, false, ◌||◌, ◌&&◌, str_eq, if◌then◌else◌, to_lower,
  trim_space, if_both, if_cases,
}
use daiki_aipass_backend.Runtime.Reasoning.{
  Effort, no_effort, is_strongest, qwen_effort, gemini_effort, gpt_oss_effort, is_qwen, is_gemini,
  is_gpt_oss, read_effort, reasoning_effort_for_model,
}

-- No effort and the empty text, or an effort that passes the test.
abbrev pub IsEffortOf : (String → Bool) → Effort → Type 0
IsEffortOf known (e, native) = ((native ≡ false) × (e ≡ "")) ⊎ ((native ≡ true) × (known e ≡ true))

abbrev pub is_qwen_effort : String → Bool
is_qwen_effort e = str_eq e "none" || str_eq e "low" || str_eq e "medium" || str_eq e "high"

abbrev pub is_gemini_effort : String → Bool
is_gemini_effort e = str_eq e "low" || str_eq e "medium"

abbrev pub is_gpt_oss_effort : String → Bool
is_gpt_oss_effort e = str_eq e "low" || str_eq e "medium" || str_eq e "high"

-- The efforts that the family of a model knows.
abbrev pub family_effort : String → String → Bool
family_effort model e =
    if is_qwen model
    then is_qwen_effort e
    else if is_gemini model
    then is_gemini_effort e
    else is_gpt_oss model && is_gpt_oss_effort e

none_lem : (known : String → Bool) → IsEffortOf known no_effort
none_lem known = inl (refl, refl)

qwen_effort-IsEffortOf : (r : String) → IsEffortOf is_qwen_effort (qwen_effort r)
unfolding qwen_effort
qwen_effort-IsEffortOf r =
    let P = IsEffortOf is_qwen_effort in
    if_cases P (is_qwen_effort r) (λ h. inr (refl, h))
      λ _.
        if_both P (str_eq r "minimal") (inr (refl, refl))
          (if_both P (is_strongest r) (inr (refl, refl)) (none_lem is_qwen_effort))

gemini_effort-IsEffortOf : (r : String) → IsEffortOf is_gemini_effort (gemini_effort r)
unfolding gemini_effort
gemini_effort-IsEffortOf r =
    let P = IsEffortOf is_gemini_effort in
    if_both P (str_eq r "none") (none_lem is_gemini_effort) (
      if_both P (str_eq r "minimal" || str_eq r "low") (inr (refl, refl)) (
        if_both P (str_eq r "medium") (inr (refl, refl)) (
          if_both P (str_eq r "high" || is_strongest r) (inr (refl, refl))
            (none_lem is_gemini_effort))))

gpt_oss_effort-IsEffortOf : (r : String) → IsEffortOf is_gpt_oss_effort (gpt_oss_effort r)
unfolding gpt_oss_effort
gpt_oss_effort-IsEffortOf r =
    let P = IsEffortOf is_gpt_oss_effort in
    if_both P (str_eq r "none" || str_eq r "minimal") (inr (refl, refl)) (
      if_cases P (is_gpt_oss_effort r) (λ h. inr (refl, h))
        λ _. if_both P (is_strongest r) (inr (refl, refl)) (none_lem is_gpt_oss_effort))

-- Whatever effort is requested, a model is given none at all, or one that its family knows: none,
-- low, medium or high for Qwen 3.8, low or medium for Gemini, low, medium or high for GPT-OSS.
pub reasoning_effort_for_model-IsEffortOf :
    (model requested : String)
    → IsEffortOf
        (family_effort (to_lower (trim_space model)))
        (reasoning_effort_for_model model requested)
unfolding reasoning_effort_for_model
reasoning_effort_for_model-IsEffortOf given requested =
    let model = to_lower (trim_space given) in
    let r = read_effort requested in
    let P = IsEffortOf (family_effort model) in
    if_both P (str_eq r "") (none_lem (family_effort model)) (
      if_cases P (is_qwen model) (λ q. rw q (qwen_effort-IsEffortOf r))
        λ not_qwen.
          if_cases P (is_gemini model) (λ g. rw (not_qwen, g) (gemini_effort-IsEffortOf r))
            λ not_gemini.
              if_cases P (is_gpt_oss model)
                (λ o. rw (not_qwen, not_gemini, o) (gpt_oss_effort-IsEffortOf r))
                λ _. none_lem (family_effort model))
