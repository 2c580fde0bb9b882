-- ===== src/Runtime/Reasoning.antt =====
-- cmd/api/model_runtime.go: reasoningEffortForModel.
pub mod Efforts
use daiki_aipass_backend.Prelude.{
  String, Bool, true, false, ◌||◌, str_eq, if◌then◌else◌, to_lower, trim_space, contains,
}

-- The effort that the model's provider is given, and whether it is given one.
abbrev pub Effort : Type 0
Effort = String × Bool

abbrev pub no_effort : Effort
no_effort = ("", false)

abbrev pub is_strongest : String → Bool
is_strongest r = str_eq r "xhigh" || str_eq r "max" || str_eq r "ultra"

unfoldable pub qwen_effort : String → Effort
qwen_effort r =
    if str_eq r "none" || str_eq r "low" || str_eq r "medium" || str_eq r "high"
    then (r, true)
    else if str_eq r "minimal"
    then ("low", true)
    else if is_strongest r
    then ("high", true)
    else no_effort

unfoldable pub gemini_effort : String → Effort
gemini_effort r =
    if str_eq r "none"
    then no_effort
    else if str_eq r "minimal" || str_eq r "low"
    then ("low", true)
    else if str_eq r "medium"
    then ("medium", true)
    else if str_eq r "high" || is_strongest r
    then ("medium", true)
    else no_effort

unfoldable pub gpt_oss_effort : String → Effort
gpt_oss_effort r =
    if str_eq r "none" || str_eq r "minimal"
    then ("low", true)
    else if str_eq r "low" || str_eq r "medium" || str_eq r "high"
    then (r, true)
    else if is_strongest r
    then ("high", true)
    else no_effort

abbrev pub is_qwen : String → Bool
is_qwen model = contains model "qwen3.8"

abbrev pub is_gemini : String → Bool
is_gemini model = contains model "gemini-" || contains model "gemini/"

abbrev pub is_gpt_oss : String → Bool
is_gpt_oss model = contains model "gpt-oss-20b" || contains model "gpt-oss-120b"

-- The requested effort in lower case, with `off` read as `none`.
unfoldable pub read_effort : String → String
read_effort requested =
    let r = to_lower (trim_space requested) in if str_eq r "off" then "none" else r

unfoldable pub reasoning_effort_for_model : String → String → Effort
reasoning_effort_for_model given_model requested =
    let model = to_lower (trim_space given_model) in
    let r = read_effort requested in
    if str_eq r ""
    then no_effort
    else if is_qwen model
    then qwen_effort r
    else if is_gemini model
    then gemini_effort r
    else if is_gpt_oss model
    then gpt_oss_effort r
    else no_effort
