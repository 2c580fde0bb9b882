-- ===== src/Examples/Payload.antt =====
-- Concrete inputs of the results on payloads.
use daiki_aipass_backend.Prelude.{◌≡◌, refl, String, Option, some, str_eq, if◌then◌else◌, [], ◌∷◌}
use daiki_aipass_backend.Artifacts.{remove_generated_json_trailing_commas}
use daiki_aipass_backend.Artifacts.Commas.{
  plain, in_texts, IsRepair, remove_generated_json_trailing_commas-keeps,
}
use daiki_aipass_backend.Payload.{
  Json, object, array, text, element, stop, member, close, redact_value, Codec, mentions_reasoning,
  strip_private_reasoning, sanitize_reasoning_json,
}
use daiki_aipass_backend.Payload.Redaction.{IsRedacted, redact_value-IsRedacted}
use daiki_aipass_backend.Payload.Capped.{Bytes, write_all}
use daiki_aipass_backend.Payload.Capped.Limits.{write_all-refines}

abbrev login : Json
login = object (
    member "model" (text "fast")
      (member "extra" (array (element (object (member "API-Key" (text "k-1") close)) stop)) close))

login_redacted :
    redact_value login
    ≡ object (
        member "model" (text "fast") (
          member "extra"
            (array (element (object (member "API-Key" (text "[REDACTED]") close)) stop))
            close))
unfolding redact_value
login_redacted = refl

redact_value-IsRedacted_example :
    IsRedacted (redact_value login) × (IsRedacted login → redact_value login ≡ login)
redact_value-IsRedacted_example = redact_value-IsRedacted login

abbrev thought : Json
thought = object (member "reasoning_content" (text "hm") (member "content" (text "hi") close))

abbrev thought_body : String
thought_body = "{\"reasoning_content\":\"hm\",\"content\":\"hi\"}"

abbrev answer : Json
answer = object (member "content" (text "hi") close)

abbrev answer_body : String
answer_body = "{\"content\":\"hi\"}"

-- A codec that knows the two bodies.
abbrev two_bodies : Codec
two_bodies = record {
  decode = λ body. if str_eq body answer_body then some answer else some thought;
  encode = λ v. some answer_body;
}

thought_sanitized : sanitize_reasoning_json two_bodies thought_body ≡ answer_body
unfolding sanitize_reasoning_json mentions_reasoning strip_private_reasoning
thought_sanitized = refl

write_all-refines_example :
    ((write_all (record { buf = []; max = 3 }) ((1 ∷ 2 ∷ []) ∷ (3 ∷ 4 ∷ []) ∷ [])).0.buf
      ≡ 1 ∷ 2 ∷ 3 ∷ [])
    × ((write_all (record { buf = []; max = 3 }) ((1 ∷ 2 ∷ []) ∷ (3 ∷ 4 ∷ []) ∷ [])).1 ≡ 2 ∷ 2 ∷ [])
write_all-refines_example = write_all-refines 3 ((1 ∷ 2 ∷ []) ∷ (3 ∷ 4 ∷ []) ∷ [])

abbrev as_login : Bytes → Option Json
as_login body = some login

abbrev two_bytes : Json → Option Bytes
two_bytes v = some (123 ∷ 125 ∷ [])

-- `[1,"a,]",]`
abbrev trailing : Bytes
trailing = 91 ∷ 49 ∷ 44 ∷ 34 ∷ 97 ∷ 44 ∷ 93 ∷ 34 ∷ 44 ∷ 93 ∷ []

trailing_repaired :
    remove_generated_json_trailing_commas trailing ≡ 91 ∷ 49 ∷ 44 ∷ 34 ∷ 97 ∷ 44 ∷ 93 ∷ 34 ∷ 93 ∷ []
unfolding remove_generated_json_trailing_commas
trailing_repaired = refl

remove_generated_json_trailing_commas-keeps_example :
    IsRepair plain trailing (remove_generated_json_trailing_commas trailing)
    × (in_texts plain (remove_generated_json_trailing_commas trailing) ≡ in_texts plain trailing)
remove_generated_json_trailing_commas-keeps_example =
    remove_generated_json_trailing_commas-keeps trailing
