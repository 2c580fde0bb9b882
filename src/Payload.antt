-- ===== src/Payload.antt =====
-- Decoded JSON payloads: redactValue and sensitivePayloadKey of cmd/api/usage_metadata.go, and
-- stripPrivateReasoning and sanitizeReasoningJSON of cmd/api/main.go.
pub mod Redaction
pub mod Capped
pub mod Names
use Prim.Native.Char.{Char, code}
use Prim.Native.String.{char_at}
use daiki_aipass_backend.Prelude.{
  ℕ, ◌-◌, String, Option, some, none, Option-cases, Bool, true, false, not, ◌&&◌, ◌||◌, str_eq,
  ◌==◌, if◌then◌else◌, to_lower, contains, List, [], ◌∷◌,
}

-- What json.Unmarshal makes of a text; a number is kept as it is written.
mutual
  pub data Json : Type 0 where
    object : Members → Json
    array : Elements → Json
    text : String → Json
    number : String → Json
    boolean : Bool → Json
    nil : Json

  pub data Members : Type 0 where
    member : String → Json → Members → Members
    close : Members

  pub data Elements : Type 0 where
    element : Json → Elements → Elements
    stop : Elements

-- `strings.ReplaceAll(s, from, to)` of texts of one character.
replace_all : ℕ → Char → String → String
replace_all from to String.[] = String.[]
replace_all from to (String.◌∷◌ c s) =
    let rest = replace_all from to s in String.◌∷◌ (if code c == from then to else c) rest

abbrev underscore : Char
underscore = char_at "_" 0

abbrev dash : ℕ
dash = 45

abbrev space : ℕ
space = 32

abbrev sensitive_words : List String
sensitive_words =
    "password" ∷ "secret" ∷ "authorization" ∷ "access_token" ∷ "refresh_token" ∷ "api_key"
    ∷ "apikey" ∷ "credential" ∷ "cookie" ∷ []

contains_word : String → List String → Bool
contains_word k [] = false
contains_word k (word ∷ words) = contains k word || contains_word k words

-- sensitivePayloadKey
unfoldable pub sensitive_payload_key : String → Bool
unfolding replace_all contains_word to_lower contains
sensitive_payload_key key =
    contains_word (to_lower (replace_all space underscore (replace_all dash underscore key)))
      sensitive_words

abbrev pub redacted : Json
redacted = text "[REDACTED]"

-- redactValue
unfoldable mutual
  unfolding sensitive_payload_key

  pub redact_value : Json → Json
  redact_value (object ms) = object (redact_members ms)
  redact_value (array es) = array (redact_elements es)
  redact_value v = v

  pub redact_members : Members → Members
  redact_members (member k v ms) =
      let kept = redact_value v in
      member k (if sensitive_payload_key k then redacted else kept) (redact_members ms)
  redact_members close = close

  pub redact_elements : Elements → Elements
  redact_elements (element v es) = element (redact_value v) (redact_elements es)
  redact_elements stop = stop

-- The keys that stripPrivateReasoning drops.
unfoldable pub is_private_key : String → Bool
unfolding replace_all to_lower
is_private_key k =
    let normalized = to_lower (replace_all dash underscore k) in
    str_eq normalized "reasoning_content"
    || str_eq normalized "reasoning_text"
    || str_eq normalized "chain_of_thought"

-- stripPrivateReasoning
unfoldable mutual
  unfolding is_private_key

  pub strip_private_reasoning : Json → Json
  strip_private_reasoning (object ms) = object (strip_members ms)
  strip_private_reasoning (array es) = array (strip_elements es)
  strip_private_reasoning v = v

  pub strip_members : Members → Members
  strip_members (member k v ms) =
      let kept = strip_private_reasoning v in
      let rest = strip_members ms in if is_private_key k then rest else member k kept rest
  strip_members close = close

  pub strip_elements : Elements → Elements
  strip_elements (element v es) = element (strip_private_reasoning v) (strip_elements es)
  strip_elements stop = stop

-- What the code uses of encoding/json: Unmarshal into a value, and Marshal, which reads back.
pub record Codec : Type 0 where
  pub decode : String → Option Json
  pub encode : Json → Option String

-- The names that sanitizeReasoningJSON looks for before it decodes.
unfoldable pub mentions_reasoning : String → Bool
unfolding contains
mentions_reasoning body =
    contains body "reasoning_content"
    || contains body "reasoning_text"
    || contains body "chain_of_thought"

unfoldable pub or_data : String → Option String → String
or_data body (some out) = out
or_data body none = body

-- sanitizeReasoningJSON
unfoldable pub sanitize_reasoning_json : Codec → String → String
unfolding mentions_reasoning or_data strip_private_reasoning
sanitize_reasoning_json c body =
    if not (mentions_reasoning body) then body else elim (c.decode body) [
      | none ↦ body
      | some payload ↦ or_data body (c.encode (strip_private_reasoning payload))
    ]
