-- ===== src/Runtime/Context.antt =====
-- The context of a chat: estimateMessageTokens, estimateChatInputTokens, compactText, compactMessage,
-- trimChatContext and setRequestModel of cmd/api/model_runtime.go. A body is its text.
pub mod Compact
pub mod Trim
pub mod Picked
pub mod Trimmed
pub mod Reported
use daiki_aipass_backend.Prelude.{
  ℕ, zero, suc, ◌+◌, ◌-◌, ◌*◌, ◌/◌, max, String, Option, some, none, Bool, true, false, not, ◌&&◌,
  ◌||◌, str_eq, ltb, leb, ◌==◌, if◌then◌else◌, trim_space, List, [], ◌∷◌, ◌++◌, length, take, drop,
  Result, err, ok,
}
use daiki_aipass_backend.Prelude.Int.{ℤ, pos, pos_part, is_pos, max_ℤ, ltb_ℤ, leb_ℤ, ◌-ℤ◌}
use daiki_aipass_backend.Payload.{
  Json, Members, Elements, object, array, text, number, boolean, nil, member, close, element, stop,
  Codec,
}
use daiki_aipass_backend.Payload.Capped.{Bytes}
use daiki_aipass_backend.Payload.Names.{find_member, name_of}

-- "\n…[context compacted]…\n", of 27 bytes
abbrev pub marker : Bytes
marker =
    10 ∷ 226 ∷ 128 ∷ 166 ∷ 91 ∷ 99 ∷ 111 ∷ 110 ∷ 116 ∷ 101 ∷ 120 ∷ 116 ∷ 32 ∷ 99 ∷ 111 ∷ 109 ∷ 112
    ∷ 97 ∷ 99 ∷ 116 ∷ 101 ∷ 100 ∷ 93 ∷ 226 ∷ 128 ∷ 166 ∷ 10 ∷ []

-- v[len(v)-n:], of at least n bytes
abbrev pub last_bytes : ℕ → Bytes → Bytes
last_bytes n v = drop (length v - n) v

-- compactText
unfoldable pub compact_text : Bytes → ℤ → Bytes
compact_text v budget =
    let max_bytes = pos_part budget * 4 in
    let head = max_bytes * 3 / 5 in
    let left = max_bytes - head - 27 in
    let tail = if ltb left 32 then 32 else left in
    if not (is_pos budget)
    then []
    else if leb (length v) max_bytes
    then v
    else if ltb max_bytes 160
    then last_bytes max_bytes v
    else take head v ++ marker ++ last_bytes tail v

-- The value of a member that the object has replaced, or a new member.
unfoldable pub set_member : Members → String → Json → Members
set_member close key w = member key w close
set_member (member k v ms) key w =
    let rest = set_member ms key w in if str_eq k key then member k w ms else member k v rest

unfoldable pub is_image : Members → Bool
unfolding find_member
is_image ms =
    let typ = name_of (find_member ms "type") in
    str_eq typ "image_url" || str_eq typ "input_image" || str_eq typ "image"

-- What Unmarshal makes of a text in a map; null leaves it empty.
abbrev pub map_of : Option Json → Option Members
map_of (some (object ms)) = some ms
map_of (some nil) = some close
map_of v = none

unfoldable pub list_of : Elements → List Json
list_of stop = []
list_of (element v es) = v ∷ list_of es

unfoldable pub elements_of : List Json → Elements
elements_of [] = stop
elements_of (v ∷ vs) = element v (elements_of vs)

-- The texts of Go are bytes; `bytes_of` and `text_of` are the conversions.
module _ (bytes_of : String → Bytes) (text_of : Bytes → String) where
  -- estimateMessageTokens
  unfoldable mutual
    unfolding is_image

    pub estimate_message_tokens : Json → ℕ
    estimate_message_tokens (text s) = max 1 ((length (bytes_of s) + 3) / 4)
    estimate_message_tokens (array es) = estimate_elements es
    estimate_message_tokens (object ms) =
        let n = estimate_members ms in if is_image ms then 512 else n
    estimate_message_tokens v = 0

    pub estimate_elements : Elements → ℕ
    estimate_elements stop = 0
    estimate_elements (element v es) = estimate_message_tokens v + estimate_elements es

    pub estimate_members : Members → ℕ
    estimate_members close = 0
    estimate_members (member k v ms) =
        let n = estimate_message_tokens v in
        (if str_eq k "image_url" || str_eq k "url" then 0 else n) + estimate_members ms

  -- What a message adds to the estimate.
  unfoldable pub cost_of : Json → ℕ
  unfolding estimate_message_tokens
  cost_of m = 8 + estimate_message_tokens m

  unfoldable pub total_cost : List Json → ℕ
  unfolding cost_of
  total_cost [] = 0
  total_cost (m ∷ ms) = cost_of m + total_cost ms

  abbrev messages_of : Members → List Json
  messages_of ms = elim (find_member ms "messages") [ none ↦ [] | some v ↦ messages_in v ]
    where
      messages_in : Json → List Json
      messages_in (array es) = list_of es
      messages_in v = []

  -- estimateChatInputTokens
  unfoldable pub estimate_chat_input_tokens : Codec → String → ℕ
  unfolding total_cost find_member list_of
  estimate_chat_input_tokens c body = elim (map_of (c.decode body)) [
    | none ↦ max 1 (length (bytes_of body) / 4)
    | some ms ↦ max 1 (64 + total_cost (messages_of ms))
  ]

  abbrev compacted : String → ℤ → Json
  compacted s budget = text (text_of (compact_text (bytes_of s) budget))

  -- A part of a message, and what is left of the budget.
  unfoldable pub compact_part : Json → ℤ → Json × ℤ
  unfolding is_image compact_text find_member set_member estimate_message_tokens ◌-ℤ◌
  compact_part (object ms) left =
      let part = object ms in
      if is_image ms then (part, left -ℤ pos 512) else elim (find_member ms "text") [
        | none ↦ (part, left -ℤ pos (estimate_message_tokens part))
        | some v ↦ text_part v
      ]
    where
      text_part : Json → Json × ℤ
      text_part (text s) =
          let short = compacted s (max_ℤ (pos 0) left) in
          (object (set_member ms "text" short), left -ℤ pos (estimate_message_tokens short))
      text_part v = (object ms, left -ℤ pos (estimate_message_tokens (object ms)))
  compact_part v left = (v, left -ℤ pos (estimate_message_tokens v))

  compact_parts : Elements → ℤ → Elements
  unfolding compact_part
  compact_parts stop left = stop
  compact_parts (element v es) left =
      let part = compact_part v left in element part.0 (compact_parts es part.1)

  abbrev compact_content : Members → ℤ → Json → Members
  compact_content ms budget (text s) = set_member ms "content" (compacted s budget)
  compact_content ms budget (array es) = set_member ms "content" (array (compact_parts es budget))
  compact_content ms budget v = ms

  -- compactMessage
  unfoldable pub compact_message : Json → ℤ → Json
  unfolding compact_parts compact_text set_member find_member
  compact_message (object ms) budget = elim (find_member ms "content") [
    | none ↦ object ms
    | some content ↦ object (compact_content ms budget content)
  ]
  compact_message raw budget = raw
