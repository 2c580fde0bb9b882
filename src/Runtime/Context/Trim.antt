-- ===== src/Runtime/Context/Trim.antt =====
-- trimChatContext and setRequestModel of cmd/api/model_runtime.go.
use daiki_aipass_backend.Prelude.{
  ℕ, ◌+◌, ◌-◌, max, String, Option, some, none, Bool, true, false, not, ◌&&◌, ◌||◌, str_eq, leb,
  if◌then◌else◌, trim_space, List, [], ◌∷◌, Result, err, ok,
}
use daiki_aipass_backend.Prelude.Int.{ℤ, pos, pos_part, is_pos, max_ℤ, leb_ℤ, ltb_ℤ, ◌-ℤ◌}
use daiki_aipass_backend.Payload.{Json, Members, object, array, text, Codec}
use daiki_aipass_backend.Payload.Capped.{Bytes}
use daiki_aipass_backend.Payload.Names.{find_member, name_of}
use daiki_aipass_backend.Runtime.Context.{
  map_of, list_of, elements_of, set_member, cost_of, estimate_chat_input_tokens, compact_message,
}

-- What trimChatContext returns: the body, and its estimates before and after.
pub record Trimmed : Type 0 where
  pub body : String
  pub original : ℕ
  pub final : ℕ

-- A system or developer message.
unfoldable pub is_instruction : Json → Bool
unfolding find_member
is_instruction (object ms) =
    let role = name_of (find_member ms "role") in str_eq role "system" || str_eq role "developer"
is_instruction v = false

-- The messages in the opposite order.
abbrev pub reverse_onto : List Json → List Json → List Json
reverse_onto [] acc = acc
reverse_onto (m ∷ ms) acc = reverse_onto ms (m ∷ acc)

abbrev pub is_empty : List Json → Bool
is_empty [] = true
is_empty (m ∷ ms) = false

module _ (bytes_of : String → Bytes) (text_of : Bytes → String) where
  abbrev shorten : Json → ℤ → Json
  shorten = compact_message bytes_of text_of

  -- Whether a message is taken as it is.
  abbrev pub fits : ℕ → ℕ → List Json → Json → Bool
  fits budget used selected m = is_empty selected || leb (used + cost_of bytes_of text_of m) budget

  -- The loop of trimChatContext over the messages, the newest first; what is selected stands in the
  -- order of the chat.
  unfoldable pub pick_messages : ℕ → ℕ → List Json → List Json → List Json
  unfolding cost_of is_instruction compact_message
  pick_messages budget used selected [] = selected
  pick_messages budget used selected (m ∷ older) = elim (fits budget used selected m) [
    | true ↦ pick_messages budget (used + cost_of bytes_of text_of m) (m ∷ selected) older
    | false ↦ elim (is_empty older && is_instruction m) [
      | true ↦ shorten m (pos (max 64 (budget - used))) ∷ selected
      | false ↦ pick_messages budget used selected older
    ]
  ]

  -- The newest message, compacted.
  unfoldable pub compact_newest : ℤ → List Json → List Json
  unfolding compact_message
  compact_newest budget [] = []
  compact_newest budget (m ∷ ms) =
      let rest = compact_newest budget ms in if is_empty ms then shorten m budget ∷ [] else m ∷ rest

  module _ (c : Codec) where
    abbrev estimate : String → ℕ
    estimate = estimate_chat_input_tokens bytes_of text_of c

    abbrev pub with_messages : Members → List Json → Option String
    with_messages ms selected =
        c.encode (object (set_member ms "messages" (array (elements_of selected))))

    abbrev pub unchanged : String → Result Trimmed
    unchanged body = ok (record { body = body; original = estimate body; final = estimate body })

    abbrev pub finished : ℕ → Option String → Result Trimmed
    finished original none = err "marshal"
    finished original (some out) =
        ok (record { body = out; original = original; final = estimate out })

    -- The body with the selected messages, of which the newest is compacted if it is still too long.
    abbrev pub with_selected : Members → ℕ → ℤ → List Json → Option String → Result Trimmed
    with_selected ms original target selected none = err "marshal"
    with_selected ms original target selected (some out) =
        if ltb_ℤ target (pos (estimate out)) && not (is_empty selected)
        then finished original
            (with_messages ms (compact_newest (max_ℤ (pos 128) (target -ℤ pos 192)) selected))
        else ok (record { body = out; original = original; final = estimate out })

    abbrev pub trim_messages : String → Members → ℤ → List Json → Result Trimmed
    trim_messages body ms target [] = unchanged body
    trim_messages body ms target (m ∷ rest) =
        let budget = max 256 (pos_part (target -ℤ pos 96)) in
        let selected = pick_messages budget 0 [] (reverse_onto (m ∷ rest) []) in
        if leb_ℤ (pos (estimate body)) target
        then unchanged body
        else with_selected ms (estimate body) target selected (with_messages ms selected)

    abbrev pub messages_in : Option Json → List Json
    messages_in (some (array es)) = list_of es
    messages_in v = []

    abbrev pub trim_payload : String → ℤ → Option Members → Result Trimmed
    trim_payload body target none = err "unmarshal"
    trim_payload body target (some ms) =
        trim_messages body ms target (messages_in (find_member ms "messages"))

    -- trimChatContext
    unfoldable pub trim_chat_context : String → ℤ → Result Trimmed
    unfolding estimate_chat_input_tokens pick_messages compact_newest find_member set_member list_of
        elements_of ◌-ℤ◌
    trim_chat_context body target =
        if not (is_pos target)
        then unchanged body
        else trim_payload body target (map_of (c.decode body))

    abbrev or_body : String → Option String → String
    or_body body none = body
    or_body body (some out) = out

    abbrev model_in : String → String → Option Members → String
    model_in body model none = body
    model_in body model (some ms) =
        or_body body (c.encode (object (set_member ms "model" (text model))))

    -- setRequestModel, of a body other than `null`, for which the assignment to a nil map panics
    unfoldable pub set_request_model : String → String → String
    unfolding set_member trim_space
    set_request_model body model =
        if str_eq (trim_space model) "" then body else model_in body model (map_of (c.decode body))
