-- ===== src/Guest/Chat.antt =====
-- restrictGuestChat of cmd/api/guest.go: what is left of the payload of a guest. The fields of research,
-- which other parts of the code normalise, are the interface ResearchFields.
pub mod Turns
use Prim.Native.String.{◌++◌}
use daiki_aipass_backend.Prelude.{
  ℕ, String, Option, some, none, Bool, true, false, not, ◌&&◌, ◌||◌, str_eq, ltb, if◌then◌else◌,
  decimal, trim_space, List, [], ◌∷◌, length, Result, err, ok, ◌>>=◌,
}
use daiki_aipass_backend.Prelude.Int.{ℤ, pos, pos_part, neg_part, is_neg, is_pos, ltb_ℤ}
use daiki_aipass_backend.Payload.{
  Json, Members, object, array, text, number, boolean, nil, member, close,
}
use daiki_aipass_backend.Payload.Names.{find_member, name_of}
use daiki_aipass_backend.Runtime.Context.{map_of, list_of, elements_of}
use daiki_aipass_backend.Guest.Policy.{GuestAccessPolicy}

-- guestContinuitySystemPrompt
abbrev pub guest_prompt : String
guest_prompt =
    "You are Daiki in Guest mode. Use the conversation messages supplied "
    ++ "in this request as authoritative context. Resolve short follow-ups, "
    ++ "pronouns, and references from the immediately preceding "
    ++ "user/assistant turns instead of asking what topic the user means when "
    ++ "the topic is already present. Do not claim memory beyond the supplied "
    ++ "messages. Guest mode has no unrestricted agent tools. Only "
    ++ "Daiki-owned, server-whitelisted command modes/skills and supplied "
    ++ "attachment/web evidence may be used for this request."

-- normalizeResearchRegion, normalizeResearchLocale, normalizeResearchScope, normalizeResearchDepth and
-- the clipped researchFocus of a payload; an empty text is left out of the result.
pub record ResearchFields : Type 0 where
  pub region : Members → String
  pub locale : Members → String
  pub scope : Members → Json
  pub depth : Members → Json
  pub focus : Members → String

abbrev pub message : String → String → Json
message role content = object (member "role" (text role) (member "content" (text content) close))

abbrev text_message : String → Option Json → Result Json
text_message role (some (text content)) = ok (message role content)
text_message role v = err "guest chat supports text only"

-- One message of the payload.
unfoldable pub clean_message : Json → Result Json
unfolding find_member
clean_message (object ms) =
    let role = name_of (find_member ms "role") in
    if not (str_eq role "user") && not (str_eq role "assistant")
    then err "guest chat supports user and assistant messages only"
    else text_message role (find_member ms "content")
clean_message v = err "guest chat supports text only"

unfoldable pub clean_messages : List Json → Result (List Json)
unfolding clean_message
clean_messages [] = ok []
clean_messages (m ∷ ms) =
    let rest = clean_messages ms in clean_message m >>= (λ c. rest >>= (λ cs. ok (c ∷ cs)))

-- `%d`
abbrev int_text : ℤ → String
int_text n = if is_neg n then "-" ++ decimal (neg_part n) else decimal (pos_part n)

abbrev with_text : String → String → Members → Members
with_text key value ms = if str_eq value "" then ms else member key (text value) ms

abbrev with_stream : Option Json → Members → Members
with_stream (some (boolean b)) ms = member "stream" (boolean b) ms
with_stream v ms = ms

abbrev with_mode : Option Json → Members → Members
with_mode (some (text mode)) ms =
    if str_eq (trim_space mode) "" then ms else member "commandMode" (text mode) ms
with_mode v ms = ms

abbrev with_skills : Option Json → Members → Members
with_skills (some (array es)) ms = member "commandSkills" (array es) ms
with_skills v ms = ms

-- The most attachments of a message.
abbrev pub attachment_count : GuestAccessPolicy → ℤ
attachment_count p =
    if is_pos p.max_attachments_per_message && ltb_ℤ p.max_attachments_per_message (pos 10)
    then p.max_attachments_per_message
    else pos 10

abbrev pub attachments_of : GuestAccessPolicy → Option Json → Result Members
attachments_of p (some (array es)) =
    if ltb_ℤ (attachment_count p) (pos (length (list_of es)))
    then err ("guest chat supports at most " ++ int_text (attachment_count p) ++ " attachments")
    else ok (member "attachmentIds" (array es) close)
attachments_of p v = ok close

module _ (research : ResearchFields) (p : GuestAccessPolicy) where
  -- The payload that is left, around its attachments.
  abbrev pub clean_payload : Members → List Json → Members → Members
  clean_payload ms messages attachments = member "model" (text "fast") (
      member "messages" (array (elements_of (message "system" guest_prompt ∷ messages))) (
        member "researchMode" (text "off") (
          member "max_completion_tokens" (number (int_text p.max_completion_tokens)) (
            with_text "researchRegion" (research.region ms) (
              with_text "researchLocale" (research.locale ms) (
                member "researchScope" (research.scope ms) (
                  member "researchDepth" (research.depth ms) (
                    with_text "researchFocus" (research.focus ms) (
                      with_stream (find_member ms "stream") (
                        with_mode (find_member ms "commandMode")
                          (with_skills (find_member ms "commandSkills") attachments)))))))))))

  abbrev pub messages_in : Option Json → List Json
  messages_in (some (array es)) = list_of es
  messages_in v = []

  abbrev pub clean_chat : Members → List Json → Result Members
  clean_chat ms [] = err "guest chat requires messages"
  clean_chat ms (m ∷ rest) = clean_messages (m ∷ rest) >>= (λ messages.
      attachments_of p (find_member ms "attachmentIds")
      >>= (λ attachments. ok (clean_payload ms messages attachments)))

  abbrev pub restrict_members : Option Members → Result Members
  restrict_members none = err "invalid chat payload"
  restrict_members (some ms) = clean_chat ms (messages_in (find_member ms "messages"))

  -- restrictGuestChat, of the decoded body and before Marshal.
  unfoldable pub restrict_guest_chat : Option Json → Result Members
  unfolding clean_messages find_member list_of elements_of trim_space decimal
  restrict_guest_chat payload = restrict_members (map_of payload)
